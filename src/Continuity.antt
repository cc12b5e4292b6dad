-- ===== src/Continuity.antt =====
-- continuity.go: the reservations that space requests in time, by its parts and by what is proved of
-- them.
pub mod Gate
pub mod Pace
pub mod Spacing
pub mod Calls
pub mod Kept
pub mod Promise
mod Examples
