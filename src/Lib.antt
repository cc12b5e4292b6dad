-- ===== src/Lib.antt =====
-- The quota scheduler chooses, for each request of a host proxy, one of several credentials, keeps
-- away from those that the upstream has answered with 429, and hands its state over when a new
-- instance of the plugin is loaded. Its methods run under a mutex, so each call is one step on an
-- explicit state; concurrency between callers is a sequence of such steps in any order.
--
-- Parts, with the files of the repository that they model:
--   Common       what the parts share: tests on native numbers, texts as lists of code points with
--                the functions used of Go's package strings, maps as association lists, instants
--                and durations in nanoseconds.
--   Quota        runtime.go, config.go: a snapshot of the quota windows of a credential and the
--                freshness of it. Quota.Cycle is quotaWindowHasPlaceholderReset and
--                quotaWindowCycleStarted of warmup.go; Quota.Priority is quota_priority.go with
--                windowRankInOrder of pacing.go, and Quota.Normalize is quota_window_normalize.go.
--                Quota.Order, Groups, Windows, Merging, Rows and Restricted hold the proofs.
--   Recovery     recovery_guard.go: the guard that lets one request try a credential after it was
--                exhausted. Recovery.Retry is recoveryRetryDelay, Recovery.Guard the calls of one
--                request (observe, reserve, dispatched), Recovery.Lifecycle the others (finish,
--                require, clear, restore, ...); Recovery.Permit and Recovery.Evidence hold the
--                proofs.
--   Ban          main.go, type banState: the quarantine after a 429. Ban.Entry is banEntry and
--                normalizeBanEntry, Ban.Store the calls that set an entry or admit a probe,
--                Ban.Completion those that end one, with the removals of a cooldown by quota_demand.go
--                and reset_credits.go, Ban.Calls any sequence of them;
--                Ban.Quarantine, Ban.Ownership and Ban.Cooldown hold the proofs.
--   Reconcile    ban_reconcile.go: how fresh snapshots end a quarantine whose cycle is over.
--                Reconcile.Evidence is what one snapshot proves, Reconcile.Confirmations the count of
--                the proofs and the end of a quarantine; Reconcile.Proven, Twice, Cleared and Ambiguous
--                hold the proofs.
--   Generation   generation_owner.go: the append-only journal, shared by all loaded instances, that
--                says which of them may write the shared state. Generation.Journal is the file and
--                its locked update, Generation.Owner the operations of an instance, and
--                Generation.Register the abstract register that they implement; Refined, Fence,
--                Results, Runs, Safety and Unconfirmed hold the proofs.
--   Concurrency  concurrency.go: the ledger of running requests that bounds those of a credential.
--                Concurrency.Ledger is the ledger, its registrations and completions,
--                Concurrency.Queue the admission test and the queue of waiting requests,
--                Concurrency.Calls any sequence of calls, Concurrency.Rejected the handler
--                releaseRejectedContinuityAttempt, Concurrency.Slot and Concurrency.After the loop
--                of concurrencyAfter, one pass at a time, and Concurrency.Complete the terminal
--                callback handleConcurrencyComplete; the other modules hold the proofs.
--   Runtime      Runtime.Identity is how the runtime knows a credential by its auth id and auth
--                index: canonicalAuthIDLocked of adq_runtime.go, lookupQuotaLocked of runtime.go
--                and concurrencyAliases of concurrency.go.
--   Continuity   continuity.go: the gate that spaces the requests of credentials. Continuity.Gate
--                is continuityGate and what removes its reservations, Continuity.Pace the booking
--                (pace) and the record of usage, Continuity.Calls any sequence of calls;
--                Continuity.Spacing, Kept and Promise hold proofs.
--   Epoch        quota_epoch.go: the epoch of the weekly quota and the sweep of quota probes that
--                confirms it, with quotaPollState of quota_refresh.go, adqEpochID of adq_pbs.go and,
--                in Quota.Activation, unstartedWarmupWindow of warmup.go. Epoch.State is the state,
--                Epoch.Evidence what two snapshots say about a reset, Epoch.Sweep the begin of a
--                sweep and the probes it asks for, Epoch.Rounds its rounds and its end, Epoch.Confirm
--                the confirmation of an epoch, Epoch.Observe what probes, headers, usage and warmups
--                do to it, Epoch.Apply what the runtime does to its warmups when an epoch is
--                confirmed, and Epoch.Calls any sequence of calls; Inventory, Fresh, Warmed, Bounded,
--                Backed and Cleared hold the proofs.
--   Sessions     balanced_session.go: the bounded table that keeps a conversation on its
--                credential. Sessions.Table has its operations; Sessions.Bounds and Sessions.Saved
--                hold the proofs.
--
-- The parts meet in these places: Ban takes the backoff of Recovery.Retry, Recovery reads the
-- snapshots and the freshness test of Quota, Concurrency.Rejected changes the ledger, the guard and
-- the quarantine store in one step, Concurrency.After does so on the way of every request and finds
-- the credential by Runtime, Concurrency.Complete ends what these and Continuity hold for a request
-- and renews its conversation in Sessions, Sessions asks the ledger whether a conversation still
-- runs, Reconcile ends quarantines of Ban by the snapshots of Quota, Epoch compares such snapshots and finds
-- accounts by Runtime, and every part uses the maps and
-- texts of Common.
--
-- Numbers. Percentages and credits count billionths, so a float64 that is not a multiple of 10^-9 is
-- out of reach; instants and durations do not wrap, and a duration that is not positive is 0.
-- Generations of uint64 wrap or stop as the source writes it; counters of int do not wrap.
-- Unix seconds before 1970 are 0.
-- Fuel. Only the loop of recoveryRetryDelay counts on a number: it runs at most failures - 1
-- rounds, and that is the number given. Everything else recurs on a list.
-- Formatting. How package fmt writes a number in decimal is a parameter of the epoch's operations;
-- nothing is assumed of it.
-- Texts. strings.TrimSpace and strings.ToLower are written on code points; of the letters past ASCII
-- only those that fold into ASCII fold. A map is visited in the order of its list; Go fixes none. The
-- order does not matter to the methods of the guard, the quarantine, the ledger and the gate: each
-- visit touches its own entry, or asks whether some entry passes a test, or takes the latest instant.
-- It does where two quotas name one account under two indexes, where a name fits several quotas, where two conversations are equally old, and where more
-- conversations are saved or restored than fit; the theorems hold for the order of the list.
-- Instants. A call that reads the clock several times reads one instant here; a pass of
-- concurrencyAfter is such a call, and the waits between its passes are other calls' turns.
-- The file system. A journal line is seen as JSON decodes it. What the system does to one update (it
-- refuses it, fails its compaction before or after the journal is replaced, or loses, cuts or does not
-- confirm the append) is an argument of the operation, so the theorems on the journal hold for every
-- such failure.
--
-- Not modelled: the HTTP management pages and dashboard, configuration parsing, the quota probes and
-- warmup requests over the network, the predictive pacing and balancing in floating point (with the
-- interval that the continuity gate is given), the hash of a conversation, the host SDK, and the
-- platform files for locks and renames. They are input and output, or arithmetic on float64, or not
-- reached yet.
mod Common
pub mod Quota
pub mod Recovery
pub mod Ban
pub mod Generation
pub mod Runtime
pub mod Concurrency
pub mod Epoch
pub mod Continuity
pub mod Sessions
pub mod Reconcile
