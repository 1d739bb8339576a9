-- ===== src/Base/Parse.antt =====
-- What the standard library does with texts: splitting, trimming, and unsigned decimal numbers.
use Prim.Native.Nat.{ℕ, ◌+◌, ◌*◌, ◌-◌}
use mathlib.Core.Bool.{Bool, ◌&&◌, ◌||◌}
use mathlib.Core.Option.{Option, none, some}
use mathlib.Core.List.{List, [], ◌∷◌}
use blt.Base.Tests.{◌==◌, ltb, leb, if◌then◌else◌}
use blt.Base.Text.{Text}

-- `split_once(c)`
unfoldable pub split_once : ℕ → Text → Option (Text × Text)
split_once c [] = none
split_once c (x ∷ s) =
    let rest = split_once c s in
    if x == c then some ([], s) else elim rest [ none ↦ none | some (a, b) ↦ some (x ∷ a, b) ]

abbrev cons_first : ℕ → List Text → List Text
cons_first x [] = (x ∷ []) ∷ []
cons_first x (part ∷ parts) = (x ∷ part) ∷ parts

-- `split(c)`
unfoldable pub split_on : ℕ → Text → List Text
split_on c [] = [] ∷ []
split_on c (x ∷ s) = let rest = split_on c s in if x == c then [] ∷ rest else cons_first x rest

-- `strip_prefix(p)`
unfoldable pub strip_prefix : Text → Text → Option Text
strip_prefix [] s = some s
strip_prefix (c ∷ p) [] = none
strip_prefix (c ∷ p) (x ∷ s) = let rest = strip_prefix p s in if x == c then rest else none

-- The texts before and after the first place where `p` stands.
unfoldable pub split_text : Text → Text → Option (Text × Text)
unfolding strip_prefix
split_text p [] = none
split_text p (x ∷ s) =
    let rest = split_text p s in
    elim (strip_prefix p (x ∷ s)) [
      | some after ↦ some ([], after)
      | none ↦ elim rest [ none ↦ none | some (a, b) ↦ some (x ∷ a, b) ]
    ]

-- `char::is_whitespace`
abbrev pub is_whitespace : ℕ → Bool
is_whitespace c =
    (leb 9 c && leb c 13)
    || (c == 32)
    || (c == 133)
    || (c == 160)
    || (c == 5760)
    || (leb 8192 c && leb c 8202)
    || (c == 8232)
    || (c == 8233)
    || (c == 8239)
    || (c == 8287)
    || (c == 12288)

unfoldable pub trim_start : Text → Text
trim_start [] = []
trim_start (c ∷ s) = let rest = trim_start s in if is_whitespace c then rest else c ∷ s

abbrev cons_some : ℕ → Text → Text
cons_some c [] = if is_whitespace c then [] else c ∷ []
cons_some c (d ∷ s) = c ∷ d ∷ s

unfoldable pub trim_back : Text → Text
trim_back [] = []
trim_back (c ∷ s) = cons_some c (trim_back s)

-- `trim()`
unfoldable pub trim : Text → Text
unfolding trim_start trim_back
trim s = trim_back (trim_start s)

-- The digits of a number, read on from `acc`.
unfoldable pub digits : ℕ → Text → Option ℕ
digits acc [] = some acc
digits acc (c ∷ s) = if leb 48 c && leb c 57 then digits (acc * 10 + (c - 48)) s else none

abbrev below : ℕ → Option ℕ → Option ℕ
below bound none = none
below bound (some n) = if ltb n bound then some n else none

abbrev unsigned : Text → Option ℕ
unsigned [] = none
unsigned (c ∷ s) = digits 0 (c ∷ s)

abbrev drop_plus : Text → Text
drop_plus [] = []
drop_plus (c ∷ s) = if c == 43 then s else c ∷ s

-- `parse::<uN>().ok()` for the numbers below the bound; one leading plus is allowed.
unfoldable pub parse_below : ℕ → Text → Option ℕ
unfolding digits
parse_below bound s = below bound (unsigned (drop_plus s))
