-- ===== src/Range.antt =====
-- crates/server/src/data_api.rs, parse_byte_range and the part of serve_file that uses it.
pub mod Bounds
mod Examples
use mathlib.Core.Option
use blt.Base.{
  ℕ, ◌^◌, ◌+◌, ◌-◌, take, drop, Bool, true, false, ◌&&◌, ◌||◌, Option, none, some, List, [], ◌∷◌,
  ltb, leb, ◌==◌, min, any, if◌then◌else◌,
}
use blt.Base.Text.{Text, text}
use blt.Base.Parse.{strip_prefix, split_once, parse_below}

-- `parse::<u64>()`
abbrev pub u64 : Text → Option ℕ
u64 s = parse_below (2 ^ 64) s

-- `a-b`, of the two numbers
abbrev pub bounded_range : Option ℕ → Option ℕ → ℕ → Option (ℕ × ℕ)
bounded_range none last size = none
bounded_range (some first) none size = none
bounded_range (some first) (some last) size =
    if leb first last && ltb first size then some (first, min last (size - 1)) else none

-- `a-`
abbrev pub range_from : Option ℕ → ℕ → Option (ℕ × ℕ)
range_from none size = none
range_from (some first) size = if ltb first size then some (first, size - 1) else none

-- `-b`, the last bytes
abbrev pub last_bytes : Option ℕ → ℕ → Option (ℕ × ℕ)
last_bytes none size = none
last_bytes (some n) size = if ltb 0 (min n size) then some (size - min n size, size - 1) else none

abbrev pub range_of : Text → Text → ℕ → Option (ℕ × ℕ)
range_of [] [] size = none
range_of [] (c ∷ b) size = last_bytes (u64 (c ∷ b)) size
range_of (c ∷ a) [] size = range_from (u64 (c ∷ a)) size
range_of (c ∷ a) (d ∷ b) size = bounded_range (u64 (c ∷ a)) (u64 (d ∷ b)) size

-- The inclusive bounds; 44 is a comma and 45 a dash.
unfoldable pub parse_byte_range : Text → ℕ → Option (ℕ × ℕ)
unfolding strip_prefix split_once parse_below
parse_byte_range value size = elim (strip_prefix (text "bytes=") value) [
  | none ↦ none
  | some spec ↦
      if any (λ c. c == 44) spec || (size == 0)
      then none
      else elim (split_once 45 spec) [ none ↦ none | some (a, b) ↦ range_of a b size ]
]

-- What serve_file answers with: where the body starts in the file, the Content-Length, and whether the
-- status is 206.
pub record Served : Type 0 where
  pub first : ℕ
  pub len : ℕ
  pub partial : Bool

abbrev pub served : Option (ℕ × ℕ) → ℕ → Served
served none size = record { first = 0; len = size; partial = false }
served (some (first, last)) size = record { first = first; len = last - first + 1; partial = true }

-- The Range header as a text, `none` where there is none or where it is not one.
abbrev pub serve_file : Option Text → ℕ → Served
serve_file none size = served none size
serve_file (some value) size = served (parse_byte_range value size) size

-- The body: the reader takes `len` bytes from `first` on.
abbrev pub body : Served → List ℕ → List ℕ
body r file = take r.len (drop r.first file)
