-- ===== src/Range/Bounds.antt =====
-- The answer to a Range header against the size of the file.
use mathlib.Core.Path.{subst}
use blt.Base.{
  ℕ, ◌+◌, zero, suc, ◌∙◌, length-take, drop, length, ◌-◌, ◌≤◌, ◌<◌, ◌≡◌, sym, ap, true, ◌&&◌, ◌||◌,
  Option, none, some, List, [], ◌∷◌, ltb, leb, ◌==◌, min, any, inl, inr, arith, Bool-cases,
  Option-cases,
}
use blt.Base.Text.{Text, text}
use blt.Base.Parse.{strip_prefix, split_once}
use blt.Range.{
  u64, bounded_range, range_from, last_bytes, range_of, parse_byte_range, Served, served,
  serve_file, body,
}

-- A range that is returned is not empty and lies within the file.
abbrev pub Within : ℕ → Option (ℕ × ℕ) → Type 0
Within size none = Unit
Within size (some (first, last)) = (first ≤ last) × (last < size)

bounded_lem :
    (first last size : ℕ)
    → leb first last && ltb first size ≡ true
    → (first ≤ min last (size - 1)) × (min last (size - 1) < size)
bounded_lem first last size h = (ground arith, ground arith)

from_lem : (first size : ℕ) → ltb first size ≡ true → (first ≤ size - 1) × (size - 1 < size)
from_lem first size h = (ground arith, ground arith)

last_lem :
    (n size : ℕ) → ltb 0 (min n size) ≡ true → (size - min n size ≤ size - 1) × (size - 1 < size)
last_lem n size h = (ground arith, ground arith)

bounded_range-Within :
    (first last : Option ℕ) (size : ℕ) → Within size (bounded_range first last size)
bounded_range-Within none last size = tt
bounded_range-Within (some first) none size = tt
bounded_range-Within (some first) (some last) size =
    elim (Bool-cases (leb first last && ltb first size)) [
      | inl e ↦ simp (e) (bounded_lem first last size e)
      | inr e ↦ simp (e) tt
    ]

range_from-Within : (first : Option ℕ) (size : ℕ) → Within size (range_from first size)
range_from-Within none size = tt
range_from-Within (some first) size = elim (Bool-cases (ltb first size)) [
  | inl e ↦ simp (e) (from_lem first size e)
  | inr e ↦ simp (e) tt
]

last_bytes-Within : (n : Option ℕ) (size : ℕ) → Within size (last_bytes n size)
last_bytes-Within none size = tt
last_bytes-Within (some n) size = elim (Bool-cases (ltb 0 (min n size))) [
  | inl e ↦ simp (e) (last_lem n size e)
  | inr e ↦ simp (e) tt
]

range_of-Within : (a b : Text) (size : ℕ) → Within size (range_of a b size)
range_of-Within [] [] size = tt
range_of-Within [] (c ∷ b) size = last_bytes-Within (u64 (c ∷ b)) size
range_of-Within (c ∷ a) [] size = range_from-Within (u64 (c ∷ a)) size
range_of-Within (c ∷ a) (d ∷ b) size = bounded_range-Within (u64 (c ∷ a)) (u64 (d ∷ b)) size

parse_byte_range-Within : (value : Text) (size : ℕ) → Within size (parse_byte_range value size)
unfolding parse_byte_range
parse_byte_range-Within value size = elim (Option-cases (strip_prefix (text "bytes=") value)) [
  | inl h ↦ rw (parse_byte_range, h) tt
  | inr (spec, h) ↦ elim (Bool-cases (any (λ c. c == 44) spec || (size == 0))) [
    | inl e ↦ rw (parse_byte_range, h, e) tt
    | inr e ↦ elim (Option-cases (split_once 45 spec)) [
      | inl o ↦ rw (parse_byte_range, h, e, o) tt
      | inr ((a, b), o) ↦ rw (parse_byte_range, h, e, o) (range_of-Within a b size)
    ]
  ]
]

length-drop : (n : ℕ) (xs : List ℕ) → length (drop n xs) ≡ length xs - n
length-drop zero xs = omega arith
length-drop (suc n) [] = omega arith
length-drop (suc n) (x ∷ xs) = length-drop n xs ∙ omega arith

span_lem : (first len total : ℕ) → first + len ≤ total → min len (total - first) ≡ len
span_lem first len total h = ground arith

length-body :
    (r : Served) (file : List ℕ) → r.first + r.len ≤ length file → length (body r file) ≡ r.len
length-body r file h =
    length-take r.len (drop r.first file)
    ∙ ap (min r.len) (length-drop r.first file)
    ∙ span_lem r.first r.len (length file) h

-- The answer lies within the file, and a partial one is not empty.
abbrev Fits : ℕ → Served → Type 0
Fits size r = (r.first + r.len ≤ size) × (r.partial ≡ true → 0 < r.len)

served-Fits :
    (range : Option (ℕ × ℕ)) (size : ℕ) → Within size range → Fits size (served range size)
served-Fits none size h = (omega arith, λ p. absurd (cc p))
served-Fits (some (first, last)) size (h, k) = (omega arith, λ p. omega arith)

serve_file-Fits : (header : Option Text) (size : ℕ) → Fits size (serve_file header size)
serve_file-Fits none size = served-Fits none size tt
serve_file-Fits (some value) size =
    served-Fits (parse_byte_range value size) size (parse_byte_range-Within value size)

-- Whatever the Range header says, the answer for a file that has the size of its row lies within the
-- file, a partial answer is not empty, and the body has as many bytes as the Content-Length says.
pub serve_file-body :
    (header : Option Text) (size : ℕ) (file : List ℕ)
    → length file ≡ size
    → (Served.first (serve_file header size) + Served.len (serve_file header size) ≤ size)
      × ((serve_file header size).partial ≡ true → 0 < Served.len (serve_file header size))
      × (length (body (serve_file header size) file) ≡ Served.len (serve_file header size))
serve_file-body header size file e =
    let (fits, some_bytes) = serve_file-Fits header size in
    (
      fits,
      some_bytes,
      length-body (serve_file header size) file (
          subst
            (λ n. Served.first (serve_file header size) + Served.len (serve_file header size) ≤ n)
            (sym e) fits),
    )
