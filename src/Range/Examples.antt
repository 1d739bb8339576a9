-- ===== src/Range/Examples.antt =====
-- A file of three bytes.
use blt.Base.{ℕ, ◌+◌, ◌≤◌, ◌<◌, ◌≡◌, refl, true, some, List, [], ◌∷◌, length}
use blt.Base.Text.{text}
use blt.Range.{Served, parse_byte_range, serve_file, body}
use blt.Range.Bounds.{serve_file-body}

last_hundred : parse_byte_range (text "bytes=-100") 1000 ≡ some (900, 999)
unfolding parse_byte_range
last_hundred = refl

cut_to_size : parse_byte_range (text "bytes=0-5000") 1000 ≡ some (0, 999)
unfolding parse_byte_range
cut_to_size = refl

abbrev file : List ℕ
file = 5 ∷ 6 ∷ 7 ∷ []

abbrev answer : Served
answer = serve_file (some (text "bytes=1-9")) 3

serve_file-body_example :
    (answer.first + answer.len ≤ 3)
    × (answer.partial ≡ true → 0 < answer.len)
    × (length (body answer file) ≡ answer.len)
serve_file-body_example = serve_file-body (some (text "bytes=1-9")) 3 file refl
