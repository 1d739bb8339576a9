-- ===== src/Bitmap/Examples.antt =====
-- The bitmap's theorems at concrete bitmaps, and the source's own tests.
use blt.Base.{div_ceil, ℕ, true, ◌≡◌, refl, some, List, [], ◌∷◌, ltb, ◌&&◌, arith}
use blt.Bitmap.{Bitmap, IsValid, new, from_bytes, as_bytes, has, set, missing, bit_at, bit_of}
use blt.Bitmap.Access.{Writes, set-Writes}
use blt.Bitmap.Count.{IsWorkList, missing-IsWorkList}
use blt.Bitmap.Persist.{new_lem, from_bytes_lem, from_bytes-as_bytes}

abbrev twenty : Bitmap
twenty = new 20

twenty-IsValid : IsValid twenty
twenty-IsValid = (new_lem 20).0

-- Three chunks of three, from a byte whose padding bits are set.
abbrev three : Bitmap
three = from_bytes 3 (255 ∷ [])

three-IsValid : IsValid three
three-IsValid = (from_bytes_lem 3 (255 ∷ []) (omega arith, tt)).0

set-Writes_example : Writes twenty 9 true (set twenty 9)
set-Writes_example = set-Writes twenty 9 twenty-IsValid

missing-IsWorkList_example : (l : List ℕ) × (missing three ≡ some l) × IsWorkList three l
missing-IsWorkList_example = missing-IsWorkList three three-IsValid

from_bytes_lem_example :
    IsValid (from_bytes 3 (255 ∷ []))
    × ((from_bytes 3 (255 ∷ [])).len ≡ 3)
    × ((j : ℕ) → has (from_bytes 3 (255 ∷ [])) j ≡ some (ltb j 3 && bit_at (255 ∷ []) j))
from_bytes_lem_example = from_bytes_lem 3 (255 ∷ []) (omega arith, tt)

from_bytes-as_bytes_example : from_bytes 20 (as_bytes twenty) ≡ twenty
unfolding new
from_bytes-as_bytes_example = from_bytes-as_bytes twenty twenty-IsValid

missing_lists_zero_bits : missing (record { len = 5; bytes = 10 ∷ [] }) ≡ some (0 ∷ 2 ∷ 4 ∷ [])
unfolding missing has bit_of
missing_lists_zero_bits = refl

from_bytes_clears_padding : from_bytes 3 (255 ∷ []) ≡ record { len = 3; bytes = 7 ∷ [] }
unfolding from_bytes div_ceil
from_bytes_clears_padding = refl
