-- ===== src/Bitmap.antt =====
-- crates/core/src/bitmap.rs: the resume bitmap, one bit per chunk.
-- `bytes` is a list of numbers; `self.bytes[byte]` panics out of bounds, so an operation that
-- indexes returns `none` there.
mod Examples
pub mod Byte
pub mod Access
pub mod Count
pub mod Persist
use mathlib.Core.Option
use blt.Base.{
  ℕ, zero, suc, ◌+◌, ◌-◌, ◌*◌, ◌/◌, ◌%◌, ◌^◌, ◌≤◌, ◌<◌, bit_and, bit_or, Bool, true, false, not,
  ◌≡◌, Option, none, some, List, [], ◌∷◌, ◌++◌, ltb, leb, div_ceil, ◌==◌, if◌then◌else◌, length,
  get_elem?, get_or, set as set_at, take, replicate, All,
}

pub record Bitmap : Type 0 where
  pub len : ℕ  -- u64
  pub bytes : List ℕ  -- Vec<u8>

unfoldable pub new : ℕ → Bitmap
new len = record { len = len; bytes = replicate (div_ceil len 8) 0 }

-- `bytes.resize(n, 0)`
unfoldable pub resize : List ℕ → ℕ → List ℕ
resize bytes n = take n bytes ++ replicate (n - length bytes) 0

-- `if let Some(last) = bytes.last_mut() { *last = f(*last) }`
unfoldable pub update_last : (ℕ → ℕ) → List ℕ → List ℕ
update_last f [] = []
update_last f (b ∷ []) = f b ∷ []
update_last f (b ∷ c ∷ bytes) = b ∷ update_last f (c ∷ bytes)

-- The mask is `1 << used` as a byte, less one with wrap-around.
unfoldable pub clear_padding : Bitmap → Bitmap
unfolding update_last
clear_padding bm =
    let used = bm.len % 8 in
    let mask = (2 ^ used) % 256 in
    if used == 0
    then bm
    else record bm { bytes = update_last (λ last. bit_and last ((mask + 255) % 256)) bm.bytes }

unfoldable pub from_bytes : ℕ → List ℕ → Bitmap
unfolding clear_padding resize
from_bytes len bytes =
    let nbytes = div_ceil len 8 in clear_padding (record { len = len; bytes = resize bytes nbytes })

unfoldable pub as_bytes : Bitmap → List ℕ
as_bytes bm = bm.bytes

-- `(byte >> bit) & 1 == 1`
unfoldable pub bit_of : ℕ → ℕ → Bool
bit_of byte bit = bit_and (byte / 2 ^ bit) 1 == 1

unfoldable pub has : Bitmap → ℕ → Option Bool
has bm i =
    if leb bm.len i
    then some false
    else elim (get_elem? bm.bytes (i / 8)) [ none ↦ none | some byte ↦ some (bit_of byte (i % 8)) ]

-- `byte |= 1 << bit` and `byte &= !(1 << bit)` on a u8
unfoldable pub bit_on : ℕ → ℕ → ℕ
bit_on byte bit = bit_or byte (2 ^ bit)

unfoldable pub bit_off : ℕ → ℕ → ℕ
bit_off byte bit = bit_and byte (255 - 2 ^ bit)

-- `self.bytes[i] = f(self.bytes[i])`
unfoldable pub modify_byte : Bitmap → ℕ → (ℕ → ℕ) → Option Bitmap
modify_byte bm i f = elim (get_elem? bm.bytes i) [
  | none ↦ none
  | some byte ↦ some (record bm { bytes = set_at bm.bytes i (f byte) })
]

unfoldable pub set : Bitmap → ℕ → Option Bitmap
unfolding modify_byte
set bm i = if leb bm.len i then some bm else modify_byte bm (i / 8) (λ byte. bit_on byte (i % 8))

unfoldable pub clear : Bitmap → ℕ → Option Bitmap
unfolding modify_byte
clear bm i = if leb bm.len i then some bm else modify_byte bm (i / 8) (λ byte. bit_off byte (i % 8))

-- How many numbers below `n` pass the test.
unfoldable pub count_below : ℕ → (ℕ → Bool) → ℕ
count_below zero p = 0
count_below (suc n) p = let rest = count_below n p in if p n then rest + 1 else rest

-- `u8::count_ones`
unfoldable pub count_ones : ℕ → ℕ
unfolding count_below
count_ones byte = count_below 8 (bit_of byte)

unfoldable pub sum_ones : List ℕ → ℕ
sum_ones [] = 0
sum_ones (byte ∷ bytes) = count_ones byte + sum_ones bytes

unfoldable pub count_set : Bitmap → ℕ
unfolding sum_ones
count_set bm = sum_ones bm.bytes

unfoldable pub is_complete : Bitmap → Bool
is_complete bm = count_set bm == bm.len

-- `(start..start + n).filter(|&i| !self.has(i))`, collected; a panic of `has` is a panic here.
unfoldable pub missing_from : Bitmap → ℕ → ℕ → Option (List ℕ)
missing_from bm start zero = some []
missing_from bm start (suc n) = elim (has bm start) [
  | none ↦ none
  | some present ↦
      Option.map (λ rest. if present then rest else start ∷ rest) (missing_from bm (start + 1) n)
]

unfoldable pub missing : Bitmap → Option (List ℕ)
unfolding missing_from
missing bm = missing_from bm 0 bm.len

-- What the type promises between calls: as many bytes as the length needs, each of them a byte,
-- and every padding bit zero.
abbrev pub bit_at : List ℕ → ℕ → Bool
bit_at bytes i = bit_of (get_or bytes (i / 8) 0) (i % 8)

pub record IsValid (bm : Bitmap) : Type 0 where
  pub sized : length bm.bytes ≡ div_ceil bm.len 8
  pub ranged : All (λ byte. byte < 256) bm.bytes
  pub padded : (i : ℕ) → bm.len ≤ i → bit_at bm.bytes i ≡ false
