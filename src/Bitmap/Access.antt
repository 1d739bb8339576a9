-- ===== src/Bitmap/Access.antt =====
-- `has`, `set` and `clear`: no panic on a valid bitmap, and what a later `has` reads.
use blt.Base.{
  div_ceil, ℕ, ◌/◌, ◌%◌, ◌≤◌, ◌<◌, Bool, true, false, ◌&&◌, ◌≡◌, ◌≢◌, refl, List, ap, Option, some,
  inl, inr, arith, ltb, leb, ◌==◌, if◌then◌else◌, length, get_elem?, get_or, set as set_at,
  get_elem?-get_or, get_or-All, All-set, length-set, get_or-set_self, get_or-set_ne, Bool-cases,
  ℕ_discrete,
}
use blt.Bitmap.{Bitmap, IsValid, has, set, clear, modify_byte, bit_of, bit_on, bit_off, bit_at}
use blt.Bitmap.Byte.{bit_of-bit_on, bit_of-bit_off}

abbrev pub IsByte : ℕ → Type 0
IsByte b = b < 256

-- The byte of a bit within the length is there.
pub div-lt-div_ceil : (i len : ℕ) → i < len → i / 8 < div_ceil len 8
unfolding div_ceil
div-lt-div_ceil i len h = ground arith

module _ (bm : Bitmap) (v : IsValid bm) (i : ℕ) where
  pub byte_here : i < bm.len → get_elem? bm.bytes (i / 8) ≡ some (get_or bm.bytes (i / 8) 0)
  byte_here h =
      get_elem?-get_or bm.bytes (i / 8) 0 (omega (arith, v.sized, div-lt-div_ceil i bm.len h))

  -- `has` reads the bit, and nothing past the length.
  pub has-eq-bit_at : has bm i ≡ some (bit_at bm.bytes i)
  unfolding has
  has-eq-bit_at = elim (Bool-cases (leb bm.len i)) [
    | inl out ↦ rw (out, v.padded i (ground arith))
    | inr inside ↦ rw (inside, byte_here (ground arith), has)
  ]

pub byte_range : (bm : Bitmap) → IsValid bm → (i : ℕ) → get_or bm.bytes i 0 < 256
byte_range bm v i = get_or-All IsByte bm.bytes i 0 v.ranged (omega arith)

-- Reading any bit after one byte was replaced.
module _ (bytes : List ℕ) (i j new : ℕ) (h : i / 8 < length bytes) where
  bit_at-set_same : i / 8 ≡ j / 8 → bit_at (set_at bytes (i / 8) new) j ≡ bit_of new (j % 8)
  bit_at-set_same e = rw (← e, get_or-set_self bytes (i / 8) new 0 h)

  bit_at-set_other : i / 8 ≢ j / 8 → bit_at (set_at bytes (i / 8) new) j ≡ bit_at bytes j
  bit_at-set_other e = rw (get_or-set_ne bytes (i / 8) (j / 8) new 0 e)

-- The result of a write of `value` at `i`: it is there, it is valid, and `has` reads the value at
-- `i` if `i` is within the length, and what it read before everywhere else.
abbrev pub Writes : Bitmap → ℕ → Bool → Option Bitmap → Type 0
Writes bm i value result =
    (bm' : Bitmap) × (result ≡ some bm')
    × IsValid bm'
    × (bm'.len ≡ bm.len)
    × ((j : ℕ) → has bm' j ≡ (if i == j && ltb i bm.len then some value else has bm j))

-- One byte replaced by `f` of it, where `f` writes `value` to the bit of `i` alone.
module _ (bm : Bitmap) (v : IsValid bm) (i : ℕ) (inside : i < bm.len) (value : Bool) (f : ℕ → ℕ)
    (writes : (b k : ℕ)
      → b < 256
      → k < 8
      → (bit_of (f b) k ≡ (if i % 8 == k then value else bit_of b k)) × (f b < 256)) where
  abbrev written : Bitmap
  written = record bm { bytes = set_at bm.bytes (i / 8) (f (get_or bm.bytes (i / 8) 0)) }

  modify_byte-written : modify_byte bm (i / 8) f ≡ some written
  unfolding modify_byte
  modify_byte-written = rw (byte_here bm v i inside, modify_byte)

  bit_at-written : (j : ℕ) → bit_at written.bytes j ≡ (if i == j then value else bit_at bm.bytes j)
  bit_at-written j = elim (ℕ_discrete (i / 8) (j / 8)) [
    | yes e ↦ rw (bit_at-set_same bm.bytes i j _ (byte_bound) e) (
        ground (
          arith,
          ap (λ n. get_or bm.bytes n 0) e,
          writes (get_or bm.bytes (i / 8) 0) (j % 8) (byte_range bm v (i / 8)) (omega arith),
        ))
    | no e ↦ rw (bit_at-set_other bm.bytes i j _ byte_bound e) (ground arith)
  ]
    where
      byte_bound : i / 8 < length bm.bytes
      byte_bound = omega (arith, v.sized, div-lt-div_ceil i bm.len inside)

  written-IsValid : IsValid written
  written-IsValid = record {
    sized = omega (arith, v.sized, length-set bm.bytes (i / 8) (f (get_or bm.bytes (i / 8) 0)));
    ranged =
        All-set IsByte bm.bytes (i / 8) _ v.ranged
          (writes (get_or bm.bytes (i / 8) 0) 0 (byte_range bm v (i / 8)) (omega arith)).1;
    padded = λ j h. rw (bit_at-written j) (ground (arith, v.padded j h));
  }

  has-written : (j : ℕ) → has written j ≡ (if i == j then some value else has bm j)
  has-written j =
      rw (has-eq-bit_at written written-IsValid j, has-eq-bit_at bm v j, bit_at-written j)
        (ground arith)

  written-Writes : Writes bm i value (modify_byte bm (i / 8) f)
  written-Writes =
      (written, modify_byte-written, written-IsValid, refl, λ j. ground (arith, has-written j))

module _ (bm : Bitmap) (i : ℕ) (v : IsValid bm) where
  outside-Writes : (value : Bool) → bm.len ≤ i → Writes bm i value (some bm)
  outside-Writes value h = (bm, refl, v, refl, λ j. ground arith)

  -- On a valid bitmap `set` does not panic and returns a valid bitmap of the same length, on which
  -- `has` reads true at `i`, if `i` is within the length, and what it read before everywhere else.
  pub set-Writes : Writes bm i true (set bm i)
  unfolding set
  set-Writes = elim (Bool-cases (leb bm.len i)) [
    | inl out ↦ rw (out, set) (outside-Writes true (ground arith))
    | inr here ↦
        rw (here, set)
          (written-Writes bm v i (ground arith) true (λ b. bit_on b (i % 8))
            (λ b k hb hk. ground (arith, bit_of-bit_on b (i % 8) k hb (omega arith) hk)))
  ]

  -- On a valid bitmap `clear` does not panic and returns a valid bitmap of the same length, on
  -- which `has` reads false at `i`, if `i` is within the length, and what it read before everywhere
  -- else.
  clear-Writes : Writes bm i false (clear bm i)
  unfolding clear
  clear-Writes = elim (Bool-cases (leb bm.len i)) [
    | inl out ↦ rw (out, clear) (outside-Writes false (ground arith))
    | inr here ↦
        rw (here, clear)
          (written-Writes bm v i (ground arith) false (λ b. bit_off b (i % 8))
            (λ b k hb hk. ground (arith, bit_of-bit_off b (i % 8) k hb (omega arith) hk)))
  ]
