-- ===== src/Bitmap/Persist.antt =====
-- `new` and `from_bytes` return valid bitmaps, and what `has` reads of them.
use mathlib.Core.List.{append-nil}
use blt.Base.{
  div_ceil, ℕ, zero, suc, ◌+◌, ◌-◌, ◌*◌, ◌/◌, ◌%◌, ◌<◌, false, ◌&&◌, ◌≡◌, ◌≢◌, ◌∙◌, refl, List, ap,
  some, inl, inr, arith, [], ◌∷◌, ◌++◌, ltb, ◌==◌, if◌then◌else◌, length, get_or-All, get_or,
  Bool-cases, take, replicate, All, All-append, All-take, All-replicate, length-append, length-take,
  length-replicate, bit_and,
}
use blt.Bitmap.{
  Bitmap, IsValid, has, bit_at, new, resize, update_last, clear_padding, from_bytes, as_bytes,
}
use blt.Bitmap.Byte.{mask, bit_of-mask, mask_keep, bit_of-zero}
use blt.Bitmap.Access.{has-eq-bit_at, byte_range, IsByte}

get_or-replicate : (n i : ℕ) → get_or (replicate {A = ℕ} n 0) i 0 ≡ 0
get_or-replicate zero i = refl
get_or-replicate (suc n) zero = refl
get_or-replicate (suc n) (suc i) = get_or-replicate n i

-- A new bitmap is valid and has no chunk.
pub new_lem : (len : ℕ) → IsValid (new len) × ((i : ℕ) → has (new len) i ≡ some false)
unfolding new
new_lem len = (valid, λ i. rw (has-eq-bit_at (new len) valid i, no_bit (div_ceil len 8) i))
  where
    no_bit : (n i : ℕ) → bit_at (replicate n 0) i ≡ false
    no_bit n i = rw (get_or-replicate n (i / 8)) (bit_of-zero (i % 8) (omega arith))

    valid : IsValid (new len)
    valid = record {
      sized = length-replicate {A = ℕ} (div_ceil len 8) 0;
      ranged = All-replicate IsByte (div_ceil len 8) 0 (omega arith);
      padded = λ i _. no_bit (div_ceil len 8) i;
    }

length-resize : (bytes : List ℕ) (n : ℕ) → length (resize bytes n) ≡ n
unfolding resize
length-resize bytes n = omega (
  arith,
  length-append (take n bytes) (replicate (n - length bytes) 0),
  length-take n bytes,
  length-replicate {A = ℕ} (n - length bytes) 0,
)

get_or-padded : (bytes : List ℕ) (n i : ℕ) → get_or (bytes ++ replicate n 0) i 0 ≡ get_or bytes i 0
get_or-padded [] n i = get_or-replicate n i
get_or-padded (b ∷ bytes) n zero = refl
get_or-padded (b ∷ bytes) n (suc i) = get_or-padded bytes n i

get_or-take :
    (n : ℕ) (bytes : List ℕ) (i : ℕ)
    → get_or (take n bytes) i 0 ≡ (if ltb i n then get_or bytes i 0 else 0)
get_or-take zero bytes i = ground arith
get_or-take (suc n) [] i = ground arith
get_or-take (suc n) (b ∷ bytes) zero = ground arith
get_or-take (suc n) (b ∷ bytes) (suc i) = ground (arith, get_or-take n bytes i)

get_or-resize :
    (bytes : List ℕ) (n i : ℕ)
    → get_or (resize bytes n) i 0 ≡ (if ltb i n then get_or bytes i 0 else 0)
unfolding resize
get_or-resize bytes n i = get_or-padded (take n bytes) (n - length bytes) i ∙ get_or-take n bytes i

resize-ranged : (bytes : List ℕ) (n : ℕ) → All IsByte bytes → All IsByte (resize bytes n)
unfolding resize
resize-ranged bytes n h =
    All-append IsByte (take n bytes) (replicate (n - length bytes) 0) (All-take IsByte n bytes h)
      (All-replicate IsByte (n - length bytes) 0 (omega arith))

module _ (f : ℕ → ℕ) where
  length-update_last : (bytes : List ℕ) → length (update_last f bytes) ≡ length bytes
  unfolding update_last
  length-update_last [] = refl
  length-update_last (b ∷ []) = refl
  length-update_last (b ∷ c ∷ bytes) = ap suc (length-update_last (c ∷ bytes))

  get_or-update_last :
      (bytes : List ℕ) (i : ℕ)
      → get_or (update_last f bytes) i 0
        ≡ (if suc i == length bytes then f (get_or bytes i 0) else get_or bytes i 0)
  unfolding update_last
  get_or-update_last [] i = ground arith
  get_or-update_last (b ∷ []) zero = refl
  get_or-update_last (b ∷ []) (suc i) = ground arith
  get_or-update_last (b ∷ c ∷ bytes) zero = ground arith
  get_or-update_last (b ∷ c ∷ bytes) (suc i) = ground (arith, get_or-update_last (c ∷ bytes) i)

  update_last-ranged :
      (bytes : List ℕ)
      → ((b : ℕ) → b < 256 → f b < 256)
      → All IsByte bytes
      → All IsByte (update_last f bytes)
  unfolding update_last
  update_last-ranged [] k h = tt
  update_last-ranged (b ∷ []) k h = (k b h.0, tt)
  update_last-ranged (b ∷ c ∷ bytes) k h = (h.0, update_last-ranged (c ∷ bytes) k h.1)

div_ceil-odd : (len : ℕ) → len % 8 ≢ 0 → div_ceil len 8 ≡ suc (len / 8)
unfolding div_ceil
div_ceil-odd len e = ground arith

-- The bytes after `resize` and `clear_padding`.
module _ (len : ℕ) (bytes : List ℕ) (ranged : All IsByte bytes) where
  abbrev kept : List ℕ
  kept = resize bytes (div_ceil len 8)

  -- Which bytes are there, and which is the last.
  div_ceil-even : (j : ℕ) → len % 8 ≡ 0 → ltb (j / 8) (div_ceil len 8) ≡ ltb j len
  unfolding div_ceil
  div_ceil-even j e = ground arith

  bit_at-kept : (j : ℕ) → bit_at kept j ≡ (ltb (j / 8) (div_ceil len 8) && bit_at bytes j)
  bit_at-kept j =
      rw (get_or-resize bytes (div_ceil len 8) (j / 8))
        (ground (arith, bit_of-zero (j % 8) (omega arith)))

  bit_at-masked :
      (j : ℕ)
      → len % 8 ≢ 0
      → bit_at (update_last (λ last. bit_and last (mask (len % 8))) kept) j
        ≡ (ltb j len && bit_at bytes j)
  bit_at-masked j e =
      let b = get_or kept (j / 8) 0 in
      let in_range : b < 256 =
        get_or-All IsByte kept (j / 8) 0 (resize-ranged bytes _ ranged) (omega arith) in
      rw (get_or-update_last (λ last. bit_and last (mask (len % 8))) kept (j / 8)) (
        ground (
          arith,
          bit_of-mask b (len % 8) (j % 8) in_range (omega arith) (omega arith),
          length-resize bytes (div_ceil len 8),
          div_ceil-odd len e,
          bit_at-kept j,
        ))

  bit_at-from_bytes :
      (j : ℕ) → bit_at (from_bytes len bytes).bytes j ≡ (ltb j len && bit_at bytes j)
  unfolding from_bytes
  bit_at-from_bytes j = elim (Bool-cases (len % 8 == 0)) [
    | inl e ↦ rw (e, bit_at-kept j, div_ceil-even j (ground arith))
    | inr e ↦ rw e (bit_at-masked j (ground arith))
  ]

  from_bytes-ranged : All IsByte (from_bytes len bytes).bytes
  unfolding from_bytes
  from_bytes-ranged = elim (Bool-cases (len % 8 == 0)) [
    | inl e ↦ rw e (resize-ranged bytes (div_ceil len 8) ranged)
    | inr e ↦ rw e (
        update_last-ranged _ kept
          (λ b h. (bit_of-mask b (len % 8) 0 h (omega arith) (omega arith)).1)
          (resize-ranged bytes (div_ceil len 8) ranged))
  ]

  length-from_bytes : length (from_bytes len bytes).bytes ≡ div_ceil len 8
  unfolding from_bytes
  length-from_bytes = elim (Bool-cases (len % 8 == 0)) [
    | inl e ↦ rw (e, length-resize bytes (div_ceil len 8))
    | inr e ↦ rw (e, length-update_last _ kept, length-resize bytes (div_ceil len 8))
  ]

  len-from_bytes : (from_bytes len bytes).len ≡ len
  unfolding from_bytes
  len-from_bytes = elim (Bool-cases (len % 8 == 0)) [ inl e ↦ rw e | inr e ↦ rw e ]

  from_bytes-IsValid : IsValid (from_bytes len bytes)
  from_bytes-IsValid = record {
    sized = rw (length-from_bytes, len-from_bytes);
    ranged = from_bytes-ranged;
    padded = λ j h. ground (arith, bit_at-from_bytes j, len-from_bytes);
  }

  -- From any bytes at all `from_bytes` returns a valid bitmap of the length that it is given, and
  -- `has` reads on it, below that length, the bit that the given bytes hold (false past their end),
  -- and false from the length on.
  pub from_bytes_lem :
      IsValid (from_bytes len bytes)
      × ((from_bytes len bytes).len ≡ len)
      × ((j : ℕ) → has (from_bytes len bytes) j ≡ some (ltb j len && bit_at bytes j))
  from_bytes_lem = (
    from_bytes-IsValid,
    len-from_bytes,
    λ j.
        rw (has-eq-bit_at (from_bytes len bytes) from_bytes-IsValid j)
          (ap some (bit_at-from_bytes j)),
  )

take_all : (bytes : List ℕ) → take (length bytes) bytes ≡ bytes
take_all [] = refl
take_all (b ∷ bytes) = ap (◌∷◌ b) (take_all bytes)

-- `resize` to the length that is there changes nothing.
resize_self : (bytes : List ℕ) → resize bytes (length bytes) ≡ bytes
unfolding resize
resize_self bytes =
    let none_left : length bytes - length bytes ≡ 0 = omega arith in
    rw none_left (rw (take_all bytes) (append-nil bytes))

update_last_self :
    (f : ℕ → ℕ) (bytes : List ℕ)
    → ((i : ℕ) → suc i ≡ length bytes → f (get_or bytes i 0) ≡ get_or bytes i 0)
    → update_last f bytes ≡ bytes
unfolding update_last
update_last_self f [] h = refl
update_last_self f (b ∷ []) h = ap (λ c. c ∷ []) (h 0 refl)
update_last_self f (b ∷ c ∷ bytes) h =
    ap (◌∷◌ b) (update_last_self f (c ∷ bytes) (λ i e. h (suc i) (ap suc e)))

module _ (bm : Bitmap) (v : IsValid bm) where
  -- The last byte has no bit from `len % 8` on.
  last_kept :
      (i : ℕ)
      → bm.len % 8 ≢ 0
      → suc i ≡ length bm.bytes
      → bit_and (get_or bm.bytes i 0) (mask (bm.len % 8)) ≡ get_or bm.bytes i 0
  last_kept i odd last =
      mask_keep (get_or bm.bytes i 0) (bm.len % 8) (byte_range bm v i) (omega arith) λ k lo hi.
        let q : (i * 8 + k) / 8 ≡ i = omega arith in
        let r : (i * 8 + k) % 8 ≡ k = omega arith in
        let clean = v.padded (i * 8 + k) (omega (arith, v.sized, div_ceil-odd bm.len odd)) in
        rw (q, r) at clean

  clear_padding_self : clear_padding bm ≡ bm
  unfolding clear_padding
  clear_padding_self = elim (Bool-cases (bm.len % 8 == 0)) [
    | inl e ↦ rw e
    | inr e ↦ rw e (
        ap (λ bytes. record bm { bytes = bytes })
          (update_last_self _ bm.bytes (λ i last. last_kept i (ground arith) last)))
  ]

  -- A valid bitmap is restored from its own bytes: what was persisted comes back the same.
  pub from_bytes-as_bytes : from_bytes bm.len (as_bytes bm) ≡ bm
  unfolding from_bytes as_bytes
  from_bytes-as_bytes =
      ap (λ bytes. clear_padding (record { len = bm.len; bytes = bytes }))
        (rw (← v.sized) (resize_self bm.bytes))
      ∙ clear_padding_self
