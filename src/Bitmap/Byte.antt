-- ===== src/Bitmap/Byte.antt =====
-- The bit operations of one byte. The native operations have no laws at variables, and a byte has
-- 256 values, so each law is checked at all of them.
use blt.Base.{
  ℕ, zero, suc, ◌+◌, ◌%◌, ◌^◌, ◌≤◌, ◌<◌, bit_and, Bool, true, not, ◌&&◌, ◌||◌, false, ◌≡◌, refl,
  arith, if◌then◌else◌, ltb, ◌==◌, same, same→≡, &&_iff, ltb→lt, ==_iff,
}
use blt.Bitmap.{bit_of, bit_on, bit_off}

-- Does a test pass at every number below a bound?
passes_below : ℕ → (ℕ → Bool) → Bool
passes_below zero test = true
passes_below (suc bound) test = if test bound then passes_below bound test else false

passes_below_sound :
    (bound : ℕ) (test : ℕ → Bool) (at : ℕ)
    → passes_below bound test ≡ true
    → at < bound
    → test at ≡ true
unfolding passes_below
passes_below_sound (suc bound) test at passes lt =
    let below = passes_below_sound bound test at in ground (arith, below)
passes_below_sound zero test at passes lt = absurd (omega arith)

-- A test that holds of every byte and two bit positions.
abbrev Holds : (ℕ → ℕ → ℕ → Bool) → Type 0
Holds p = passes_below 256 (λ b. passes_below 8 (λ j. passes_below 8 (p b j))) ≡ true

Holds-sound :
    (p : ℕ → ℕ → ℕ → Bool) → Holds p → (b j k : ℕ) → b < 256 → j < 8 → k < 8 → p b j k ≡ true
Holds-sound p h b j k hb hj hk =
    passes_below_sound 8 (p b j) k
      (passes_below_sound 8 _ j
        (passes_below_sound 256 (λ c. passes_below 8 (λ i. passes_below 8 (p c i))) b h hb) hj)
      hk

on_table :
    Holds (λ b j k. same (bit_of (bit_on b j) k) (j == k || bit_of b k) && ltb (bit_on b j) 256)
unfolding passes_below bit_of bit_on
on_table = refl

off_table :
    Holds
      (λ b j k. same (bit_of (bit_off b j) k) (not (j == k) && bit_of b k) && ltb (bit_off b j) 256)
unfolding passes_below bit_of bit_off
off_table = refl

mask_table : Holds (λ b j k.
    same (bit_of (bit_and b (((2 ^ j) % 256 + 255) % 256)) k) (ltb k j && bit_of b k)
    && ltb (bit_and b (((2 ^ j) % 256 + 255) % 256)) 256)
unfolding passes_below bit_of
mask_table = refl

keep_table :
    passes_below 256 (λ b. passes_below 8 (λ j.
      not (passes_below 8 (λ k. ltb k j || not (bit_of b k)))
      || bit_and b (((2 ^ j) % 256 + 255) % 256) == b))
    ≡ true
unfolding passes_below bit_of
keep_table = refl

-- The mask with the `used` lowest bits.
abbrev pub mask : ℕ → ℕ
mask used = ((2 ^ used) % 256 + 255) % 256

module _ (b j k : ℕ) (hb : b < 256) (hj : j < 8) (hk : k < 8) where
  pub bit_of-bit_on : (bit_of (bit_on b j) k ≡ (j == k || bit_of b k)) × (bit_on b j < 256)
  bit_of-bit_on =
      let (s, r) = (&&_iff _ _).0 (Holds-sound _ on_table b j k hb hj hk) in
      (same→≡ _ _ s, ltb→lt _ _ r)

  pub bit_of-bit_off : (bit_of (bit_off b j) k ≡ (not (j == k) && bit_of b k)) × (bit_off b j < 256)
  bit_of-bit_off =
      let (s, r) = (&&_iff _ _).0 (Holds-sound _ off_table b j k hb hj hk) in
      (same→≡ _ _ s, ltb→lt _ _ r)

  pub bit_of-mask :
      (bit_of (bit_and b (mask j)) k ≡ (ltb k j && bit_of b k)) × (bit_and b (mask j) < 256)
  bit_of-mask =
      let (s, r) = (&&_iff _ _).0 (Holds-sound _ mask_table b j k hb hj hk) in
      (same→≡ _ _ s, ltb→lt _ _ r)

passes_below_complete :
    (n : ℕ) (p : ℕ → Bool) → ((x : ℕ) → x < n → p x ≡ true) → passes_below n p ≡ true
unfolding passes_below
passes_below_complete zero p h = refl
passes_below_complete (suc n) p h =
    rw (h n (omega arith)) (passes_below_complete n p (λ x lt. h x (omega arith)))

-- A byte with no bit from `j` on is its own masked value.
pub mask_keep :
    (b j : ℕ)
    → b < 256
    → j < 8
    → ((k : ℕ) → j ≤ k → k < 8 → bit_of b k ≡ false)
    → bit_and b (mask j) ≡ b
mask_keep b j hb hj h = (==_iff _ b).0 (
    ground (
      arith,
      passes_below_sound 8 _ j (passes_below_sound 256 _ b keep_table hb) hj,
      passes_below_complete 8 (λ k. ltb k j || not (bit_of b k)) low,
    ))
  where
    low : (k : ℕ) → k < 8 → (ltb k j || not (bit_of b k)) ≡ true
    low k lt = ground (arith, h k)

zero_table : passes_below 8 (λ k. not (bit_of 0 k)) ≡ true
unfolding passes_below bit_of
zero_table = refl

pub bit_of-zero : (k : ℕ) → k < 8 → bit_of 0 k ≡ false
bit_of-zero k h = ground (arith, passes_below_sound 8 (λ k. not (bit_of 0 k)) k zero_table h)
