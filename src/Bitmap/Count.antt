-- ===== src/Bitmap/Count.antt =====
-- `count_set`, `is_complete` and `missing` against the set of bits below the length.
use mathlib.Core.List.{Memᴰ}
use native.Mathlib.Nat.{suc-add, zero-add}
use native.Mathlib.Numerals.{add-one}
use mathlib.Core.List.Memᴰ
use mathlib.Core.Path.{subst}
use blt.Base.{
  none, div_ceil, ℕ, zero, suc, ◌+◌, ◌-◌, ◌*◌, ◌/◌, ◌%◌, ◌≤◌, ◌<◌, Bool, true, false, ◌≡◌, ◌↔◌, ◌∙◌,
  refl, sym, List, ap, some, inl, inr, arith, [], ◌∷◌, ◌==◌, if◌then◌else◌, length, Bool-cases,
  ℕ_discrete,
}
use blt.Bitmap.{
  Bitmap, IsValid, has, bit_of, bit_at, count_below, count_ones, sum_ones, count_set, is_complete,
  missing_from, missing,
}
use blt.Bitmap.Access.{has-eq-bit_at}

count_below-ext :
    (n : ℕ) (p q : ℕ → Bool) → ((i : ℕ) → i < n → p i ≡ q i) → count_below n p ≡ count_below n q
unfolding count_below
count_below-ext zero p q h = refl
count_below-ext (suc n) p q h =
    ground (arith, h n, count_below-ext n p q (λ i lt. h i (omega arith)))

count_below-add :
    (m n : ℕ) (p : ℕ → Bool)
    → count_below (n + m) p ≡ count_below m p + count_below n (λ i. p (i + m))
unfolding count_below
count_below-add m zero p = rw (zero-add) (omega arith)
count_below-add m (suc n) p = rw suc-add (ground (arith, count_below-add m n p))

-- Numbers that fail the test do not count.
count_below-tail :
    (len d : ℕ) (p : ℕ → Bool)
    → ((i : ℕ) → len ≤ i → p i ≡ false)
    → count_below (d + len) p ≡ count_below len p
unfolding count_below
count_below-tail len zero p h = rw zero-add
count_below-tail len (suc d) p h =
    rw suc-add (ground (arith, h (d + len), count_below-tail len d p h))

bit_at-first : (b : ℕ) (bytes : List ℕ) (i : ℕ) → i < 8 → bit_at (b ∷ bytes) i ≡ bit_of b i
bit_at-first b bytes i h =
    let q : i / 8 ≡ 0 = omega arith in let r : i % 8 ≡ i = omega arith in rw (q, r)

bit_at-rest : (b : ℕ) (bytes : List ℕ) (i : ℕ) → bit_at (b ∷ bytes) (i + 8) ≡ bit_at bytes i
bit_at-rest b bytes i =
    let q : (i + 8) / 8 ≡ suc (i / 8) = omega arith in
    let r : (i + 8) % 8 ≡ i % 8 = omega arith in rw (q, r)

count_ones-eq : (b : ℕ) (bytes : List ℕ) → count_ones b ≡ count_below 8 (bit_at (b ∷ bytes))
unfolding count_ones
count_ones-eq b bytes =
    sym (count_below-ext 8 (bit_at (b ∷ bytes)) (bit_of b) (bit_at-first b bytes))

sum_ones-eq-count_below :
    (bytes : List ℕ) → sum_ones bytes ≡ count_below (length bytes * 8) (bit_at bytes)
unfolding sum_ones
sum_ones-eq-count_below [] = unfold count_below in refl
sum_ones-eq-count_below (b ∷ bytes) =
    let whole : suc (length bytes) * 8 ≡ length bytes * 8 + 8 = omega arith in
    rw whole (
      omega (
        arith,
        count_ones-eq b bytes,
        count_below-add 8 (length bytes * 8) (bit_at (b ∷ bytes)),
        count_below-ext (length bytes * 8) (λ i. bit_at (b ∷ bytes) (i + 8)) (bit_at bytes)
            (λ i _. bit_at-rest b bytes i),
        sum_ones-eq-count_below bytes,
      ))

div_ceil-cover : (n : ℕ) → n ≤ div_ceil n 8 * 8
unfolding div_ceil
div_ceil-cover n = ground arith

-- On a valid bitmap the count is that of the bits below the length.
pub count_set-eq-count_below :
    (bm : Bitmap) → IsValid bm → count_set bm ≡ count_below bm.len (bit_at bm.bytes)
unfolding count_set
count_set-eq-count_below bm v =
    let spare = length bm.bytes * 8 - bm.len in
    let whole : length bm.bytes * 8 ≡ spare + bm.len =
      omega (arith, v.sized, div_ceil-cover bm.len) in
    sum_ones-eq-count_below bm.bytes
    ∙ ap (λ n. count_below n (bit_at bm.bytes)) whole
    ∙ count_below-tail bm.len spare (bit_at bm.bytes) v.padded

-- The numbers from `start` on, `n` of them, that fail the test.
abbrev pub absent : (ℕ → Bool) → ℕ → ℕ → List ℕ
absent p start zero = []
absent p start (suc n) = let rest = absent p (start + 1) n in if p start then rest else start ∷ rest

missing_from-eq-absent :
    (bm : Bitmap)
    → IsValid bm
    → (start n : ℕ) → missing_from bm start n ≡ some (absent (bit_at bm.bytes) start n)
unfolding missing_from
missing_from-eq-absent bm v start zero = refl
missing_from-eq-absent bm v start (suc n) =
    rw (has-eq-bit_at bm v start, missing_from, missing_from-eq-absent bm v (start + 1) n)

length-absent :
    (p : ℕ → Bool) (start n : ℕ)
    → length (absent p start n) + count_below n (λ i. p (i + start)) ≡ n
length-absent p start zero = unfold count_below in refl
length-absent p start (suc n) =
    let q = λ (i : ℕ). p (i + start) in
    let first : count_below 1 q ≡ (if p start then 1 else 0) =
      unfold count_below in rw (zero-add start) (ground arith) in
    let shifted : count_below n (λ i. p (i + 1 + start))
        ≡ count_below n (λ i. p (i + (start + 1))) =
      count_below-ext n _ _ (λ i _. ap p (omega arith)) in
    let total : count_below (suc n) q ≡ count_below 1 q + count_below n (λ i. q (i + 1)) =
      rw (← add-one) (count_below-add 1 n q) in
    ground (arith, first, shifted, total, length-absent p (start + 1) n)

-- `absent` lists exactly the numbers of its range that fail the test.
absent_sound :
    (p : ℕ → Bool) (start n j : ℕ)
    → Memᴰ j (absent p start n)
    → (start ≤ j) × (j < start + n) × (p j ≡ false)
absent_sound p start zero j m = elim m [ ]
absent_sound p start (suc n) j m = elim (Bool-cases (p start)) [
  | inl h ↦ omega_shift (absent_sound p (start + 1) n j (rw (h, if◌then◌else◌) at m))
  | inr h ↦ elim (Memᴰ.cases_cons (rw (h, if◌then◌else◌) at m)) [
    | inl e ↦ rw e (omega arith, omega arith, h)
    | inr m' ↦ omega_shift (absent_sound p (start + 1) n j m')
  ]
]
  where
    omega_shift :
        (start + 1 ≤ j) × (j < start + 1 + n) × (p j ≡ false)
        → (start ≤ j) × (j < start + suc n) × (p j ≡ false)
    omega_shift (a, b, c) = (omega arith, omega arith, c)

absent_complete :
    (p : ℕ → Bool) (start n j : ℕ)
    → start ≤ j
    → j < start + n
    → p j ≡ false
    → Memᴰ j (absent p start n)
absent_complete p start zero j a b h = absurd (omega arith)
absent_complete p start (suc n) j a b h = elim (ℕ_discrete start j) [
  | yes e ↦ let h' : p start ≡ false = rw e h in rw h' (Memᴰ.head (sym e))
  | no e ↦
      let later = absent_complete p (start + 1) n j (omega arith) (omega arith) h in
      elim (Bool-cases (p start)) [ inl q ↦ rw q later | inr q ↦ rw q (Memᴰ.tail later) ]
]

-- Strictly ascending, from `start` on.
abbrev pub AscendingFrom : ℕ → List ℕ → Type 0
AscendingFrom start [] = Unit
AscendingFrom start (x ∷ xs) = (start ≤ x) × AscendingFrom (x + 1) xs

AscendingFrom-weaken :
    (start later : ℕ) (l : List ℕ) → start ≤ later → AscendingFrom later l → AscendingFrom start l
AscendingFrom-weaken start later [] h a = tt
AscendingFrom-weaken start later (x ∷ xs) h a = (omega arith, a.1)

absent-AscendingFrom : (p : ℕ → Bool) (start n : ℕ) → AscendingFrom start (absent p start n)
absent-AscendingFrom p start zero = tt
absent-AscendingFrom p start (suc n) =
    let later = absent-AscendingFrom p (start + 1) n in
    elim (Bool-cases (p start)) [
      | inl h ↦ rw h (AscendingFrom-weaken start (start + 1) _ (omega arith) later)
      | inr h ↦ rw h (omega arith, later)
    ]

-- What `missing` promises: the indices below the length at which `has` reads false, in ascending
-- order, each once; with the present ones they make up the length.
abbrev pub IsWorkList : Bitmap → List ℕ → Type 0
IsWorkList bm l =
    AscendingFrom 0 l
    × ((j : ℕ) → Memᴰ j l ↔ ((j < bm.len) × (has bm j ≡ some false)))
    × (length l + count_set bm ≡ bm.len)

-- On a valid bitmap `missing` does not panic and lists the absent chunks in ascending order, each
-- once, and no other index; their number and `count_set` add up to the length.
pub missing-IsWorkList :
    (bm : Bitmap) → IsValid bm → (l : List ℕ) × (missing bm ≡ some l) × IsWorkList bm l
unfolding missing
missing-IsWorkList bm v = (
  absent p 0 bm.len,
  missing_from-eq-absent bm v 0 bm.len,
  (
    absent-AscendingFrom p 0 bm.len,
    λ j. (sound j, λ (lt, h). absent_complete p 0 bm.len j (omega arith) (omega arith) (read j h)),
    omega (
      arith,
      length-absent p 0 bm.len,
      count_set-eq-count_below bm v,
      count_below-ext bm.len p (λ i. p (i + 0)) (λ i _. ap p (omega arith)),
    ),
  ),
)
  where
    p : ℕ → Bool
    p = bit_at bm.bytes

    read : (j : ℕ) → has bm j ≡ some false → p j ≡ false
    read j h = cc (has-eq-bit_at bm v j)

    sound : (j : ℕ) → Memᴰ j (absent p 0 bm.len) → (j < bm.len) × (has bm j ≡ some false)
    sound j m =
        let (_, b, c) = absent_sound p 0 bm.len j m in
        (omega arith, rw (has-eq-bit_at bm v j) (ap some c))

-- On a valid bitmap `is_complete` is true exactly when nothing is missing.
pub is_complete-missing :
    (bm : Bitmap) → IsValid bm → (is_complete bm ≡ true) ↔ (missing bm ≡ some [])
unfolding is_complete
is_complete-missing bm v =
    let (l, e, w) = missing-IsWorkList bm v in
    (λ full. e ∙ ap some (nil_of_length l (ground (arith, w.2))), done l e w.2)
  where
    nil_of_length : (l : List ℕ) → length l ≡ 0 → l ≡ []
    nil_of_length [] h = refl
    nil_of_length (x ∷ xs) h = absurd (omega arith)

    done :
        (l : List ℕ)
        → missing bm ≡ some l
        → length l + count_set bm ≡ bm.len
        → missing bm ≡ some []
        → (count_set bm == bm.len) ≡ true
    done [] e total h = ground arith
    done (x ∷ xs) e total h = absurd (cc)

-- Where nothing is missing, every chunk is there.
pub missing-has :
    (bm : Bitmap) (j : ℕ) → IsValid bm → missing bm ≡ some [] → j < bm.len → has bm j ≡ some true
missing-has bm j v h lt =
    let (l, e, w) = missing-IsWorkList bm v in
    let none_listed : l ≡ [] = ap (λ o. elim o [ none ↦ l | some x ↦ x ]) (sym e ∙ h) in
    elim (Bool-cases (bit_at bm.bytes j)) [
      | inl b ↦ has-eq-bit_at bm v j ∙ ap some b
      | inr b ↦
          elim (subst (λ x. Memᴰ j x) none_listed
            ((w.1 j).1 (lt, has-eq-bit_at bm v j ∙ ap some b))) [ ]
    ]
