-- ===== src/Base/Sort.antt =====
-- `slice::sort_by`, the stable sort, by a Boolean test `le` for "not greater".
use mathlib.Core.Path.{◌≡◌, refl, sym, ap, ◌∙◌}
use Prim.Native.Nat.{suc}
use mathlib.Core.Bool.{Bool-set, Bool, true, false, ◌&&◌}
use mathlib.Core.Logic.{∥∥₁_elim, ◌↔◌, ◌⊎◌, inl, inr}
use mathlib.Core.List.{List, [], ◌∷◌, Memᴰ, Perm, Permᴰ}
use mathlib.Core.List.Perm
use native.Mathlib.Nat.{ℕ_set}
use native.Mathlib.Omega.{arith}
use blt.Base.Tests.{if◌then◌else◌, Bool-cases}
use blt.Base.Lists.{All, length, all, All-map}

module _ {ℓ} {A : Type ℓ} (le : A → A → Bool) where
  unfoldable pub insert : A → List A → List A
  insert x [] = x ∷ []
  insert x (y ∷ ys) = if le x y then x ∷ y ∷ ys else y ∷ insert x ys

  unfoldable pub sort : List A → List A
  unfolding insert
  sort [] = []
  sort (x ∷ xs) = insert x (sort xs)

  -- Every element stands before all that follow it.
  abbrev pub IsSorted : List A → Type ℓ
  IsSorted [] = Unit
  IsSorted (x ∷ xs) = All (λ y. le x y ≡ true) xs × IsSorted xs

  insert-perm : (x : A) (l : List A) → Perm (insert x l) (x ∷ l)
  unfolding insert
  insert-perm x [] = Perm.rfl
  insert-perm x (y ∷ ys) = elim (Bool-cases (le x y)) [
    | inl h ↦ rw h Perm.rfl
    | inr h ↦ rw h (Perm.trans (Perm.cons y (insert-perm x ys)) (Perm.swap x y ys))
  ]

  -- The result holds the same elements, as often.
  pub sort-perm : (l : List A) → Perm (sort l) l
  unfolding sort
  sort-perm [] = Perm.rfl
  sort-perm (x ∷ xs) = Perm.trans (insert-perm x (sort xs)) (Perm.cons x (sort-perm xs))

  insert-length : (x : A) (l : List A) → length (insert x l) ≡ suc (length l)
  unfolding insert
  insert-length x [] = refl
  insert-length x (y ∷ ys) = elim (Bool-cases (le x y)) [
    | inl h ↦ rw h
    | inr h ↦ rw h (ap suc (insert-length x ys))
  ]

  pub sort-length : (l : List A) → length (sort l) ≡ length l
  unfolding sort
  sort-length [] = refl
  sort-length (x ∷ xs) = insert-length x (sort xs) ∙ ap suc (sort-length xs)

  pub insert-All {κ} : (P : A → Type κ) (x : A) (l : List A) → P x → All P l → All P (insert x l)
  unfolding insert
  insert-All P x [] p h = (p, tt)
  insert-All P x (y ∷ ys) p h = elim (Bool-cases (le x y)) [
    | inl e ↦ rw e (p, h)
    | inr e ↦ rw e (h.0, insert-All P x ys p h.1)
  ]

  pub sort-All {κ} : (P : A → Type κ) (l : List A) → All P l → All P (sort l)
  unfolding sort
  sort-All P [] h = tt
  sort-All P (x ∷ xs) h = insert-All P x (sort xs) h.0 (sort-All P xs h.1)

  module _ (total : (a b : A) → le a b ≡ false → le b a ≡ true)
      (trans : (a b c : A) → le a b ≡ true → le b c ≡ true → le a c ≡ true) where
    All-trans :
        (a b : A) (l : List A)
        → le a b ≡ true
        → All (λ y. le b y ≡ true) l
        → All (λ y. le a y ≡ true) l
    All-trans a b [] h k = tt
    All-trans a b (y ∷ ys) h k = (trans a b y h k.0, All-trans a b ys h k.1)

    insert-IsSorted : (x : A) (l : List A) → IsSorted l → IsSorted (insert x l)
    unfolding insert
    insert-IsSorted x [] s = (tt, tt)
    insert-IsSorted x (y ∷ ys) s = elim (Bool-cases (le x y)) [
      | inl e ↦ rw e ((e, All-trans x y ys e s.0), s)
      | inr e ↦
          rw e (insert-All (λ z. le y z ≡ true) x ys (total x y e) s.0, insert-IsSorted x ys s.1)
    ]

    pub sort-IsSorted : (l : List A) → IsSorted (sort l)
    unfolding sort
    sort-IsSorted [] = tt
    sort-IsSorted (x ∷ xs) = insert-IsSorted x (sort xs) (sort-IsSorted xs)

-- A rearrangement has the same length, as a native number.
perm_d-length {ℓ} : {A : Type ℓ} {xs ys : List A} → Permᴰ xs ys → length xs ≡ length ys
perm_d-length Permᴰ.nil = refl
perm_d-length (Permᴰ.cons e p) = ap suc (perm_d-length p)
perm_d-length (Permᴰ.swap e f) = refl
perm_d-length (Permᴰ.trans p q) = perm_d-length p ∙ perm_d-length q

pub perm-length {ℓ} : {A : Type ℓ} {xs ys : List A} → Perm xs ys → length xs ≡ length ys
perm-length p = ∥∥₁_elim p (ℕ_set _ _) perm_d-length

-- An element in front, or further on.
front_later {ℓ} :
    {A : Type ℓ} (a x y : A) (xs ys : List A)
    → (Memᴰ a xs → Memᴰ a (x ∷ ys))
    → Memᴰ a (y ∷ xs)
    → Memᴰ a (x ∷ y ∷ ys)
front_later a x y xs ys f (Memᴰ.head e) = Memᴰ.tail (Memᴰ.head e)
front_later a x y xs ys f (Memᴰ.tail m) = behind (f m)
  where
    behind : Memᴰ a (x ∷ ys) → Memᴰ a (x ∷ y ∷ ys)
    behind (Memᴰ.head e) = Memᴰ.head e
    behind (Memᴰ.tail m') = Memᴰ.tail (Memᴰ.tail m')

over_tail {ℓ} :
    {A : Type ℓ} (a x : A) (xs ys : List A)
    → (Memᴰ a xs → Memᴰ a ys)
    → Memᴰ a (x ∷ xs)
    → Memᴰ a (x ∷ ys)
over_tail a x xs ys f (Memᴰ.head e) = Memᴰ.head e
over_tail a x xs ys f (Memᴰ.tail m) = Memᴰ.tail (f m)

front_earlier {ℓ} :
    {A : Type ℓ} (a x y : A) (xs ys : List A)
    → (Memᴰ a (x ∷ ys) → Memᴰ a xs)
    → Memᴰ a (x ∷ y ∷ ys)
    → Memᴰ a (y ∷ xs)
front_earlier a x y xs ys f (Memᴰ.head e) = Memᴰ.tail (f (Memᴰ.head e))
front_earlier a x y xs ys f (Memᴰ.tail (Memᴰ.head e)) = Memᴰ.head e
front_earlier a x y xs ys f (Memᴰ.tail (Memᴰ.tail m)) = Memᴰ.tail (f (Memᴰ.tail m))

module _ {ℓ} {A : Type ℓ} (le : A → A → Bool) where
  insert-mem : (x a : A) (l : List A) → Memᴰ a (insert le x l) ↔ Memᴰ a (x ∷ l)
  unfolding insert
  insert-mem x a [] = (λ m. m, λ m. m)
  insert-mem x a (y ∷ ys) = elim (Bool-cases (le x y)) [
    | inl h ↦ rw h (λ m. m, λ m. m)
    | inr h ↦ rw h (
      front_later a x y (insert le x ys) ys (insert-mem x a ys).0,
      front_earlier a x y (insert le x ys) ys (insert-mem x a ys).1,
    )
  ]

  -- The result has the same members.
  pub sort-mem : (a : A) (l : List A) → Memᴰ a (sort le l) ↔ Memᴰ a l
  unfolding sort
  sort-mem a [] = (λ m. m, λ m. m)
  sort-mem a (x ∷ xs) = (
    λ m. over_tail a x (sort le xs) xs (sort-mem a xs).0 ((insert-mem x a (sort le xs)).0 m),
    λ m. (insert-mem x a (sort le xs)).1 (over_tail a x xs (sort le xs) (sort-mem a xs).1 m),
  )

all-perm_d {ℓ} : {A : Type ℓ} (p : A → Bool) {xs ys : List A} → Permᴰ xs ys → all p xs ≡ all p ys
all-perm_d p Permᴰ.nil = refl
all-perm_d p (Permᴰ.cons e q) = rw (e, all-perm_d p q)
all-perm_d p (Permᴰ.swap {a = a} {b = b} {l = l} e f) =
    rw (sym e, sym f) (exchange (p a) (p b) (all p l))
  where
    exchange : (x y z : Bool) → (x && (y && z)) ≡ (y && (x && z))
    exchange x y z = ground arith
all-perm_d p (Permᴰ.trans q r) = all-perm_d p q ∙ all-perm_d p r

-- A test that a list passes everywhere, a rearrangement of it passes everywhere.
pub all-perm {ℓ} : {A : Type ℓ} (p : A → Bool) {xs ys : List A} → Perm xs ys → all p xs ≡ all p ys
all-perm p q = ∥∥₁_elim q (Bool-set _ _) (all-perm_d p)

-- A member that nothing else in the list comes before is the first of the sorted list.
module _ {ℓ} {A : Type ℓ} (le : A → A → Bool) (x : A) (self : le x x ≡ true) where
  insert-front :
      (s : List A) → All (λ z. le x z ≡ true) s → (rest : List A) × (insert le x s ≡ x ∷ rest)
  unfolding insert
  insert-front [] k = ([], refl)
  insert-front (z ∷ s) k = (z ∷ s, rw k.0)

  pub sort-first :
      (l : List A)
      → Memᴰ x l
      → All (λ y. (le x y ≡ true) × ((y ≡ x) ⊎ (le y x ≡ false))) l
      → (rest : List A) × (sort le l ≡ x ∷ rest)
  unfolding sort insert
  sort-first [] m h = elim m [ ]
  sort-first (y ∷ l) (Memᴰ.head e) h =
      let (rest, f) =
        insert-front (sort le l)
          (sort-All le (λ z. le x z ≡ true) l (All-map _ _ l (λ z q. q.0) h.1)) in
      (rest, ap (λ z. insert le z (sort le l)) (sym e) ∙ f)
  sort-first (y ∷ l) (Memᴰ.tail m) h =
      let (rest, e) = sort-first l m h.1 in
      elim h.0.1 [
        | inl same ↦ (x ∷ rest, rw (e, same, self))
        | inr later ↦ (insert le y rest, rw (e, later))
      ]
