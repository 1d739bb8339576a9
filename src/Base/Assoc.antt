-- ===== src/Base/Assoc.antt =====
-- `HashMap` as the list of its entries. The order of the entries is that of the first insertions.
use mathlib.Core.Path.{◌≡◌, refl, sym, ap, ◌∙◌, subst}
use mathlib.Core.Logic.{◌↔◌, inl, inr}
use mathlib.Core.Bool.{Bool, true, false}
use mathlib.Core.Option.{Option, none, some}
use mathlib.Core.List.{List, [], ◌∷◌}
use blt.Base.Tests.{if◌then◌else◌, Bool-cases}

module _ {κ} {K : Type κ} (same : K → K → Bool)
    (same_iff : (a b : K) → (same a b ≡ true) ↔ (a ≡ b)) where
  same-left : (i j k : K) → same i k ≡ true → same i j ≡ same k j
  same-left i j k e = ap (λ x. same x j) ((same_iff i k).0 e)

  same-other : (i j k : K) → same i k ≡ false → same k j ≡ true → same i j ≡ false
  same-other i j k e h = subst (λ x. same i x ≡ false) ((same_iff k j).0 h) e

  same-flip : (i k : K) → same i k ≡ false → same k i ≡ false
  same-flip i k e = elim (Bool-cases (same k i)) [
    | inl h ↦ absurd (let t : same i k ≡ true = (same_iff i k).1 (sym ((same_iff k i).0 h)) in cc)
    | inr h ↦ h
  ]

module _ {ℓ κ} {K : Type κ} {V : Type ℓ} (same : K → K → Bool) where
  unfoldable pub lookup : K → List (K × V) → Option V
  lookup k [] = none
  lookup k ((j, v) ∷ m) = let rest = lookup k m in if same j k then some v else rest

  -- `insert`, which replaces the value of a key that is there.
  unfoldable pub insert_at : K → V → List (K × V) → List (K × V)
  insert_at k v [] = (k, v) ∷ []
  insert_at k v ((j, w) ∷ m) =
      let rest = insert_at k v m in if same j k then (k, v) ∷ m else (j, w) ∷ rest

  unfoldable pub erase : K → List (K × V) → List (K × V)
  erase k [] = []
  erase k ((j, w) ∷ m) = let rest = erase k m in if same j k then rest else (j, w) ∷ rest

  module _ (same_iff : (a b : K) → (same a b ≡ true) ↔ (a ≡ b)) where
    pub lookup-insert_at :
        (k j : K) (v : V) (m : List (K × V))
        → lookup j (insert_at k v m) ≡ (if same k j then some v else lookup j m)
    unfolding lookup insert_at
    lookup-insert_at k j v [] = refl
    lookup-insert_at k j v ((i, w) ∷ m) = elim (Bool-cases (same i k)) [
      | inl e ↦ elim (Bool-cases (same k j)) [
        | inl h ↦ rw (e, h) refl
        | inr h ↦ rw (e, h, same-left same same_iff i j k e ∙ h) refl
      ]
      | inr e ↦ elim (Bool-cases (same k j)) [
        | inl h ↦
            rw (e, h) (rw (same-other same same_iff i j k e h, lookup-insert_at k j v m, h) refl)
        | inr h ↦ rw (e, h) (rw (lookup-insert_at k j v m, h) refl)
      ]
    ]

    pub lookup-erase :
        (k j : K) (m : List (K × V))
        → lookup j (erase k m) ≡ (if same k j then none else lookup j m)
    unfolding lookup erase
    lookup-erase k j [] = elim (Bool-cases (same k j)) [ inl h ↦ rw h refl | inr h ↦ rw h refl ]
    lookup-erase k j ((i, w) ∷ m) = elim (Bool-cases (same i k)) [
      | inl e ↦ elim (Bool-cases (same k j)) [
        | inl h ↦ rw (e, h) (rw (lookup-erase k j m, h) refl)
        | inr h ↦ rw (e, h) (rw (lookup-erase k j m, h, same-left same same_iff i j k e ∙ h) refl)
      ]
      | inr e ↦ elim (Bool-cases (same k j)) [
        | inl h ↦ rw (e, h) (rw (same-other same same_iff i j k e h, lookup-erase k j m, h) refl)
        | inr h ↦ rw (e, h) (rw (lookup-erase k j m, h) refl)
      ]
    ]

  -- No key stands twice.
  abbrev pub Distinct : List (K × V) → Type ℓ
  Distinct [] = Unit
  Distinct ((k, v) ∷ m) = (lookup k m ≡ none) × Distinct m

  module _ (same_iff : (a b : K) → (same a b ≡ true) ↔ (a ≡ b)) where
    pub insert_at-Distinct :
        (k : K) (v : V) (m : List (K × V)) → Distinct m → Distinct (insert_at k v m)
    unfolding lookup insert_at
    insert_at-Distinct k v [] h = (refl, tt)
    insert_at-Distinct k v ((j, w) ∷ m) h = elim (Bool-cases (same j k)) [
      | inl e ↦ rw e (subst (λ x. lookup x m ≡ none) ((same_iff j k).0 e) h.0, h.1)
      | inr e ↦ rw e (
        lookup-insert_at same_iff k j v m
            ∙ ap (λ b. if b then some v else lookup j m) (same-flip same same_iff j k e)
            ∙ h.0,
        insert_at-Distinct k v m h.1,
      )
    ]

    pub erase-Distinct : (k : K) (m : List (K × V)) → Distinct m → Distinct (erase k m)
    unfolding lookup erase
    erase-Distinct k [] h = tt
    erase-Distinct k ((j, w) ∷ m) h = elim (Bool-cases (same j k)) [
      | inl e ↦ rw e (erase-Distinct k m h.1)
      | inr e ↦ rw e (
        lookup-erase same_iff k j m
            ∙ ap (λ b. if b then none else lookup j m) (same-flip same same_iff j k e)
            ∙ h.0,
        erase-Distinct k m h.1,
      )
    ]
