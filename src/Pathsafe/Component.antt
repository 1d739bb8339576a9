-- ===== src/Pathsafe/Component.antt =====
-- One component of a path, before its length is capped.
use blt.Base.{ℕ, ◌≡◌, ◌≢◌, refl, ap, false, [], ◌∷◌, inl, inr, All, Bool-cases, if◌then◌else◌, map}
use blt.Base.Text.{Text, ◌=t◌}
use blt.Pathsafe.{
  is_bad, is_dot_or_space, trim_front, trim_end, before_dot, is_reserved_windows_name, escape,
  clean, or_underscore,
}

-- A name that every target system takes: not empty, without an illegal or a control character,
-- without a dot or a space at its end, and no reserved device name.
pub record IsSafe (c : Text) : Type 0 where
  pub filled : c ≢ []
  pub allowed : All (λ ch. is_bad ch ≡ false) c
  pub trimmed : trim_end c ≡ c
  pub unreserved : is_reserved_windows_name (before_dot c) ≡ false

abbrev replace : ℕ → ℕ
replace c = if is_bad c then b'_' else c

replace-allowed : (c : ℕ) → is_bad (replace c) ≡ false
unfolding is_bad
replace-allowed c = elim (Bool-cases (is_bad c)) [ inl e ↦ rw e | inr e ↦ rw e e ]

map-allowed : (s : Text) → All (λ ch. is_bad ch ≡ false) (map replace s)
map-allowed [] = tt
map-allowed (c ∷ s) = (replace-allowed c, map-allowed s)

trim_front-All :
    (c : ℕ) (s : Text)
    → is_bad c ≡ false
    → All (λ ch. is_bad ch ≡ false) s
    → All (λ ch. is_bad ch ≡ false) (trim_front c s)
trim_front-All c [] h k = elim (Bool-cases (is_dot_or_space c)) [
  | inl e ↦ rw (trim_front, e) tt
  | inr e ↦ rw (trim_front, e) (h, tt)
]
trim_front-All c (d ∷ s) h k = (h, k)

trim_end-All :
    (s : Text) → All (λ ch. is_bad ch ≡ false) s → All (λ ch. is_bad ch ≡ false) (trim_end s)
unfolding trim_end
trim_end-All [] h = tt
trim_end-All (c ∷ s) h = trim_front-All c (trim_end s) h.0 (trim_end-All s h.1)

trim_front_twice : (c : ℕ) (s : Text) → trim_end s ≡ s → trim_end (trim_front c s) ≡ trim_front c s
unfolding trim_end
trim_front_twice c [] h = elim (Bool-cases (is_dot_or_space c)) [
  | inl e ↦ rw (trim_front, e)
  | inr e ↦ rw (trim_front, e) (rw (trim_front, e))
]
trim_front_twice c (d ∷ s) h = ap (trim_front c) h

trim_end_twice : (s : Text) → trim_end (trim_end s) ≡ trim_end s
unfolding trim_end
trim_end_twice [] = refl
trim_end_twice (c ∷ s) = trim_front_twice c (trim_end s) (trim_end_twice s)

-- An underscore in front.
underscore-trimmed : (s : Text) → trim_end s ≡ s → trim_end (b'_' ∷ s) ≡ b'_' ∷ s
unfolding trim_end
underscore-trimmed [] h = refl
underscore-trimmed (c ∷ s) h = ap (trim_front b'_') h

underscore_unreserved : (s : Text) → is_reserved_windows_name (before_dot (b'_' ∷ s)) ≡ false
unfolding is_reserved_windows_name before_dot ◌=t◌
underscore_unreserved s = refl

underscore_allowed : is_bad b'_' ≡ false
unfolding is_bad
underscore_allowed = refl

or_underscore-filled : (s : Text) → or_underscore s ≢ []
or_underscore-filled [] h = cc
or_underscore-filled (c ∷ s) h = cc

or_underscore-All :
    (s : Text) → All (λ ch. is_bad ch ≡ false) s → All (λ ch. is_bad ch ≡ false) (or_underscore s)
or_underscore-All [] h = (underscore_allowed, tt)
or_underscore-All (c ∷ s) h = h

or_underscore-trimmed : (s : Text) → trim_end s ≡ s → trim_end (or_underscore s) ≡ or_underscore s
or_underscore-trimmed [] h = underscore-trimmed [] h
or_underscore-trimmed (c ∷ s) h = h

escape-IsSafe :
    (s : Text) → s ≢ [] → All (λ ch. is_bad ch ≡ false) s → trim_end s ≡ s → IsSafe (escape s)
unfolding escape
escape-IsSafe s filled allowed trimmed =
    elim (Bool-cases (is_reserved_windows_name (before_dot s))) [
      | inl e ↦ rw e (record {
        filled = λ h. cc;
        allowed = (underscore_allowed, allowed);
        trimmed = underscore-trimmed s trimmed;
        unreserved = underscore_unreserved s;
      })
      | inr e ↦
          rw e (record { filled = filled; allowed = allowed; trimmed = trimmed; unreserved = e })
    ]

pub escape-clean : (raw : Text) → IsSafe (escape (clean raw))
unfolding clean
escape-clean raw =
    let s = trim_end (map replace raw) in
    escape-IsSafe (or_underscore s) (or_underscore-filled s)
      (or_underscore-All s (trim_end-All (map replace raw) (map-allowed raw)))
      (or_underscore-trimmed s (trim_end_twice (map replace raw)))
