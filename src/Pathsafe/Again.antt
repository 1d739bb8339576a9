-- ===== src/Pathsafe/Again.antt =====
-- A sanitised path is its own sanitised form.
use mathlib.Core.Path.{subst}
use blt.Base.{
  ℕ, ◌≡◌, ◌≢◌, refl, ap, ◌∙◌, ◌≤◌, Bool, true, false, ◌&&◌, some, List, [], ◌∷◌, ◌++◌, inl, inr,
  arith, ◌==◌, All, All-map, Bool-cases, if◌then◌else◌, map, ltb,
}
use blt.Base.Result.{ok}
use blt.Base.Text.{Text, text, ◌=t◌, =t_iff}
use blt.Pathsafe.{
  is_bad, trim_end, escape, clean, cap, or_underscore, is_empty, byte_len, sanitize_component,
  split_parts, is_separator, push_front, is_drive, push_some, sanitize_parts, join, finish,
  sanitize_rel_path, max_rel_path_len,
}
use blt.Pathsafe.Component.{IsSafe}
use blt.Pathsafe.Length.{cap-within, join-parts}
use blt.Pathsafe.Safe.{sanitize_rel_path-IsSafe}

and_false : (b : Bool) → (b && false) ≡ false
and_false b = ground arith

-- A safe name is sanitised to itself.
module _ (c : Text) (s : IsSafe c) where
  replaced :
      (t : Text)
      → All (λ ch. is_bad ch ≡ false) t
      → map (λ ch. if is_bad ch then b'_' else ch) t ≡ t
  replaced [] h = refl
  replaced (x ∷ t) h = rw h.0 (ap (◌∷◌ x) (replaced t h.1))

  underscored : (t : Text) → t ≢ [] → or_underscore t ≡ t
  underscored [] ne = absurd (ne refl)
  underscored (x ∷ t) ne = refl

  clean-eq : clean c ≡ c
  unfolding clean
  clean-eq =
      ap (λ t. or_underscore (trim_end t)) (replaced c s.allowed)
      ∙ ap or_underscore s.trimmed
      ∙ underscored c s.filled

  escape-eq : escape c ≡ c
  unfolding escape
  escape-eq = rw s.unreserved

  -- It is none of the names that are skipped or refused.
  pub not_dots :
      (t : Text)
      → trim_end t ≡ t
      → t ≢ []
      → ((t =t text ".") ≡ false) × ((t =t text "..") ≡ false) × (is_empty t ≡ false)
  unfolding trim_end
  not_dots [] trimmed filled = absurd (filled refl)
  not_dots (x ∷ t) trimmed filled = (
    elim (Bool-cases ((x ∷ t) =t text ".")) [
      | inl e ↦
          absurd
            (let f = subst (λ u. trim_end u ≡ u) ((=t_iff (x ∷ t) (text ".")).0 e) trimmed in cc)
      | inr e ↦ e
    ],
    elim (Bool-cases ((x ∷ t) =t text "..")) [
      | inl e ↦
          absurd
            (let f = subst (λ u. trim_end u ≡ u) ((=t_iff (x ∷ t) (text "..")).0 e) trimmed in cc)
      | inr e ↦ e
    ],
    refl,
  )

  sanitize_component-eq : byte_len c ≤ 230 → sanitize_component c ≡ some c
  unfolding sanitize_component
  sanitize_component-eq short =
      let (dot, dots, more) = not_dots c s.trimmed s.filled in
      rw (more, dot)
        (ap (λ t. some (cap (escape t))) clean-eq
          ∙ ap (λ t. some (cap t)) escape-eq
          ∙ ap some (cap-within c short))

separator_bad : (x : ℕ) → is_bad x ≡ false → is_separator x ≡ false
unfolding is_bad
separator_bad x h = ground arith

colon_bad : (x : ℕ) → is_bad x ≡ false → (x == b':') ≡ false
unfolding is_bad
colon_bad x h = ground arith

drive_bad : (t : Text) → All (λ ch. is_bad ch ≡ false) t → is_drive t ≡ false
drive_bad [] h = refl
drive_bad (x ∷ []) h = refl
drive_bad (x ∷ y ∷ []) h = rw (is_drive, colon_bad y h.1.0)
drive_bad (x ∷ y ∷ z ∷ t) h = refl

split_parts-one : (t : Text) → All (λ ch. is_bad ch ≡ false) t → split_parts t ≡ t ∷ []
unfolding split_parts
split_parts-one [] h = refl
split_parts-one (x ∷ t) h = rw (separator_bad x h.0) (ap (push_front x) (split_parts-one t h.1))

split_parts-more :
    (t s : Text) → All (λ ch. is_bad ch ≡ false) t → split_parts (t ++ b'/' ∷ s) ≡ t ∷ split_parts s
unfolding split_parts
split_parts-more [] s h = refl
split_parts-more (x ∷ t) s h =
    rw (separator_bad x h.0) (ap (push_front x) (split_parts-more t s h.1))

split_parts-join :
    (part : Text) (parts : List Text)
    → All IsSafe (part ∷ parts)
    → split_parts (join (part ∷ parts)) ≡ part ∷ parts
unfolding join
split_parts-join part [] h = split_parts-one part h.0.allowed
split_parts-join part (next ∷ parts) h =
    split_parts-more part (join (next ∷ parts)) h.0.allowed
    ∙ ap (◌∷◌ part) (split_parts-join next parts h.1)

sanitize_parts-eq :
    (first : Bool) (parts : List Text)
    → All IsSafe parts
    → All (λ p. byte_len p ≤ 230) parts
    → sanitize_parts first parts ≡ ok parts
unfolding sanitize_parts
sanitize_parts-eq first [] h k = refl
sanitize_parts-eq first (part ∷ parts) h k =
    let (dot, dots, more) = not_dots part h.0 part h.0.trimmed h.0.filled in
    let drive : (first && is_drive part) ≡ false =
      ap (λ b. first && b) (drive_bad part h.0.allowed) ∙ and_false first in
    rw (dots, drive, sanitize_parts-eq false parts h.1 k.1)
      (ap (λ c. ok (push_some c parts)) (sanitize_component-eq part h.0 k.0))

-- A path that was accepted is accepted again, as it is.
pub sanitize_rel_path-idempotent :
    (raw path : Text) → sanitize_rel_path raw ≡ ok path → sanitize_rel_path path ≡ ok path
unfolding sanitize_rel_path finish
sanitize_rel_path-idempotent raw path h =
    let (parts, e, filled, safe, fits) = sanitize_rel_path-IsSafe raw path h in
    again parts filled safe e fits
  where
    again :
        (parts : List Text)
        → parts ≢ []
        → All IsSafe parts
        → path ≡ join parts
        → byte_len path ≤ 230
        → sanitize_rel_path path ≡ ok path
    again [] filled safe e fits = absurd (filled refl)
    again (part ∷ parts) filled safe e fits =
        let short : byte_len (join (part ∷ parts)) ≤ 230 = subst (λ p. byte_len p ≤ 230) e fits in
        let within =
          All-map (λ p. byte_len p ≤ byte_len (join (part ∷ parts))) (λ p. byte_len p ≤ 230)
            (part ∷ parts) (λ p k. omega (arith, short)) (join-parts (part ∷ parts)) in
        let under : ltb max_rel_path_len (byte_len (join (part ∷ parts))) ≡ false = ground arith in
        rw (
          e,
          split_parts-join part parts safe,
          sanitize_parts-eq true (part ∷ parts) safe within,
          under,
        )
