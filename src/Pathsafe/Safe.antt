-- ===== src/Pathsafe/Safe.antt =====
-- Whatever `sanitize_rel_path` accepts is safe to write, and is accepted again as it is.
use mathlib.Core.Option
use mathlib.Core.Path.{subst}
use blt.Base.{
  ℕ, ◌≡◌, ◌≢◌, sym, ◌∙◌, ◌≤◌, Bool, true, false, ◌&&◌, ◌||◌, none, some, List, [], ◌∷◌, inl, inr,
  arith, All, Bool-cases, Option-cases, ltb,
}
use blt.Base.Result.{ok, err, >>=-eq-ok, ok_inj}
use blt.Base.Text.{Text, text, ◌=t◌}
use blt.Pathsafe.{
  PathSafetyError, traversal, absolute, too_long, escape, clean, cap, is_empty, byte_len,
  sanitize_component, split_parts, is_drive, push_some, sanitize_parts, join, no_parts, finish,
  sanitize_rel_path, max_rel_path_len,
}
use blt.Pathsafe.Component.{IsSafe, escape-clean}
use blt.Pathsafe.Length.{cap-short, join-parts}

-- Safe, as long as it fits in a path.
abbrev SafeIfShort : Text → Type 0
SafeIfShort c = byte_len c ≤ 230 → IsSafe c

sanitize_component-SafeIfShort : (raw c : Text) → sanitize_component raw ≡ some c → SafeIfShort c
unfolding sanitize_component
sanitize_component-SafeIfShort raw c h short =
    elim (Bool-cases (is_empty raw || (raw =t text "."))) [
      | inl e ↦ absurd (let f : none ≡ some c = rw e at h in cc)
      | inr e ↦
          let same : cap (escape (clean raw)) ≡ c = Option.some-injective _ c (rw e at h) in
          let fits : byte_len (cap (escape (clean raw))) ≤ 230 =
            subst (λ t. byte_len t ≤ 230) (sym same) short in
          subst IsSafe (sym (cap-short (escape (clean raw)) fits) ∙ same) (escape-clean raw)
    ]

push_some-All :
    (raw : Text) (out : List Text)
    → All SafeIfShort out
    → All SafeIfShort (push_some (sanitize_component raw) out)
push_some-All raw out h = elim (Option-cases (sanitize_component raw)) [
  | inl e ↦ rw e h
  | inr (c, e) ↦ rw e (sanitize_component-SafeIfShort raw c e, h)
]

sanitize_parts-All :
    (first : Bool) (parts out : List Text)
    → sanitize_parts first parts ≡ ok out
    → All SafeIfShort out
unfolding sanitize_parts
sanitize_parts-All first [] out h = subst (All SafeIfShort) (ok_inj [] out h) tt
sanitize_parts-All first (part ∷ parts) out h = elim (Bool-cases (part =t text "..")) [
  | inl e ↦ absurd (let f : err traversal ≡ ok out = rw e at h in cc)
  | inr e ↦ elim (Bool-cases (first && is_drive part)) [
    | inl d ↦ absurd (let f : err absolute ≡ ok out = rw (e, d) at h in cc)
    | inr d ↦
        let (rest, r, f) =
          >>=-eq-ok (sanitize_parts false parts)
            (λ out. ok (push_some (sanitize_component part) out)) (rw (e, d) at h) in
        subst (All SafeIfShort) (ok_inj _ out f)
          (push_some-All part rest (sanitize_parts-All false parts rest r))
  ]
]

both :
    (out : List Text) (n : ℕ)
    → n ≤ 230
    → All SafeIfShort out
    → All (λ p. byte_len p ≤ n) out
    → All IsSafe out
both [] n h a b = tt
both (c ∷ out) n h a b = (a.0 (omega (arith, b.0)), both out n h a.1 b.1)

finish_ok :
    (out : List Text) (path : Text)
    → finish out ≡ ok path
    → (no_parts out ≡ false) × (join out ≡ path) × (byte_len (join out) ≤ 230)
unfolding finish
finish_ok out path h = elim (Bool-cases (no_parts out)) [
  | inl e ↦ absurd (let f : err PathSafetyError.empty ≡ ok path = rw e at h in cc)
  | inr e ↦ elim (Bool-cases (ltb max_rel_path_len (byte_len (join out)))) [
    | inl d ↦
        absurd (let f : err (too_long (byte_len (join out)) 230) ≡ ok path = rw (e, d) at h in cc)
    | inr d ↦ (e, ok_inj _ path (rw (e, d) at h), ground arith)
  ]
]

pub sanitize_rel_path-IsSafe :
    (raw path : Text)
    → sanitize_rel_path raw ≡ ok path
    → (parts : List Text) × (path ≡ join parts)
      × (parts ≢ [])
      × All IsSafe parts
      × (byte_len path ≤ 230)
unfolding sanitize_rel_path finish
sanitize_rel_path-IsSafe raw path h =
    let (out, e, f) = >>=-eq-ok (sanitize_parts true (split_parts raw)) finish h in
    let (some_part, j, fits) = finish_ok out path f in
    (
      out,
      sym j,
      λ none_left. cc,
      both out (byte_len (join out)) fits (sanitize_parts-All true (split_parts raw) out e)
          (join-parts out),
      subst (λ p. byte_len p ≤ 230) j fits,
    )
