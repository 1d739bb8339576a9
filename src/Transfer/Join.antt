-- ===== src/Transfer/Join.antt =====
-- Destinations stay below the root, and every sanitised path is a destination.
use mathlib.Core.Option
use mathlib.Core.Path.{subst}
use blt.Base.{
  ℕ, ◌≡◌, ◌≢◌, refl, Bool, false, true, sym, ap, ◌∙◌, Option, none, some, List, [], ◌∷◌, ◌++◌, inl,
  inr, arith, ◌==◌, ◌||◌, All, Bool-cases, Option-cases, any,
}
use blt.Base.Result.{ok, ok_inj}
use blt.Base.Text.{Text, text, ◌=t◌}
use blt.Pathsafe.{is_bad, push_front, join, sanitize_rel_path}
use blt.Pathsafe.Component.{IsSafe}
use blt.Pathsafe.Safe.{sanitize_rel_path-IsSafe}
use blt.Pathsafe.Again.{not_dots}
use blt.Transfer.{Dest, split_slash, skipped, refused, join_comps, below_root, safe_join}

-- A component that cannot leave the directory it is joined to, on any system.
pub record IsKept (comp : Text) : Type 0 where
  pub filled : comp ≢ []
  pub not_dot : comp ≢ text "."
  pub not_dots : comp ≢ text ".."
  pub no_backslash : All (λ c. (c == b'\\') ≡ false) comp
  pub no_colon : All (λ c. (c == b':') ≡ false) comp

any-false : (p : ℕ → Bool) (t : Text) → any p t ≡ false → All (λ x. p x ≡ false) t
any-false p [] h = tt
any-false p (x ∷ t) h = let (a, b) = or_false (p x) (any p t) h in (a, any-false p t b)
  where
    or_false : (x y : Bool) → (x || y) ≡ false → (x ≡ false) × (y ≡ false)
    or_false x y h = ground arith

skipped-refused-IsKept : (comp : Text) → skipped comp ≡ false → refused comp ≡ false → IsKept comp
unfolding ◌=t◌
skipped-refused-IsKept comp s r =
    let (dots, a, b) =
      three (comp =t text "..") (any (λ c. c == b'\\') comp) (any (λ c. c == b':') comp) r in
    record {
      filled = λ h. let f : true ≡ false = ap skipped (sym h) ∙ s in cc;
      not_dot = λ h. let f : true ≡ false = ap skipped (sym h) ∙ s in cc;
      not_dots = λ h. let f : true ≡ false = ap refused (sym h) ∙ r in cc;
      no_backslash = any-false (λ c. c == b'\\') comp a;
      no_colon = any-false (λ c. c == b':') comp b;
    }
  where
    three : (x y z : Bool) → (x || (y || z)) ≡ false → (x ≡ false) × (y ≡ false) × (z ≡ false)
    three x y z h = ground arith

join_comps-IsKept : (comps : List Text) (out : Dest) → join_comps comps ≡ some out → All IsKept out
unfolding join_comps
join_comps-IsKept [] out h = subst (All IsKept) (Option.some-injective [] out h) tt
join_comps-IsKept (comp ∷ comps) out h = elim (Bool-cases (skipped comp)) [
  | inl e ↦ join_comps-IsKept comps out (rw e at h)
  | inr e ↦ elim (Bool-cases (refused comp)) [
    | inl d ↦ absurd (let f : none ≡ some out = rw (e, d) at h in cc)
    | inr d ↦ elim (Option-cases (join_comps comps)) [
      | inl n ↦ absurd (let f : none ≡ some out = rw (e, d, n) at h in cc)
      | inr (rest, r) ↦
          subst (All IsKept) (Option.some-injective (comp ∷ rest) out (rw (e, d, r) at h))
            (skipped-refused-IsKept comp e d, join_comps-IsKept comps rest r)
    ]
  ]
]

below_root-ok :
    (rel : Text) (o : Option Dest) (out : Dest)
    → below_root rel o ≡ ok out
    → (o ≡ some out) × (out ≢ [])
below_root-ok rel none out h = absurd (cc)
below_root-ok rel (some []) out h = absurd (cc)
below_root-ok rel (some (c ∷ cs)) out h =
    let e = ok_inj (c ∷ cs) out h in (ap some e, λ n. absurd (let f = e ∙ n in cc))

-- A destination has one or more components below the root, none of them empty, `.` or `..`, and none
-- with a backslash or a colon.
pub safe_join-IsKept :
    (rel : Text) (out : Dest) → safe_join rel ≡ ok out → (out ≢ []) × All IsKept out
unfolding safe_join
safe_join-IsKept rel out h =
    let (e, ne) = below_root-ok rel (join_comps (split_slash rel)) out h in
    (ne, join_comps-IsKept (split_slash rel) out e)

not_slash : (x : ℕ) → is_bad x ≡ false → (x == b'/') ≡ false
unfolding is_bad
not_slash x h = ground arith

split_slash-one : (t : Text) → All (λ ch. is_bad ch ≡ false) t → split_slash t ≡ t ∷ []
unfolding split_slash
split_slash-one [] h = refl
split_slash-one (x ∷ t) h = rw (not_slash x h.0) (ap (push_front x) (split_slash-one t h.1))

split_slash-more :
    (t s : Text) → All (λ ch. is_bad ch ≡ false) t → split_slash (t ++ b'/' ∷ s) ≡ t ∷ split_slash s
unfolding split_slash
split_slash-more [] s h = refl
split_slash-more (x ∷ t) s h = rw (not_slash x h.0) (ap (push_front x) (split_slash-more t s h.1))

split_slash-join :
    (part : Text) (parts : List Text)
    → All IsSafe (part ∷ parts)
    → split_slash (join (part ∷ parts)) ≡ part ∷ parts
unfolding join
split_slash-join part [] h = split_slash-one part h.0.allowed
split_slash-join part (next ∷ parts) h =
    split_slash-more part (join (next ∷ parts)) h.0.allowed
    ∙ ap (◌∷◌ part) (split_slash-join next parts h.1)

any-not :
    (p : ℕ → Bool) (t : Text)
    → ((x : ℕ) → is_bad x ≡ false → p x ≡ false)
    → All (λ ch. is_bad ch ≡ false) t
    → any p t ≡ false
any-not p [] h k = refl
any-not p (x ∷ t) h k = rw (h x k.0) (any-not p t h k.1)

backslash_bad : (x : ℕ) → is_bad x ≡ false → (x == b'\\') ≡ false
unfolding is_bad
backslash_bad x h = ground arith

colon_bad : (x : ℕ) → is_bad x ≡ false → (x == b':') ≡ false
unfolding is_bad
colon_bad x h = ground arith

skipped-eq : (c : Text) → (c =t text ".") ≡ false → c ≢ [] → skipped c ≡ false
skipped-eq [] h ne = absurd (ne refl)
skipped-eq (x ∷ c) h ne = h

join_comps-IsSafe : (parts : List Text) → All IsSafe parts → join_comps parts ≡ some parts
unfolding join_comps
join_comps-IsSafe [] h = refl
join_comps-IsSafe (c ∷ parts) h =
    let (dot, dots, more) = not_dots c h.0 c h.0.trimmed h.0.filled in
    let kept : refused c ≡ false = rw (
      dots,
      any-not (λ x. x == b'\\') c backslash_bad h.0.allowed,
      any-not (λ x. x == b':') c colon_bad h.0.allowed,
    ) in
    rw (skipped-eq c dot h.0.filled, kept, join_comps-IsSafe parts h.1)

-- Every path that `sanitize_rel_path` accepts is a destination, of the parts that it joins.
pub safe_join-sanitize_rel_path :
    (raw path : Text)
    → sanitize_rel_path raw ≡ ok path
    → (parts : List Text) × (path ≡ join parts) × (safe_join path ≡ ok parts)
unfolding safe_join
safe_join-sanitize_rel_path raw path h =
    let (parts, e, filled, safe, fits) = sanitize_rel_path-IsSafe raw path h in
    (parts, e, ap safe_join e ∙ joined parts filled safe)
  where
    joined : (parts : List Text) → parts ≢ [] → All IsSafe parts → safe_join (join parts) ≡ ok parts
    joined [] filled safe = absurd (filled refl)
    joined (c ∷ parts) filled safe =
        rw (safe_join, split_slash-join c parts safe, join_comps-IsSafe (c ∷ parts) safe)
