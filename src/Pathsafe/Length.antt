-- ===== src/Pathsafe/Length.antt =====
-- Lengths in bytes: a capped component is still too long for any path, and a path is as long as each
-- of its parts.
use mathlib.Core.Option
use blt.Base.{
  ℕ, zero, suc, ◌+◌, ◌-◌, ◌≤◌, min, ◌≡◌, ap, ◌∙◌, false, not, ◌&&◌, none, some, List, [], ◌∷◌, ◌++◌,
  inl, inr, arith, ◌==◌, ==_iff, &&_iff, ltb→lt, All, All-map, Bool-cases, Option-cases, ltb, take,
}
use blt.Base.Text.{Text}
use blt.Pathsafe.{
  len_utf8, byte_len, rsplit_once, truncate_keep_ext, cap, max_component_len, join, is_empty,
}

len_utf8_pos : (c : ℕ) → 1 ≤ len_utf8 c
len_utf8_pos c = ground arith

pub byte_len-append : (s t : Text) → byte_len (s ++ t) ≡ byte_len s + byte_len t
unfolding byte_len
byte_len-append [] t = omega arith
byte_len-append (c ∷ s) t = omega (arith, byte_len-append s t)

byte_len-take : (n : ℕ) (s : Text) → min n (byte_len s) ≤ byte_len (take n s)
unfolding byte_len
byte_len-take zero s = omega arith
byte_len-take (suc n) [] = omega arith
byte_len-take (suc n) (c ∷ s) = omega (arith, byte_len-take n s, len_utf8_pos c)

rsplit_once-parts :
    (sep : ℕ) (s before after : Text)
    → rsplit_once sep s ≡ some (before, after)
    → s ≡ before ++ sep ∷ after
unfolding rsplit_once
rsplit_once-parts sep [] before after h = absurd (cc)
rsplit_once-parts sep (c ∷ s) before after h = elim (Option-cases (rsplit_once sep s)) [
  | inr ((b, a), e) ↦
      let same : (c ∷ b, a) ≡ (before, after) = Option.some-injective _ _ (rw e at h) in
      ap (◌∷◌ c) (rsplit_once-parts sep s b a e) ∙ ap (λ q. q.0 ++ sep ∷ q.1) same
  | inl e ↦ elim (Bool-cases (c == sep)) [
    | inr d ↦ absurd (let f : none ≡ some (before, after) = rw (e, d) at h in cc)
    | inl d ↦
        let same : ([], s) ≡ (before, after) = Option.some-injective _ _ (rw (e, d) at h) in
        ap (λ k. k ∷ s) ((==_iff c sep).0 d) ∙ ap (λ q. q.0 ++ sep ∷ q.1) same
  ]
]

byte_len-cons_dot : (t : Text) → byte_len (b'.' ∷ t) ≡ byte_len t + 1
unfolding byte_len
byte_len-cons_dot t = omega arith

truncate_keep_ext-long :
    (s : Text) (max : ℕ) → max ≤ byte_len s → max ≤ byte_len (truncate_keep_ext s max)
unfolding truncate_keep_ext
truncate_keep_ext-long s max h = elim (Option-cases (rsplit_once b'.' s)) [
  | inl e ↦ rw (truncate_keep_ext, e) (omega (arith, byte_len-take max s))
  | inr ((stem, ext), e) ↦ elim (Bool-cases (ltb (byte_len ext + 1) max && not (is_empty ext))) [
    | inr d ↦ rw (truncate_keep_ext, e, d) (omega (arith, byte_len-take max s))
    | inl d ↦
        let whole : byte_len s ≡ byte_len stem + byte_len (b'.' ∷ ext) =
          ap byte_len (rsplit_once-parts b'.' s stem ext e) ∙ byte_len-append stem (b'.' ∷ ext) in
        let room =
          ltb→lt (byte_len ext + 1) max
            ((&&_iff (ltb (byte_len ext + 1) max) (not (is_empty ext))).0 d).0 in
        let keep = max - byte_len ext - 1 in
        rw (truncate_keep_ext, e, d)
          (omega (
            arith,
            whole,
            byte_len-cons_dot ext,
            room,
            byte_len-take keep stem,
            byte_len-append (take keep stem) (b'.' ∷ ext),
          ))
  ]
]

-- A component whose capped form is at most 230 bytes was not shortened: the cap never makes one fit
-- into a path that did not fit before.
pub cap-short : (s : Text) → byte_len (cap s) ≤ 230 → cap s ≡ s
unfolding cap
cap-short s h = elim (Bool-cases (ltb max_component_len (byte_len s))) [
  | inr e ↦ rw e
  | inl e ↦ absurd (
      let long = truncate_keep_ext-long s 255 (omega (arith, ltb→lt _ _ e)) in
      let h' : byte_len (truncate_keep_ext s 255) ≤ 230 = rw e at h in omega arith)
]

pub cap-within : (s : Text) → byte_len s ≤ 230 → cap s ≡ s
unfolding cap
cap-within s h = let e : ltb max_component_len (byte_len s) ≡ false = ground arith in rw e

pub join-parts : (parts : List Text) → All (λ p. byte_len p ≤ byte_len (join parts)) parts
unfolding join byte_len
join-parts [] = tt
join-parts (p ∷ []) = (omega arith, tt)
join-parts (p ∷ q ∷ parts) =
    let total = byte_len-append p (b'/' ∷ join (q ∷ parts)) in
    (
      omega (arith, total),
      All-map (λ t. byte_len t ≤ byte_len (join (q ∷ parts)))
          (λ t. byte_len t ≤ byte_len (join (p ∷ q ∷ parts))) (q ∷ parts)
          (λ t h. omega (arith, total)) (join-parts (q ∷ parts)),
    )
