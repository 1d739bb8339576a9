-- ===== src/Admin/Sessions.antt =====
-- The life of an admin session, over any sequence of uses of the session table.
use mathlib.Core.Path.{subst}
use blt.Base.{
  ℕ, ◌+◌, ◌-◌, ◌<◌, ◌≡◌, ◌⊎◌, refl, sym, ap, ◌∙◌, Bool, true, false, Option, none, some, List, [],
  ◌∷◌, arith, inl, inr, Bool-cases, Option-cases, All, ltb→lt, &&_iff,
}
use blt.Base.Assoc.{lookup, lookup-insert_at, lookup-erase}
use blt.Base.Text.{Text, ◌=t◌, =t_iff, =t_self}
use blt.Admin.{
  SessionMeta, Gate, session_new, session_valid, session_remove, session_clear, is_fresh,
  session_absolute,
}

-- A use of the table.
pub data Use : Type 0 where
  mints checks : (token : Text) (now : ℕ) → Use
  drops : (token : Text) → Use
  drops_all : Use

abbrev pub use_once : Gate → Use → Gate
use_once g (mints token now) = session_new g token now
use_once g (checks token now) = (session_valid g token now).1
use_once g (drops token) = session_remove g token
use_once g drops_all = session_clear g

abbrev pub use_all : Gate → List Use → Gate
use_all g [] = g
use_all g (u ∷ uses) = use_all (use_once g u) uses

abbrev pub mints_token : Text → Use → Bool
mints_token token (mints t now) = t =t token
mints_token token (checks t now) = false
mints_token token (drops t) = false
mints_token token drops_all = false

abbrev pub session_of : Gate → Text → Option SessionMeta
session_of g token = lookup ◌=t◌ token g.admin_sessions

-- The session is gone, or it is the one that was created at the time.
abbrev Since : ℕ → Option SessionMeta → Type 0
Since created o = (o ≡ none) ⊎ ((s : SessionMeta) × (o ≡ some s) × (s.created ≡ created))

session_valid-other :
    (g : Gate) (t token : Text) (now : ℕ)
    → (t =t token) ≡ false
    → session_of (session_valid g t now).1 token ≡ session_of g token
unfolding session_valid lookup
session_valid-other g t token now e = elim (Option-cases (session_of g t)) [
  | inl o ↦ rw (session_valid, o) refl
  | inr (s, o) ↦ elim (Bool-cases (is_fresh now s)) [
    | inl f ↦
        rw (session_valid, o, f)
          (lookup-insert_at ◌=t◌ =t_iff t token (record s { last_seen = now }) g.admin_sessions
            ∙ rw e refl)
    | inr f ↦
        rw (session_valid, o, f) (lookup-erase ◌=t◌ =t_iff t token g.admin_sessions ∙ rw e refl)
  ]
]

session_valid_self :
    (g : Gate) (token : Text) (now created : ℕ)
    → Since created (session_of g token)
    → Since created (session_of (session_valid g token now).1 token)
unfolding session_valid lookup
session_valid_self g token now created (inl o) = rw (session_valid, o) (inl o)
session_valid_self g token now created (inr (s, o, c)) = elim (Bool-cases (is_fresh now s)) [
  | inl f ↦
      rw (session_valid, o, f)
        (inr (
          record s { last_seen = now },
          lookup-insert_at ◌=t◌ =t_iff token token (record s { last_seen = now }) g.admin_sessions
              ∙ rw (=t_self token) refl,
          c,
        ))
  | inr f ↦
      rw (session_valid, o, f)
        (inl (lookup-erase ◌=t◌ =t_iff token token g.admin_sessions ∙ rw (=t_self token) refl))
]

session_valid-none :
    (g : Gate) (token : Text) (now : ℕ)
    → session_of g token ≡ none
    → ((session_valid g token now).0 ≡ false)
      × (session_of (session_valid g token now).1 token ≡ none)
unfolding session_valid lookup
session_valid-none g token now o = rw (session_valid, o) (refl, o)

-- The checks that other tokens pass change nothing for this one.
session_new-other :
    (g : Gate) (t token : Text) (now : ℕ)
    → (t =t token) ≡ false
    → session_of (session_new g t now) token ≡ session_of g token
unfolding session_new
session_new-other g t token now e =
    lookup-insert_at ◌=t◌ =t_iff t token (record { created = now; last_seen = now })
      g.admin_sessions
    ∙ rw e refl

session_remove-gone :
    (g : Gate) (t token : Text)
    → (session_of (session_remove g t) token ≡ none)
      ⊎ (session_of (session_remove g t) token ≡ session_of g token)
unfolding session_remove
session_remove-gone g t token = elim (Bool-cases (t =t token)) [
  | inl e ↦ inl (lookup-erase ◌=t◌ =t_iff t token g.admin_sessions ∙ rw e refl)
  | inr e ↦ inr (lookup-erase ◌=t◌ =t_iff t token g.admin_sessions ∙ rw e refl)
]

-- What holds of a session that is gone, and is kept by checks of its token, is kept by every use.
module _ (token : Text) (P : Option SessionMeta → Type 0) (gone : P none)
    (kept : (g : Gate) (now : ℕ)
      → P (session_of g token)
      → P (session_of (session_valid g token now).1 token)) where
  use_once-keeps :
      (g : Gate) (u : Use)
      → mints_token token u ≡ false
      → P (session_of g token)
      → P (session_of (use_once g u) token)
  unfolding session_clear lookup
  use_once-keeps g (mints t now) e p = subst P (sym (session_new-other g t token now e)) p
  use_once-keeps g (checks t now) e p = elim (Bool-cases (t =t token)) [
    | inl h ↦
        subst (λ x. P (session_of (session_valid g x now).1 token)) (sym ((=t_iff t token).0 h))
          (kept g now p)
    | inr h ↦ subst P (sym (session_valid-other g t token now h)) p
  ]
  use_once-keeps g (drops t) e p = elim (session_remove-gone g t token) [
    | inl h ↦ subst P (sym h) gone
    | inr h ↦ subst P (sym h) p
  ]
  use_once-keeps g drops_all e p = gone

  use_all-keeps :
      (g : Gate) (uses : List Use)
      → All (λ u. mints_token token u ≡ false) uses
      → P (session_of g token)
      → P (session_of (use_all g uses) token)
  use_all-keeps g [] h p = p
  use_all-keeps g (u ∷ uses) h p = use_all-keeps (use_once g u) uses h.1 (use_once-keeps g u h.0 p)

session_valid-invalid :
    (g : Gate) (token : Text) (now : ℕ)
    → (session_valid g token now).0 ≡ false
    → session_of (session_valid g token now).1 token ≡ none
unfolding session_valid lookup
session_valid-invalid g token now h = elim (Option-cases (session_of g token)) [
  | inl o ↦ rw (session_valid, o) o
  | inr (s, o) ↦ elim (Bool-cases (is_fresh now s)) [
    | inl f ↦ absurd (let no : true ≡ false = rw (session_valid, o, f) at h in cc)
    | inr f ↦
        rw (session_valid, o, f)
          (lookup-erase ◌=t◌ =t_iff token token g.admin_sessions ∙ rw (=t_self token) refl)
  ]
]

session_valid-fresh :
    (g : Gate) (token : Text) (now : ℕ)
    → (session_valid g token now).0 ≡ true
    → (s : SessionMeta) × (session_of g token ≡ some s) × (is_fresh now s ≡ true)
unfolding session_valid
session_valid-fresh g token now h = elim (Option-cases (session_of g token)) [
  | inl o ↦ absurd (let no : false ≡ true = rw (session_valid, o) at h in cc)
  | inr (s, o) ↦ elim (Bool-cases (is_fresh now s)) [
    | inl f ↦ (s, o, f)
    | inr f ↦ absurd (let no : false ≡ true = rw (session_valid, o, f) at h in cc)
  ]
]

-- A token that is refused once is refused for good: whatever the sessions are used for afterwards, it
-- is refused again, unless it is minted anew.
pub session_valid-refused :
    (g : Gate) (token : Text) (now : ℕ) (uses : List Use) (later : ℕ)
    → (session_valid g token now).0 ≡ false
    → All (λ u. mints_token token u ≡ false) uses
    → (session_valid (use_all (session_valid g token now).1 uses) token later).0 ≡ false
session_valid-refused g token now uses later h none_mints =
    (session_valid-none (use_all (session_valid g token now).1 uses) token later (
      use_all-keeps token (λ o. o ≡ none) refl (λ g' t o. (session_valid-none g' token t o).1)
        (session_valid g token now).1 uses none_mints (session_valid-invalid g token now h))).0

-- However often a session is used, it is accepted only within twelve hours of its creation.
pub session_valid-absolute :
    (g : Gate) (token : Text) (created : ℕ) (uses : List Use) (now : ℕ)
    → All (λ u. mints_token token u ≡ false) uses
    → (session_valid (use_all (session_new g token created) uses) token now).0 ≡ true
    → now < created + session_absolute
unfolding session_new
session_valid-absolute g token created uses now none_mints h =
    let fresh : Since created (session_of (session_new g token created) token) = inr (
      record { created = created; last_seen = created },
      lookup-insert_at ◌=t◌ =t_iff token token (record { created = created; last_seen = created })
            g.admin_sessions
          ∙ rw (=t_self token) refl,
      refl,
    ) in
    let (s, o, f) = session_valid-fresh (use_all (session_new g token created) uses) token now h in
    let bound : (now - s.created) < session_absolute = ltb→lt _ _ ((&&_iff _ _).0 f).0 in
    elim (use_all-keeps token (Since created) (inl refl)
      (λ g' t p. session_valid_self g' token t created p) (session_new g token created) uses
      none_mints fresh) [
        | inl gone ↦ absurd (let no : some s ≡ none = sym o ∙ gone in cc)
        | inr (s', o', c) ↦
            let same : some s ≡ some s' = sym o ∙ o' in
            let eq : s.created ≡ s'.created =
              ap (λ x. elim x [ none ↦ 0 | some y ↦ y.created ]) same in
            omega (arith, bound, eq, c)
      ]
