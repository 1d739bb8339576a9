-- ===== src/Admin/Password.antt =====
-- The change of the admin password.
use mathlib.Core.Path.{subst}
use blt.Base.{
  ℕ, ◌≤◌, ◌≡◌, refl, sym, ap, ◌∙◌, Bool, true, false, Option, none, some, arith, ltb, inl, inr,
  Bool-cases, Option-cases,
}
use blt.Base.Assoc.{lookup, insert_at}
use blt.Base.Result.{ok, err}
use blt.Base.Text.{Text, ◌=t◌, =t_self}
use blt.Pathsafe.{byte_len}
use blt.Admin.{
  Gate, session_new, session_clear, min_password_len, renew, change_password, unauthorized,
  conflict, bad_request, internal,
}
use blt.Admin.Sessions.{session_of}

renew_lem :
    (g : Gate) (now : ℕ) (new_hash : Text) (saved : Bool) (token : Text)
    → (renew g now new_hash saved token).0 ≡ ok token
    → ((renew g now new_hash saved token).1.password_hash ≡ some new_hash)
      × (session_of (renew g now new_hash saved token).1 token
          ≡ some (record { created = now; last_seen = now }))
      × ((other : Text)
          → (token =t other) ≡ false
          → session_of (renew g now new_hash saved token).1 other ≡ none)
unfolding renew session_new session_clear lookup insert_at
renew_lem g now new_hash true token h = (refl, rw (=t_self token) refl, λ other ne. rw ne refl)
renew_lem g now new_hash false token h = absurd (cc)

module _ (parses : Text → Bool) (verifies : Text → Text → Bool)
    (hash_password : Text → Option Text) where
  -- What a change that succeeds has done.
  pub record IsChanged (g : Gate) (now : ℕ) (current new : Text) (token : Text) (g' : Gate)
      : Type 0 where
    pub verified :
        (stored : Text) × (g.password_hash ≡ some stored) × (verifies stored current ≡ true)
    pub long : min_password_len ≤ byte_len new
    pub hashed :
        (new_hash : Text) × (hash_password new ≡ some new_hash) × (g'.password_hash ≡ some new_hash)
    pub opened : session_of g' token ≡ some (record { created = now; last_seen = now })
    pub revoked : (other : Text) → (token =t other) ≡ false → session_of g' other ≡ none

  -- A password change that succeeds was made with the current password, stored the hash of the new
  -- one, which has eight bytes or more, and revoked every session but the one it returns.
  pub change_password-IsChanged :
      (g : Gate) (now : ℕ) (current new : Text) (saved : Bool) (token : Text)
      → (change_password parses verifies hash_password g now current new saved token).0 ≡ ok token
      → IsChanged g now current new token
          (change_password parses verifies hash_password g now current new saved token).1
  unfolding change_password
  change_password-IsChanged g now current new saved token h = elim (Option-cases g.password_hash) [
    | inl o ↦ absurd (let bad : err conflict ≡ ok token = rw (change_password, o) at h in cc)
    | inr (stored, o) ↦ elim (Bool-cases (parses stored)) [
      | inr p ↦ absurd (let bad : err internal ≡ ok token = rw (change_password, o, p) at h in cc)
      | inl p ↦ elim (Bool-cases (verifies stored current)) [
        | inr v ↦
            absurd
              (let bad : err unauthorized ≡ ok token = rw (change_password, o, p, v) at h in cc)
        | inl v ↦ elim (Bool-cases (ltb (byte_len new) min_password_len)) [
          | inl s ↦
              absurd
                (let bad : err bad_request ≡ ok token = rw (change_password, o, p, v, s) at h in cc)
          | inr s ↦ elim (Option-cases (hash_password new)) [
            | inl q ↦
                absurd (
                  let bad : err internal ≡ ok token = rw (change_password, o, p, v, s, q) at h in
                  cc)
            | inr (new_hash, q) ↦
                let same : change_password parses verifies hash_password g now current new saved
                      token
                    ≡ renew g now new_hash saved token =
                  simp (change_password, o, p, v, s, q) in
                let (hashed, opened, revoked) =
                  renew_lem g now new_hash saved token (ap (λ x. x.0) (sym same) ∙ h) in
                subst (λ x. IsChanged g now current new token x.1) (sym same)
                  (record {
                    verified = (stored, o, v);
                    long = ground (arith, s);
                    hashed = (new_hash, q, hashed);
                    opened = opened;
                    revoked = revoked;
                  })
          ]
        ]
      ]
    ]
  ]
