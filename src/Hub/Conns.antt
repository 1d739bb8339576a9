-- ===== src/Hub/Conns.antt =====
-- The connections of the registry: what each operation does to the connection of an id.
use blt.Base.{
  ℕ, ◌+◌, ◌<◌, ◌≡◌, refl, ◌∙◌, none, some, ==_iff, if◌then◌else◌, inl, inr, Bool-cases,
  Option-cases, ◌==◌,
}
use mathlib.Core.Option
use mathlib.Core.Path.{subst}
use blt.Base.Assoc.{lookup, erase, lookup-insert_at, lookup-erase}
use blt.Base.Text.{Text}
use blt.Hub.{Conn, SessionRegistry, get_conn, on_conn, new_conn, has_client, add, remove}

pub get_conn-on_conn :
    (r : SessionRegistry) (id other : ℕ) (f : Conn → Conn)
    → get_conn (on_conn r id f) other
      ≡ (if id == other then Option.map f (get_conn r other) else get_conn r other)
unfolding lookup
get_conn-on_conn r id other f = elim (Option-cases (get_conn r id)) [
  | inl o ↦
      rw (on_conn, o)
        (elim (Bool-cases (id == other)) [
          | inr e ↦ rw e refl
          | inl e ↦
              let same : get_conn r other ≡ none =
                subst (λ k. get_conn r k ≡ none) ((==_iff id other).0 e) o in
              rw (e, same) refl
        ])
  | inr (c, o) ↦
      rw (on_conn, o)
        (lookup-insert_at ◌==◌ ==_iff id other (f c) r.conns ∙ elim (Bool-cases (id == other)) [
          | inr e ↦ rw e refl
          | inl e ↦
              let same : get_conn r other ≡ some c =
                subst (λ k. get_conn r k ≡ some c) ((==_iff id other).0 e) o in
              rw (e, same) refl
        ])
]

pub get_conn-add :
    (r : SessionRegistry) (client_id : Text) (other : ℕ)
    → get_conn (add r client_id).0 other ≡ (
        if (add r client_id).1 == other
        then some (new_conn (add r client_id).1 client_id)
        else get_conn r other)
unfolding add
get_conn-add r client_id other =
    lookup-insert_at ◌==◌ ==_iff (r.next_id + 1) other (new_conn (r.next_id + 1) client_id) r.conns

pub get_conn-remove :
    (r : SessionRegistry) (id other : ℕ)
    → get_conn (remove r id) other ≡ (if id == other then none else get_conn r other)
unfolding remove lookup
get_conn-remove r id other = elim (Option-cases (get_conn r id)) [
  | inl o ↦
      rw (remove, o)
        (elim (Bool-cases (id == other)) [
          | inr e ↦ rw e refl
          | inl e ↦
              let same : get_conn r other ≡ none =
                subst (λ k. get_conn r k ≡ none) ((==_iff id other).0 e) o in
              rw (e, same) refl
        ])
  | inr (c, o) ↦
      rw (remove, o)
        (elim (Bool-cases (has_client c.client_id (erase ◌==◌ id r.conns))) [
          | inl e ↦ rw e (lookup-erase ◌==◌ ==_iff id other r.conns)
          | inr e ↦ rw e (lookup-erase ◌==◌ ==_iff id other r.conns)
        ])
]

-- Every id is at most the counter, so the next one is fresh.
abbrev pub Bounded : SessionRegistry → Type 0
Bounded r = (id : ℕ) → r.next_id < id → get_conn r id ≡ none
