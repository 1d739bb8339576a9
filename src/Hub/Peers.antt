-- ===== src/Hub/Peers.antt =====
-- The peers of the registry as a map from a title's version and a client to the client's endpoint.
use blt.Base.{
  ℕ, ◌≡◌, ◌↔◌, refl, sym, ap, ◌∙◌, true, false, not, ◌==◌, ◌&&◌, Option, none, some, [], ◌∷◌, arith,
  ==_iff, &&_iff, if◌then◌else◌, inl, inr, Bool-cases, Option-cases,
}
use blt.Base.Assoc.{
  lookup, insert_at, erase, Distinct, lookup-insert_at, lookup-erase, insert_at-Distinct,
  erase-Distinct,
}
use blt.Base.Text.{Text, ◌=t◌, =t_iff}
use blt.Hub.{
  Conn, get_conn, remove, has_client, Seeds, Peers, SessionRegistry, same_title, or_default,
  drop_client, announce_peer, unannounce_peer, put_seeds, retain,
}

pub same_title_iff : (a b : ℕ × ℕ) → (same_title a b ≡ true) ↔ (a ≡ b)
same_title_iff (a, b) (c, d) = (
  λ h.
      let (p, q) = (&&_iff _ _).0 h in
      let x : a ≡ c = (==_iff a c).0 p in let y : b ≡ d = (==_iff b d).0 q in cc,
  λ h. (&&_iff _ _).1 ((==_iff a c).1 (ap (λ p. p.0) h), (==_iff b d).1 (ap (λ p. p.1) h)),
)

-- The endpoint that the client announced for the title.
abbrev pub endpoint : Peers → ℕ × ℕ → Text → Option Text
endpoint peers title cid = lookup ◌=t◌ cid (or_default (lookup same_title title peers))

-- What the two statements on the outer map do to the endpoints.
insert_at-endpoint :
    (peers : Peers) (key title : ℕ × ℕ) (seeds : Seeds) (cid : Text)
    → endpoint (insert_at same_title key seeds peers) title cid
      ≡ (if same_title key title then lookup ◌=t◌ cid seeds else endpoint peers title cid)
insert_at-endpoint peers key title seeds cid = elim (Bool-cases (same_title key title)) [
  | inl e ↦ rw (lookup-insert_at same_title same_title_iff key title seeds peers, e) refl
  | inr e ↦ rw (lookup-insert_at same_title same_title_iff key title seeds peers, e) refl
]

erase-endpoint :
    (peers : Peers) (key title : ℕ × ℕ) (cid : Text)
    → endpoint (erase same_title key peers) title cid
      ≡ (if same_title key title then none else endpoint peers title cid)
unfolding lookup
erase-endpoint peers key title cid = elim (Bool-cases (same_title key title)) [
  | inl e ↦ rw (lookup-erase same_title same_title_iff key title peers, e) refl
  | inr e ↦ rw (lookup-erase same_title same_title_iff key title peers, e) refl
]

endpoint_same :
    (peers : Peers) (key title : ℕ × ℕ) (cid : Text)
    → same_title key title ≡ true
    → endpoint peers key cid ≡ endpoint peers title cid
endpoint_same peers key title cid e =
    ap (λ k. endpoint peers k cid) ((same_title_iff key title).0 e)

pub announce_peer-endpoint :
    (r : SessionRegistry) (cid : Text) (t v : ℕ) (ep : Text) (title : ℕ × ℕ) (other : Text)
    → endpoint (announce_peer r cid t v ep).peers title other ≡ (
        if same_title (t, v) title && (cid =t other) then some ep else endpoint r.peers title other)
unfolding announce_peer
announce_peer-endpoint r cid t v ep title other =
    let seeds : Seeds = or_default (lookup same_title (t, v) r.peers) in
    insert_at-endpoint r.peers (t, v) title (insert_at ◌=t◌ cid ep seeds) other
    ∙ elim (Bool-cases (same_title (t, v) title)) [
      | inr e ↦ rw e refl
      | inl e ↦
          rw
            (
              e,
              lookup-insert_at ◌=t◌ =t_iff cid other ep seeds,
              endpoint_same r.peers (t, v) title other e,
            )
            refl
    ]

put_seeds-endpoint :
    (peers : Peers) (key title : ℕ × ℕ) (seeds : Seeds) (cid : Text)
    → endpoint (put_seeds key seeds peers) title cid
      ≡ (if same_title key title then lookup ◌=t◌ cid seeds else endpoint peers title cid)
unfolding lookup
put_seeds-endpoint peers key title [] cid = erase-endpoint peers key title cid
put_seeds-endpoint peers key title (seed ∷ more) cid =
    insert_at-endpoint peers key title (seed ∷ more) cid

pub unannounce_peer-endpoint :
    (r : SessionRegistry) (cid : Text) (t v : ℕ) (title : ℕ × ℕ) (other : Text)
    → endpoint (unannounce_peer r cid t v).peers title other
      ≡ (if same_title (t, v) title && (cid =t other) then none else endpoint r.peers title other)
unfolding unannounce_peer lookup
unannounce_peer-endpoint r cid t v title other =
    elim (Option-cases (lookup same_title (t, v) r.peers)) [
      | inl o ↦
          rw (unannounce_peer, o)
            (let gone : endpoint r.peers (t, v) other ≡ none = rw o refl in
              elim (Bool-cases (same_title (t, v) title)) [
                | inr e ↦ rw e refl
                | inl e ↦ rw e (elim (Bool-cases (cid =t other)) [
                  | inr h ↦ rw h refl
                  | inl h ↦ rw h (sym (endpoint_same r.peers (t, v) title other e) ∙ gone)
                ])
              ])
      | inr (seeds, o) ↦
          rw (unannounce_peer, o)
            (let here : endpoint r.peers (t, v) other ≡ lookup ◌=t◌ other seeds = rw o refl in
              put_seeds-endpoint r.peers (t, v) title (erase ◌=t◌ cid seeds) other
              ∙ elim (Bool-cases (same_title (t, v) title)) [
                | inr e ↦ rw e refl
                | inl e ↦
                    rw
                      (
                        e,
                        lookup-erase ◌=t◌ =t_iff cid other seeds,
                        sym (endpoint_same r.peers (t, v) title other e),
                        here,
                      )
                      refl
              ])
    ]

-- Dropping a client, where no title stands twice.
lookup-retain :
    (key title : ℕ × ℕ) (seeds : Seeds) (peers : Peers)
    → same_title key title ≡ false
    → lookup same_title title (retain key seeds peers) ≡ lookup same_title title peers
unfolding lookup
lookup-retain key title [] peers e = refl
lookup-retain key title (seed ∷ more) peers e = rw e refl

lookup-drop_client :
    (cid : Text) (title : ℕ × ℕ) (peers : Peers)
    → lookup same_title title peers ≡ none
    → lookup same_title title (drop_client cid peers) ≡ none
unfolding lookup drop_client
lookup-drop_client cid title [] h = refl
lookup-drop_client cid title ((key, seeds) ∷ peers) h = elim (Bool-cases (same_title key title)) [
  | inl e ↦ absurd (let no : some seeds ≡ none = rw e at h in cc)
  | inr e ↦
      lookup-retain key title (erase ◌=t◌ cid seeds) (drop_client cid peers) e
      ∙ lookup-drop_client cid title peers (rw e at h)
]

retain-endpoint :
    (key title : ℕ × ℕ) (seeds : Seeds) (peers : Peers) (other : Text)
    → lookup same_title key peers ≡ none
    → endpoint (retain key seeds peers) title other
      ≡ (if same_title key title then lookup ◌=t◌ other seeds else endpoint peers title other)
unfolding lookup
retain-endpoint key title [] peers other h = elim (Bool-cases (same_title key title)) [
  | inl e ↦
      rw e
        (sym (endpoint_same peers key title other e) ∙ ap (λ o. lookup ◌=t◌ other (or_default o)) h)
  | inr e ↦ rw e refl
]
retain-endpoint key title (seed ∷ more) peers other h = elim (Bool-cases (same_title key title)) [
  | inl e ↦ rw e refl
  | inr e ↦ rw e refl
]

pub drop_client-endpoint :
    (cid : Text) (peers : Peers) (title : ℕ × ℕ) (other : Text)
    → Distinct same_title peers
    → endpoint (drop_client cid peers) title other
      ≡ (if cid =t other then none else endpoint peers title other)
unfolding lookup drop_client
drop_client-endpoint cid [] title other d = ground arith
drop_client-endpoint cid ((key, seeds) ∷ peers) title other d =
    retain-endpoint key title (erase ◌=t◌ cid seeds) (drop_client cid peers) other
      (lookup-drop_client cid key peers d.0)
    ∙ elim (Bool-cases (same_title key title)) [
      | inl e ↦ rw (e, lookup-erase ◌=t◌ =t_iff cid other seeds) refl
      | inr e ↦ rw (e, drop_client-endpoint cid peers title other d.1) refl
    ]

-- What remains true of the outer map.
drop_client-Distinct :
    (cid : Text) (peers : Peers)
    → Distinct same_title peers
    → Distinct same_title (drop_client cid peers)
unfolding drop_client
drop_client-Distinct cid [] d = tt
drop_client-Distinct cid ((key, seeds) ∷ peers) d =
    elim (erase ◌=t◌ cid seeds)
      as (λ x. Distinct same_title (retain key x (drop_client cid peers))) [
        | [] ↦ drop_client-Distinct cid peers d.1
        | seed ∷ more ↦ (lookup-drop_client cid key peers d.0, drop_client-Distinct cid peers d.1)
      ]

put_seeds-Distinct :
    (title : ℕ × ℕ) (seeds : Seeds) (peers : Peers)
    → Distinct same_title peers
    → Distinct same_title (put_seeds title seeds peers)
put_seeds-Distinct title [] peers d = erase-Distinct same_title same_title_iff title peers d
put_seeds-Distinct title (seed ∷ more) peers d =
    insert_at-Distinct same_title same_title_iff title (seed ∷ more) peers d

pub announce_peer-Distinct :
    (r : SessionRegistry) (cid : Text) (t v : ℕ) (ep : Text)
    → Distinct same_title r.peers
    → Distinct same_title (announce_peer r cid t v ep).peers
unfolding announce_peer
announce_peer-Distinct r cid t v ep d =
    insert_at-Distinct same_title same_title_iff (t, v)
      (insert_at ◌=t◌ cid ep (or_default (lookup same_title (t, v) r.peers))) r.peers d

-- When a connection goes, its client's endpoints go, unless another connection has the same client;
-- those of every other client stay.
pub remove-endpoint :
    (r : SessionRegistry) (id : ℕ) (c : Conn) (title : ℕ × ℕ) (other : Text)
    → get_conn r id ≡ some c
    → Distinct same_title r.peers
    → endpoint (remove r id).peers title other ≡ (
        if (c.client_id =t other) && not (has_client c.client_id (erase ◌==◌ id r.conns))
        then none
        else endpoint r.peers title other)
unfolding remove
remove-endpoint r id c title other o d =
    elim (Bool-cases (has_client c.client_id (erase ◌==◌ id r.conns))) [
      | inl e ↦ elim (Bool-cases (c.client_id =t other)) [
        | inl h ↦ simp (remove, o, e, h)
        | inr h ↦ simp (remove, o, e, h)
      ]
      | inr e ↦ elim (Bool-cases (c.client_id =t other)) [
        | inl h ↦
            simp (remove, o, e, h)
              (drop_client-endpoint c.client_id r.peers title other d ∙ simp (h))
        | inr h ↦
            simp (remove, o, e, h)
              (drop_client-endpoint c.client_id r.peers title other d ∙ simp (h))
      ]
    ]
