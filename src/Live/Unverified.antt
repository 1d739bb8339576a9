-- ===== src/Live/Unverified.antt =====
-- That no connection is verified, through every operation of the registry but the verification.
use mathlib.Core.Option
use blt.Base.{
  ℕ, ◌≡◌, refl, sym, ap, ◌∙◌, Bool, false, Option, none, some, inl, inr, Bool-cases, Option-cases,
  ◌==◌,
}
use blt.Base.Assoc.{lookup}
use blt.Base.Text.{Text}
use blt.Hub.{
  Conn, Mode, SessionRegistry, get_conn, on_conn, add, remove, update_hello, is_playback_verified,
  update_activity, announce_peer, unannounce_peer, same_title,
}
use blt.Hub.Conns.{get_conn-on_conn, get_conn-add, get_conn-remove}

-- No connection is verified.
abbrev pub Unverified : SessionRegistry → Type 0
Unverified r = (id : ℕ) → is_playback_verified r id ≡ false

abbrev verified_of : Option Conn → Bool
verified_of none = false
verified_of (some c) = c.playback_verified

pub is_playback_verified-eq :
    (r : SessionRegistry) (id : ℕ) → is_playback_verified r id ≡ verified_of (get_conn r id)
unfolding is_playback_verified
is_playback_verified-eq r id = elim (Option-cases (get_conn r id)) [
  | inl o ↦ rw (is_playback_verified, o) refl
  | inr (c, o) ↦ rw (is_playback_verified, o) refl
]

-- It is enough that every connection stays unverified or is a new one.
pub Unverified-of :
    (r r' : SessionRegistry)
    → Unverified r
    → ((id : ℕ) → verified_of (get_conn r id) ≡ false → verified_of (get_conn r' id) ≡ false)
    → Unverified r'
Unverified-of r r' u f id =
    is_playback_verified-eq r' id ∙ f id (sym (is_playback_verified-eq r id) ∙ u id)

pub map_unverified :
    (o : Option Conn) (f : Conn → Conn)
    → ((c : Conn) → c.playback_verified ≡ false → (f c).playback_verified ≡ false)
    → verified_of o ≡ false
    → verified_of (Option.map f o) ≡ false
map_unverified none f k h = refl
map_unverified (some c) f k h = k c h

pub on_conn-Unverified :
    (r : SessionRegistry) (conn_id : ℕ) (f : Conn → Conn)
    → ((c : Conn) → c.playback_verified ≡ false → (f c).playback_verified ≡ false)
    → Unverified r
    → Unverified (on_conn r conn_id f)
on_conn-Unverified r conn_id f k u = Unverified-of r (on_conn r conn_id f) u (λ id h.
    ap verified_of (get_conn-on_conn r conn_id id f) ∙ elim (Bool-cases (conn_id == id)) [
      | inl e ↦ rw e (map_unverified (get_conn r id) f k h)
      | inr e ↦ rw e h
    ])

pub add-Unverified : (r : SessionRegistry) (cid : Text) → Unverified r → Unverified (add r cid).0
add-Unverified r cid u = Unverified-of r (add r cid).0 u (λ id h.
    ap verified_of (get_conn-add r cid id)
    ∙ elim (Bool-cases ((add r cid).1 == id)) [ inl e ↦ rw e refl | inr e ↦ rw e h ])

pub remove-Unverified :
    (r : SessionRegistry) (conn_id : ℕ) → Unverified r → Unverified (remove r conn_id)
remove-Unverified r conn_id u = Unverified-of r (remove r conn_id) u (λ id h.
    ap verified_of (get_conn-remove r conn_id id)
    ∙ elim (Bool-cases (conn_id == id)) [ inl e ↦ rw e refl | inr e ↦ rw e h ])

pub update_hello-Unverified :
    (r : SessionRegistry) (id : ℕ) (cid dn mn : Text) (mode : Mode)
    → Unverified r
    → Unverified (update_hello r id cid dn mn mode)
unfolding update_hello
update_hello-Unverified r id cid dn mn mode u =
    on_conn-Unverified r id
      (λ c. record c {
        client_id = cid;
        display_name = dn;
        machine_name = mn;
        mode = mode;
        playback_verified = false;
      })
      (λ c h. refl) u

pub update_activity-Unverified :
    (r : SessionRegistry) (id : ℕ) (doing : Text) (bps : Option ℕ) (so : Bool)
    → Unverified r
    → Unverified (update_activity r id doing bps so)
unfolding update_activity
update_activity-Unverified r id doing bps so u =
    on_conn-Unverified r id
      (λ c. record c { activity = doing; throughput_bps = bps; server_only = so }) (λ c h. h) u

pub announce_peer-conns :
    (r : SessionRegistry) (cid : Text) (t v : ℕ) (ep : Text)
    → (announce_peer r cid t v ep).conns ≡ r.conns
unfolding announce_peer
announce_peer-conns r cid t v ep = refl

pub unannounce_peer-conns :
    (r : SessionRegistry) (cid : Text) (t v : ℕ) → (unannounce_peer r cid t v).conns ≡ r.conns
unfolding unannounce_peer
unannounce_peer-conns r cid t v = elim (Option-cases (lookup same_title (t, v) r.peers)) [
  | inl o ↦ rw (unannounce_peer, o) refl
  | inr (seeds, o) ↦ rw (unannounce_peer, o) refl
]

pub conns-Unverified : (r r' : SessionRegistry) → r'.conns ≡ r.conns → Unverified r → Unverified r'
conns-Unverified r r' e u =
    Unverified-of r r' u (λ id h. ap (λ c. verified_of (lookup ◌==◌ id c)) e ∙ h)
