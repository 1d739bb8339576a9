-- ===== src/Hub.antt =====
-- crates/server/src/ws.rs: the registry of the live connections and of the peers that seed a title. A
-- `HashMap` is an Assoc list. The channel of a connection is the connection's id: a send is the list
-- of the ids that get the message. Connection ids do not reach 2^64.
pub mod Peers
pub mod Listed
pub mod Conns
mod Examples
use mathlib.Core.Option
use blt.Base.{
  ℕ, ◌+◌, Bool, true, false, not, ◌&&◌, Option, none, some, List, [], ◌∷◌, ◌++◌, map, leb, ◌==◌,
  length, if◌then◌else◌, filter, any,
}
use blt.Base.Assoc.{lookup, insert_at, erase}
use blt.Base.Sort.{sort}
use blt.Base.Text.{Text, text, ◌=t◌, text_le}

pub data Mode : Type 0 where
  client playback : Mode

abbrev pub is_playback : Mode → Bool
is_playback client = false
is_playback playback = true

pub record Conn : Type 0 where
  pub id : ℕ
  pub client_id : Text
  pub display_name : Text
  pub machine_name : Text
  pub mode : Mode
  pub activity : Text
  pub server_only : Bool
  pub throughput_bps : Option ℕ
  pub playback_verified : Bool

abbrev pub Seeds : Type 0
Seeds = List (Text × Text)  -- client id and chunk endpoint

abbrev pub Peers : Type 0
Peers = List ((ℕ × ℕ) × Seeds)  -- by title id and manifest version

pub record SessionRegistry : Type 0 where
  pub next_id : ℕ
  pub conns : List (ℕ × Conn)
  pub peers : Peers

pub record PeerEntry : Type 0 where
  pub client_id : Text
  pub chunk_endpoint : Text

pub record RosterEntry : Type 0 where
  pub client_id : Text
  pub display_name : Text
  pub machine_name : Text
  pub activity : Text
  pub server_only : Bool
  pub throughput_bps : Option ℕ

abbrev pub same_title : ℕ × ℕ → ℕ × ℕ → Bool
same_title (t, v) (t', v') = (t == t') && (v == v')

abbrev pub empty_registry : SessionRegistry
empty_registry = record { next_id = 0; conns = []; peers = [] }

-- `self.conns.get(&conn_id)`
abbrev pub get_conn : SessionRegistry → ℕ → Option Conn
get_conn r conn_id = lookup ◌==◌ conn_id r.conns

-- What `if let Some(c) = self.conns.get_mut(&conn_id)` does with `f`.
abbrev pub on_conn : SessionRegistry → ℕ → (Conn → Conn) → SessionRegistry
on_conn r conn_id f = elim (get_conn r conn_id) [
  | none ↦ r
  | some c ↦ record r { conns = insert_at ◌==◌ conn_id (f c) r.conns }
]

abbrev pub new_conn : ℕ → Text → Conn
new_conn id client_id = record {
  id = id;
  client_id = client_id;
  display_name = [];
  machine_name = [];
  mode = client;
  activity = text "idle";
  server_only = false;
  throughput_bps = none;
  playback_verified = false;
}

unfoldable pub add : SessionRegistry → Text → SessionRegistry × ℕ
unfolding insert_at
add r client_id =
    let id = r.next_id + 1 in
    (record r { next_id = id; conns = insert_at ◌==◌ id (new_conn id client_id) r.conns }, id)

unfoldable pub playback_count : SessionRegistry → ℕ
playback_count r = length (filter (λ (id, c). is_playback c.mode) r.conns)

-- `retain(|_, set| !set.is_empty())`, for one title.
abbrev pub retain : ℕ × ℕ → Seeds → Peers → Peers
retain title [] peers = peers
retain title (seed ∷ more) peers = (title, seed ∷ more) ∷ peers

-- The client's entries go from every title; a title without entries goes.
unfoldable pub drop_client : Text → Peers → Peers
unfolding erase
drop_client client_id [] = []
drop_client client_id ((title, seeds) ∷ peers) =
    retain title (erase ◌=t◌ client_id seeds) (drop_client client_id peers)

abbrev pub has_client : Text → List (ℕ × Conn) → Bool
has_client client_id conns = any (λ (id, c). c.client_id =t client_id) conns

unfoldable pub remove : SessionRegistry → ℕ → SessionRegistry
unfolding lookup erase drop_client
remove r conn_id = elim (get_conn r conn_id) [
  | none ↦ r
  | some c ↦
      let conns = erase ◌==◌ conn_id r.conns in
      if has_client c.client_id conns
      then record r { conns = conns }
      else record r { conns = conns; peers = drop_client c.client_id r.peers }
]

unfoldable pub update_hello : SessionRegistry → ℕ → Text → Text → Text → Mode → SessionRegistry
unfolding lookup insert_at
update_hello r conn_id client_id display_name machine_name mode = on_conn r conn_id (λ c. record c {
  client_id = client_id;
  display_name = display_name;
  machine_name = machine_name;
  mode = mode;
  playback_verified = false;
})

unfoldable pub mark_playback_verified : SessionRegistry → ℕ → SessionRegistry
unfolding lookup insert_at
mark_playback_verified r conn_id = on_conn r conn_id (λ c. record c { playback_verified = true })

unfoldable pub is_playback_verified : SessionRegistry → ℕ → Bool
unfolding lookup
is_playback_verified r conn_id = elim (get_conn r conn_id) [
  | none ↦ false
  | some c ↦ c.playback_verified
]

unfoldable pub is_server_only : SessionRegistry → Text → Bool
is_server_only r client_id = any (λ (id, c). (c.client_id =t client_id) && c.server_only) r.conns

-- May the peer be handed to the client?
abbrev pub offered : SessionRegistry → Text → Text → Bool
offered r exclude cid = not (cid =t exclude) && not (is_server_only r cid)

-- The inner loop: the entries so far, newest last; `true` is the early return.
unfoldable pub probe_seeds :
    SessionRegistry → Text → ℕ → Seeds → List PeerEntry → List PeerEntry × Bool
unfolding is_server_only
probe_seeds r exclude n [] out = (out, false)
probe_seeds r exclude n ((cid, ep) ∷ seeds) out =
    if offered r exclude cid && not (any (λ (e : PeerEntry). e.chunk_endpoint =t ep) out)
    then (let out' = out ++ record { client_id = cid; chunk_endpoint = ep } ∷ [] in
        if leb n (length out') then (out', true) else probe_seeds r exclude n seeds out')
    else probe_seeds r exclude n seeds out

unfoldable pub probe_titles : SessionRegistry → Text → ℕ → Peers → List PeerEntry → List PeerEntry
unfolding probe_seeds
probe_titles r exclude n [] out = out
probe_titles r exclude n ((title, seeds) ∷ peers) out =
    let (out', full) = probe_seeds r exclude n seeds out in
    if full then out' else probe_titles r exclude n peers out'

unfoldable pub probe_candidates : SessionRegistry → Text → ℕ → List PeerEntry
unfolding probe_titles
probe_candidates r exclude_client n = probe_titles r exclude_client n r.peers []

unfoldable pub update_activity : SessionRegistry → ℕ → Text → Option ℕ → Bool → SessionRegistry
unfolding lookup insert_at
update_activity r conn_id activity throughput_bps server_only = on_conn r conn_id (λ c. record c {
  activity = activity;
  throughput_bps = throughput_bps;
  server_only = server_only;
})

-- `entry(..).or_default()`
abbrev pub or_default : Option Seeds → Seeds
or_default none = []
or_default (some seeds) = seeds

unfoldable pub announce_peer : SessionRegistry → Text → ℕ → ℕ → Text → SessionRegistry
unfolding lookup insert_at
announce_peer r client_id title_id manifest_ver chunk_endpoint =
    let seeds = or_default (lookup same_title (title_id, manifest_ver) r.peers) in
    record r {
      peers =
          insert_at same_title (title_id, manifest_ver)
            (insert_at ◌=t◌ client_id chunk_endpoint seeds) r.peers;
    }

-- A title whose last entry is gone goes too.
abbrev pub put_seeds : ℕ × ℕ → Seeds → Peers → Peers
put_seeds title [] peers = erase same_title title peers
put_seeds title (seed ∷ more) peers = insert_at same_title title (seed ∷ more) peers

unfoldable pub unannounce_peer : SessionRegistry → Text → ℕ → ℕ → SessionRegistry
unfolding lookup insert_at erase
unannounce_peer r client_id title_id manifest_ver =
    elim (lookup same_title (title_id, manifest_ver) r.peers) [
      | none ↦ r
      | some seeds ↦ record r {
        peers = put_seeds (title_id, manifest_ver) (erase ◌=t◌ client_id seeds) r.peers;
      }
    ]

abbrev pub entry_of : Text × Text → PeerEntry
entry_of (cid, ep) = record { client_id = cid; chunk_endpoint = ep }

unfoldable pub peers_for : SessionRegistry → ℕ → ℕ → Text → List PeerEntry
unfolding lookup is_server_only
peers_for r title_id manifest_ver exclude_client =
    elim (lookup same_title (title_id, manifest_ver) r.peers) [
      | none ↦ []
      | some seeds ↦ map entry_of (filter (λ (cid, ep). offered r exclude_client cid) seeds)
    ]

abbrev pub roster_entry : Conn → RosterEntry
roster_entry c = record {
  client_id = c.client_id;
  display_name = c.display_name;
  machine_name = c.machine_name;
  activity = c.activity;
  server_only = c.server_only;
  throughput_bps = c.throughput_bps;
}

abbrev pub name_le : RosterEntry → RosterEntry → Bool
name_le a b = text_le a.display_name b.display_name

unfoldable pub roster : SessionRegistry → List RosterEntry
unfolding sort
roster r = sort name_le (map (λ (id, c). roster_entry c) r.conns)

-- The connections that a message goes to.
abbrev pub broadcast : SessionRegistry → List ℕ
broadcast r = map (λ (id, c). id) r.conns

unfoldable pub send_to_client : SessionRegistry → Text → List ℕ
send_to_client r client_id =
    map (λ (id, c). id) (filter (λ (id, c). c.client_id =t client_id) r.conns)

unfoldable pub conns_snapshot : SessionRegistry → List (ℕ × Text)
conns_snapshot r = map (λ (id, c). (c.id, c.client_id)) r.conns

unfoldable pub conn_info : SessionRegistry → ℕ → Option (Text × Text × Mode)
unfolding lookup
conn_info r conn_id =
    Option.map (λ (c : Conn). (c.client_id, c.display_name, c.mode)) (get_conn r conn_id)

abbrev pub conn_count : SessionRegistry → ℕ
conn_count r = length r.conns
