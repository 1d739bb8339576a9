-- ===== src/Live/Seeding.antt =====
-- Peers that are announced before the Hello.
use mathlib.Core.Path.{subst}
use blt.Base.{ℕ, ◌≡◌, refl, sym, ap, ◌∙◌, Bool, true, false, some, [], ◌∷◌, ◌==◌, ==_iff, if_either}
use blt.Base.Assoc.{lookup, insert_at, Distinct, lookup-insert_at}
use blt.Base.Text.{Text, ◌=t◌}
use blt.Hub.{SessionRegistry, same_title, get_conn, new_conn, add, remove, announce_peer, conn_info}
use blt.Hub.Conns.{get_conn-add}
use blt.Hub.Peers.{endpoint, announce_peer-Distinct, announce_peer-endpoint, remove-endpoint}
use blt.Live.{
  announce, Remote, Server, Moment, Socket, World, Event, connects, receives, disconnects,
  on_announce, handle_client_msg, connect, disconnect_server, disconnect, receive, run,
  normalize_endpoint, plays_back,
}

disconnect_server-sessions :
    (s : Server) (id : ℕ) → (disconnect_server s id).0.sessions ≡ remove s.sessions id
unfolding disconnect_server
disconnect_server-sessions s id =
    if_either (λ (r : Server × blt.Live.Out). r.0.sessions ≡ remove s.sessions id) _ _ _ refl refl

add-peers : (r : SessionRegistry) (anon : Text) → (add r anon).0.peers ≡ r.peers
unfolding add
add-peers r anon = refl

module _ (parses : Text → Bool) (verifies : Text → Text → Bool) (w : World) (anon : Text)
    (remote : Remote) (uuid label : Text) where
  abbrev opened : World
  opened = (connect w anon remote uuid label).0

  abbrev pub new_id : ℕ
  new_id = (add w.server.sessions anon).1

  opened-socket :
      lookup ◌==◌ new_id opened.sockets ≡ some (record { client_id = []; remote = remote })
  unfolding connect
  opened-socket =
      lookup-insert_at ◌==◌ ==_iff new_id new_id (record { client_id = []; remote = remote })
        w.sockets
      ∙ (let self : (new_id == new_id) ≡ true = (==_iff new_id new_id).1 refl in simp (self))

  opened-conn : get_conn opened.server.sessions new_id ≡ some (new_conn new_id anon)
  unfolding connect
  opened-conn =
      get_conn-add w.server.sessions anon new_id
      ∙ (let self : (new_id == new_id) ≡ true = (==_iff new_id new_id).1 refl in simp (self))

  -- The announcement is accepted, for the empty client id.
  announced :
      (m : Moment) (t v : ℕ) (ep : Text)
      → (receive parses verifies opened new_id m (announce t v ep)).0.server.sessions
        ≡ announce_peer opened.server.sessions [] t v (normalize_endpoint ep remote)
  unfolding receive handle_client_msg on_announce conn_info
  announced m t v ep =
      simp (receive, opened-socket, handle_client_msg, on_announce, conn_info, opened-conn)

  module _ (m : Moment) (t v : ℕ) (ep : Text) where
    abbrev told : World
    told = (receive parses verifies opened new_id m (announce t v ep)).0

    told-sockets :
        (receive parses verifies opened new_id m (announce t v ep)).0.sockets
        ≡ insert_at ◌==◌ new_id (record { client_id = []; remote = remote }) opened.sockets
    unfolding receive handle_client_msg
    told-sockets = simp (receive, opened-socket, handle_client_msg)

    told-socket :
        lookup ◌==◌ new_id told.sockets ≡ some (record { client_id = []; remote = remote })
    told-socket =
        ap (lookup ◌==◌ new_id) told-sockets
        ∙ lookup-insert_at ◌==◌ ==_iff new_id new_id (record { client_id = []; remote = remote })
            opened.sockets
        ∙ (let self : (new_id == new_id) ≡ true = (==_iff new_id new_id).1 refl in simp (self))

    told-conn : get_conn told.server.sessions new_id ≡ some (new_conn new_id anon)
    unfolding announce_peer
    told-conn = ap (λ r. get_conn r new_id) (announced m t v ep) ∙ opened-conn

    told-Distinct :
        Distinct same_title w.server.sessions.peers → Distinct same_title told.server.sessions.peers
    unfolding connect
    told-Distinct d =
        subst (λ (r : SessionRegistry). Distinct same_title r.peers) (sym (announced m t v ep))
          (announce_peer-Distinct opened.server.sessions [] t v (normalize_endpoint ep remote)
            (subst (λ p. Distinct same_title p) (sym (add-peers w.server.sessions anon)) d))

    told-endpoint :
        endpoint told.server.sessions.peers (t, v) [] ≡ some (normalize_endpoint ep remote)
    unfolding ◌=t◌
    told-endpoint =
        ap (λ (r : SessionRegistry). endpoint r.peers (t, v) []) (announced m t v ep)
        ∙ announce_peer-endpoint opened.server.sessions [] t v (normalize_endpoint ep remote) (t, v)
            []
        ∙ (let a : (t == t) ≡ true = (==_iff t t).1 refl in
            let b : (v == v) ≡ true = (==_iff v v).1 refl in simp (a, b))

    left-endpoint :
        Distinct same_title w.server.sessions.peers
        → (anon =t []) ≡ false
        → endpoint (disconnect told new_id).0.server.sessions.peers (t, v) []
          ≡ some (normalize_endpoint ep remote)
    unfolding disconnect
    left-endpoint d e =
        simp (disconnect, told-socket)
          (ap (λ (r : SessionRegistry). endpoint r.peers (t, v) [])
              (disconnect_server-sessions told.server new_id)
            ∙ remove-endpoint told.server.sessions new_id (new_conn new_id anon) (t, v) [] told-conn
                (told-Distinct d)
            ∙ simp (e) told-endpoint)

-- A socket that announces a version before its Hello and then closes leaves a peer behind: its
-- endpoint stays listed under the empty client id, although the connection is gone.
pub announce_before_hello :
    (parses : Text → Bool) (verifies : Text → Text → Bool) (w : World) (anon : Text)
    (remote : Remote) (uuid label : Text) (m : Moment) (t v : ℕ) (ep : Text)
    → Distinct same_title w.server.sessions.peers
    → (anon =t []) ≡ false
    → let id = (add w.server.sessions anon).1 in
      let events =
        connects anon remote uuid label ∷ receives id m (announce t v ep) ∷ disconnects id ∷ [] in
      endpoint (run parses verifies w events).server.sessions.peers (t, v) []
      ≡ some (normalize_endpoint ep remote)
announce_before_hello parses verifies w anon remote uuid label m t v ep d e =
    left-endpoint parses verifies w anon remote uuid label m t v ep d e
