-- ===== src/Hub/Listed.antt =====
-- Whose endpoints a client is given that asks for the peers of a version.
use mathlib.Core.List.{Memᴰ}
use blt.Base.{ℕ, ◌≡◌, true, Option, List, map}
use blt.Base.Assoc.{lookup}
use blt.Base.Text.{Text, ◌=t◌}
use blt.Hub.{Conn, PeerEntry}

-- The endpoint of a client in a list of peers.
abbrev pub listed : List PeerEntry → Text → Option Text
listed entries cid =
    lookup ◌=t◌ cid (map (λ (e : PeerEntry). (e.client_id, e.chunk_endpoint)) entries)

-- A connection of the client says that it takes from the server only.
abbrev pub IsServerOnly : List (ℕ × Conn) → Text → Type 0
IsServerOnly conns cid =
    (c : ℕ × Conn) × Memᴰ c conns × (c.1.client_id ≡ cid) × (c.1.server_only ≡ true)
