-- ===== src/Hub/Examples.antt =====
-- Two clients that seed one version.
use blt.Base.Text.{text}
use blt.Hub.{SessionRegistry, empty_registry, announce_peer, add}

abbrev both : SessionRegistry
both =
    announce_peer
      (announce_peer (add (add empty_registry (text "a")).0 (text "b")).0 (text "a") 7 1
        (text "x:1"))
      (text "b") 7 1 (text "y:2")
