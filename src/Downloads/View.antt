-- ===== src/Downloads/View.antt =====
-- apps/desktop/src-tauri/src/downloads.rs: the queue as the user interface sees it. The speed (a float)
-- is left out.
use blt.Base.{ℕ, Bool, ◌&&◌, Option, none, some, List, [], ◌∷◌, ◌++◌, ◌==◌, if◌then◌else◌, any, map}
use blt.Base.Text.{Text, text}
use blt.Downloads.{Job, Active, DownloadManager}

pub record QueueEntry : Type 0 where
  pub title_id : ℕ
  pub manifest_ver : ℕ
  pub name : Text
  pub dest : Text
  pub status : Text
  pub total_chunks : ℕ
  pub have_chunks : ℕ
  pub bytes_total : ℕ
  pub bytes_done : ℕ
  pub from_server : ℕ
  pub from_peers : ℕ
  pub error : Option Text

abbrev pub active_entry : Active → QueueEntry
active_entry a = record {
  title_id = a.title_id;
  manifest_ver = a.manifest_ver;
  name = a.name;
  dest = [];
  status = if a.paused then text "pausing" else text "active";
  total_chunks = a.total;
  have_chunks = a.have;
  bytes_total = a.bytes_total;
  bytes_done = a.bytes_done;
  from_server = a.from_server;
  from_peers = a.from_peers;
  error = none;
}

abbrev pub queued_entry : Job → QueueEntry
queued_entry j = record {
  title_id = j.title_id;
  manifest_ver = j.manifest_ver;
  name = j.name;
  dest = j.dest;
  status = text "queued";
  total_chunks = 0;
  have_chunks = 0;
  bytes_total = 0;
  bytes_done = 0;
  from_server = 0;
  from_peers = 0;
  error = none;
}

abbrev pub active_entries : Option Active → List QueueEntry
active_entries none = []
active_entries (some a) = active_entry a ∷ []

abbrev pub entry_is : ℕ → ℕ → QueueEntry → Bool
entry_is title_id manifest_ver e = (e.title_id == title_id) && (e.manifest_ver == manifest_ver)

-- The loop over the saved rows, given as entries: those that no entry so far is about are added.
unfoldable pub add_saved : List QueueEntry → List QueueEntry → List QueueEntry
add_saved out [] = out
add_saved out (r ∷ rows) =
    if any (entry_is r.title_id r.manifest_ver) out
    then add_saved out rows
    else add_saved (out ++ r ∷ []) rows

unfoldable pub snapshot : DownloadManager → List QueueEntry → List QueueEntry
unfolding add_saved
snapshot dm rows = add_saved (active_entries dm.active ++ map queued_entry dm.queue) rows
