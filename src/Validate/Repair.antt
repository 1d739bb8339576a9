-- ===== src/Validate/Repair.antt =====
-- The repair plan against the list of the title's chunk locators.
use blt.Base.{◌≤◌, some, drop, take, ℕ, ◌≡◌, Bool, not, List, map, length, filter}
use blt.Manifest.{Hash, ChunkEntry, Manifest, ChunkLocator}
use blt.Base.Result.{ok}
use blt.Base.Text.{Text}
use blt.Transfer.{Dest, Fs, safe_join}
use blt.Validate.{chunk_ok, open_file}

module _ (hash_bytes : List ℕ → Hash) where
  -- Is the chunk that the locator describes not on disk as it should be?
  abbrev pub is_bad : Fs → ChunkLocator → Bool
  is_bad fs l = not (
      chunk_ok hash_bytes (open_file fs l.rel_path)
        (record { idx = l.chunk_idx; offset = l.offset; size = l.size; hash = l.hash }))

  abbrev pub bad_indices : Fs → List ChunkLocator → List ℕ
  bad_indices fs ls = map ChunkLocator.global_idx (filter (is_bad fs) ls)

  -- The chunk's bytes are on disk: the path is a legal one, the file is there, and at the offset it has
  -- as many bytes as the chunk, with the chunk's hash.
  abbrev pub OnDisk : Fs → ChunkLocator → Type 0
  OnDisk fs l =
      (path : Dest) × (bytes : List ℕ) × (safe_join l.rel_path ≡ ok path)
      × (fs path ≡ some bytes)
      × (l.size ≤ length (drop l.offset bytes))
      × (hash_bytes (take l.size (drop l.offset bytes)) ≡ l.hash)

  abbrev chunk_of : ChunkLocator → ChunkEntry
  chunk_of l = record { idx = l.chunk_idx; offset = l.offset; size = l.size; hash = l.hash }
