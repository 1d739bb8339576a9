-- ===== src/Pool.antt =====
-- crates/core/src/transfer.rs, PooledWriter: verified writes through handles that are kept open. A
-- handle is the destination that was opened; nothing else moves or removes the files meanwhile. The
-- root is that of the destinations.
pub mod Refine
mod Examples
use blt.Base.{
  ℕ, ◌+◌, Bool, true, false, not, Option, none, some, List, [], ◌∷◌, ◌++◌, leb, length,
  if◌then◌else◌,
}
use blt.Base.Result.{Result, ok, err, ◌>>=◌}
use blt.Base.Text.{Text, ◌=t◌}
use blt.Manifest.{Hash}
use blt.Transfer.{TransferError, hash_mismatch, Dest, Fs, or_new, write_bytes, safe_join, verify}
use blt.Validate.{put, create}

pub record PooledWriter : Type 0 where
  pub handles : List (Text × Dest)  -- least recently used first
  pub max_open : ℕ

unfoldable pub new : PooledWriter
new = record { handles = []; max_open = 8 }

-- `position` and `remove`: the handle of the path, and the others.
unfoldable pub take_handle : Text → List (Text × Dest) → Option (Dest × List (Text × Dest))
take_handle rel_path [] = none
take_handle rel_path ((p, d) ∷ more) =
    let rest = take_handle rel_path more in
    if p =t rel_path
    then some (d, more)
    else elim rest [ none ↦ none | some (found, others) ↦ some (found, (p, d) ∷ others) ]

-- `remove(0)`
abbrev pub drop_first : List (Text × Dest) → List (Text × Dest)
drop_first [] = []
drop_first (h ∷ more) = more

-- The handles that stay when one more is opened.
abbrev pub make_room : PooledWriter → List (Text × Dest)
make_room w = if leb w.max_open (length w.handles) then drop_first w.handles else w.handles

-- The handle is the last one of the new pool; opening a path creates its file.
unfoldable pub handle : PooledWriter → Fs → Text → Result TransferError (Dest × PooledWriter × Fs)
unfolding take_handle safe_join
handle w fs rel_path = elim (take_handle rel_path w.handles) [
  | some (path, others) ↦ ok (path, record w { handles = others ++ (rel_path, path) ∷ [] }, fs)
  | none ↦ safe_join rel_path >>= (λ path.
      ok (path, record w { handles = make_room w ++ (rel_path, path) ∷ [] }, create fs path))
]

unfoldable pub close_all : PooledWriter → PooledWriter
close_all w = record w { handles = [] }

module _ (hash_bytes : List ℕ → Hash) where
  -- The writer and the files after the write, or the error, which changes neither.
  unfoldable pub verify_and_write :
      PooledWriter → Fs → Text → ℕ → List ℕ → Hash → Result TransferError (PooledWriter × Fs)
  unfolding verify handle write_bytes
  verify_and_write w fs rel_path offset chunk expected =
      if not (verify hash_bytes chunk expected)
      then err (hash_mismatch expected)
      else handle w fs rel_path >>= (λ (path, w', fs').
        ok (w', put fs' path (write_bytes (or_new (fs' path)) offset chunk)))
