-- ===== src/Validate.antt =====
-- crates/core/src/transfer.rs: the layout of a finished download, its validation by size and by
-- hash, and the plan of what to fetch again. The file system and the hash function are those of
-- Transfer; a whole file is hashed as the bytes that it holds.
pub mod Layout
pub mod Report
pub mod Repair
pub mod Sized
mod Examples
use blt.Base.{
  ℕ, ◌+◌, Bool, true, false, not, ◌&&◌, Option, none, some, List, [], ◌∷◌, ◌++◌, map, ltb, leb,
  ◌==◌, length, if◌then◌else◌, take, drop, filter, all,
}
use blt.Base.Result.{Result, ok, err, ◌>>=◌}
use blt.Base.Text.{Text, ◌=t◌}
use blt.Manifest.{Hash, ChunkEntry, FileEntry, Manifest}
use blt.Transfer.{TransferError, Dest, Fs, same_dest, or_new, safe_join, verify}

-- The file system with the bytes at the destination.
abbrev pub put : Fs → Dest → List ℕ → Fs
put fs path bytes = λ dest. if same_dest path dest then some bytes else fs dest

-- `OpenOptions::new().create(true).truncate(false).open`
abbrev pub create : Fs → Dest → Fs
create fs path = put fs path (or_new (fs path))

abbrev pub truncate_long : Fs → Dest → ℕ → Option (List ℕ) → Fs
truncate_long fs path size none = fs
truncate_long fs path size (some bytes) =
    if ltb size (length bytes) then put fs path (take size bytes) else fs

unfoldable pub finalize_file : FileEntry → Fs → Result TransferError Fs
unfolding safe_join
finalize_file f fs = safe_join f.rel_path >>= (λ path.
    ok (if f.size == 0 then create fs path else truncate_long fs path f.size (fs path)))

unfoldable pub finalize_files : List FileEntry → Fs → Result TransferError Fs
unfolding finalize_file
finalize_files [] fs = ok fs
finalize_files (f ∷ files) fs = finalize_file f fs >>= finalize_files files

unfoldable pub finalize_layout : Manifest → Fs → Result TransferError Fs
unfolding finalize_files
finalize_layout m fs = finalize_files m.files fs

-- `passed` is the source's `Ok`.
pub data CheckDetail : Type 0 where
  passed missing : CheckDetail
  size_mismatch : (expected got : ℕ) → CheckDetail
  hash_mismatch : CheckDetail

pub record FileCheck : Type 0 where
  pub rel_path : Text
  pub detail : CheckDetail

abbrev pub is_passed : CheckDetail → Bool
is_passed passed = true
is_passed missing = false
is_passed (size_mismatch expected got) = false
is_passed hash_mismatch = false

abbrev pub check_ok : FileCheck → Bool
check_ok c = is_passed c.detail

unfoldable pub all_ok : List FileCheck → Bool
all_ok report = all check_ok report

unfoldable pub failures : List FileCheck → List FileCheck
failures report = filter (λ c. not (check_ok c)) report

unfoldable pub ok_count : List FileCheck → ℕ
ok_count report = length (filter check_ok report)

abbrev pub size_detail : ℕ → Option (List ℕ) → CheckDetail
size_detail size none = missing
size_detail size (some bytes) =
    if length bytes == size then passed else size_mismatch size (length bytes)

unfoldable pub quick_detail : Fs → FileEntry → CheckDetail
unfolding safe_join
quick_detail fs f = elim (safe_join f.rel_path) [
  | err e ↦ missing
  | ok path ↦ size_detail f.size (fs path)
]

unfoldable pub quick_files : Fs → List FileEntry → List FileCheck
unfolding quick_detail
quick_files fs [] = []
quick_files fs (f ∷ files) =
    record { rel_path = f.rel_path; detail = quick_detail fs f } ∷ quick_files fs files

unfoldable pub validate_quick : Manifest → Fs → List FileCheck
unfolding quick_files
validate_quick m fs = quick_files fs m.files

-- The bytes that `File::open` gives, `none` for a path that `safe_join` refuses too.
unfoldable pub open_file : Fs → Text → Option (List ℕ)
unfolding safe_join
open_file fs rel_path = elim (safe_join rel_path) [ err e ↦ none | ok path ↦ fs path ]

module _ (hash_bytes : List ℕ → Hash) where
  abbrev pub hash_detail : Hash → Option (List ℕ) → CheckDetail
  hash_detail hash none = missing
  hash_detail hash (some bytes) = if hash_bytes bytes =t hash then passed else hash_mismatch

  unfoldable pub deep_detail : Fs → FileEntry → CheckDetail
  unfolding safe_join
  deep_detail fs f = elim (safe_join f.rel_path) [
    | err e ↦ missing
    | ok path ↦ hash_detail f.hash (fs path)
  ]

  unfoldable pub deep_files : Fs → List FileEntry → List FileCheck
  unfolding deep_detail
  deep_files fs [] = []
  deep_files fs (f ∷ files) =
      record { rel_path = f.rel_path; detail = deep_detail fs f } ∷ deep_files fs files

  unfoldable pub validate_deep : Manifest → Fs → List FileCheck
  unfolding deep_files
  validate_deep m fs = deep_files fs m.files

  -- `seek`, `read_exact` and `verify` on the open file, if it could be opened.
  unfoldable pub chunk_ok : Option (List ℕ) → ChunkEntry → Bool
  unfolding verify
  chunk_ok none c = false
  chunk_ok (some bytes) c =
      leb c.size (length (drop c.offset bytes))
      && verify hash_bytes (take c.size (drop c.offset bytes)) c.hash

  -- The loop over the chunks of one file: the bad indices and the counter after it.
  unfoldable pub repair_chunks : Option (List ℕ) → List ChunkEntry → ℕ → List ℕ × ℕ
  unfolding chunk_ok
  repair_chunks file [] global = ([], global)
  repair_chunks file (c ∷ cs) global =
      let (bad, global') = repair_chunks file cs (global + 1) in
      if chunk_ok file c then (bad, global') else (global ∷ bad, global')

  unfoldable pub repair_files : Fs → List FileEntry → ℕ → List ℕ
  unfolding repair_chunks open_file
  repair_files fs [] global = []
  repair_files fs (f ∷ files) global =
      let (bad, global') = repair_chunks (open_file fs f.rel_path) f.chunks global in
      bad ++ repair_files fs files global'

  unfoldable pub repair_plan : Manifest → Fs → List ℕ
  unfolding repair_files
  repair_plan m fs = repair_files fs m.files 0
