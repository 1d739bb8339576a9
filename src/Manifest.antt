-- ===== src/Manifest.antt =====
-- crates/core/src/manifest.rs: the structural manifest of a title, its global chunk order, its
-- consistency check and the difference of two versions. Sums of u64 values wrap, as in a release
-- build.
mod Examples
pub mod Locators
pub mod Structure
pub mod Entry
pub mod Paths
pub mod Diff
use mathlib.Core.Option
use blt.Base.{
  ℕ, zero, suc, ◌+◌, ◌%◌, ◌^◌, ◌≡◌, refl, Bool, true, false, not, ◌&&◌, Option, none, some, List,
  [], ◌∷◌, ◌++◌, map, ◌==◌, if◌then◌else◌, length,
}
use blt.Base.Int.{ℤ}
use blt.Base.Result.{Result, ok, err, ◌>>=◌}
use blt.Base.Sort.{sort}
use blt.Base.Text.{Text, ◌=t◌, text_le}
use blt.Chunking.{ChunkPlan, plan_chunks, default_chunk_size, effective_chunk_size}

-- `Hash` of hashing.rs: the 32 bytes of a digest.
abbrev pub Hash : Type 0
Hash = List ℕ

pub record ChunkEntry : Type 0 where
  pub idx : ℕ  -- u32
  pub offset : ℕ  -- u64
  pub size : ℕ  -- u64
  pub hash : Hash

pub record FileEntry : Type 0 where
  pub id : ℕ  -- u64
  pub rel_path : Text
  pub size : ℕ  -- u64
  pub mtime : ℤ
  pub hash : Hash
  pub chunks : List ChunkEntry

pub record Manifest : Type 0 where
  pub title_id : ℕ  -- u64
  pub manifest_ver : ℕ  -- u32
  pub total_size : ℕ  -- u64
  pub file_count : ℕ  -- u64
  pub chunk_size : ℕ  -- u64
  pub files : List FileEntry

pub record ChunkLocator : Type 0 where
  pub global_idx : ℕ
  pub file_id : ℕ
  pub rel_path : Text
  pub file_size : ℕ
  pub chunk_idx : ℕ
  pub offset : ℕ
  pub size : ℕ
  pub hash : Hash

pub record ManifestDiff : Type 0 where
  pub added : List Text
  pub changed : List Text
  pub removed : List Text

pub data ManifestError : Type 0 where
  chunk_size_mismatch : (path : Text) (chunk_total size : ℕ) → ManifestError
  chunk_offset : (path : Text) (idx got want : ℕ) → ManifestError
  total_size_mismatch : (got want : ℕ) → ManifestError
  file_count_mismatch : (got want : ℕ) → ManifestError

-- `+` of two u64 values
abbrev pub add64 : ℕ → ℕ → ℕ
add64 a b = (a + b) % 2 ^ 64

unfoldable pub is_nil {ℓ} : {A : Type ℓ} → List A → Bool
is_nil [] = true
is_nil (x ∷ xs) = false

-- `ManifestDiff::is_empty`
unfoldable pub is_empty : ManifestDiff → Bool
unfolding is_nil
is_empty d = is_nil d.added && is_nil d.changed && is_nil d.removed

unfoldable pub file_chunk_count : FileEntry → ℕ
file_chunk_count f = length f.chunks

unfoldable pub sum_chunk_counts : List FileEntry → ℕ
unfolding file_chunk_count
sum_chunk_counts [] = 0
sum_chunk_counts (f ∷ fs) = file_chunk_count f + sum_chunk_counts fs

unfoldable pub chunk_count : Manifest → ℕ
unfolding sum_chunk_counts
chunk_count m = sum_chunk_counts m.files

-- The inner loop: the locators of one file and the counter after it.
unfoldable pub locators_of_chunks : FileEntry → List ChunkEntry → ℕ → List ChunkLocator × ℕ
locators_of_chunks f [] global = ([], global)
locators_of_chunks f (c ∷ cs) global =
    let (rest, global') = locators_of_chunks f cs (global + 1) in
    (
      record {
        global_idx = global;
        file_id = f.id;
        rel_path = f.rel_path;
        file_size = f.size;
        chunk_idx = c.idx;
        offset = c.offset;
        size = c.size;
        hash = c.hash;
      }
          ∷ rest,
      global',
    )

unfoldable pub locators_of_files : List FileEntry → ℕ → List ChunkLocator
unfolding locators_of_chunks
locators_of_files [] global = []
locators_of_files (f ∷ fs) global =
    let (here, global') = locators_of_chunks f f.chunks global in
    here ++ locators_of_files fs global'

unfoldable pub chunk_locators : Manifest → List ChunkLocator
unfolding locators_of_files
chunk_locators m = locators_of_files m.files 0

-- `self.files.iter().find(|f| f.id == id)`
unfoldable pub find_id : List FileEntry → ℕ → Option FileEntry
find_id [] id = none
find_id (f ∷ fs) id = if f.id == id then some f else find_id fs id

unfoldable pub file_by_id : Manifest → ℕ → Option FileEntry
unfolding find_id
file_by_id m id = find_id m.files id

unfoldable pub sum_sizes : List FileEntry → ℕ
sum_sizes [] = 0
sum_sizes (f ∷ fs) = add64 f.size (sum_sizes fs)

unfoldable pub recompute_totals : Manifest → Manifest
unfolding sum_sizes
recompute_totals m = record m { total_size = sum_sizes m.files; file_count = length m.files }

-- The chunk loop of `validate_structure`: the total of the chunk sizes, or the first wrong offset.
unfoldable pub check_chunks : Text → List ChunkEntry → ℕ → ℕ → Result ManifestError ℕ
check_chunks path [] expected_offset chunk_total = ok chunk_total
check_chunks path (c ∷ cs) expected_offset chunk_total =
    if not (c.offset == expected_offset)
    then err (chunk_offset path c.idx c.offset expected_offset)
    else check_chunks path cs (add64 expected_offset c.size) (add64 chunk_total c.size)

unfoldable pub check_file : FileEntry → Result ManifestError (Unit {0})
unfolding check_chunks
check_file f = do
  chunk_total ← check_chunks f.rel_path f.chunks 0 0
  if not (chunk_total == f.size)
      then err (chunk_size_mismatch f.rel_path chunk_total f.size)
      else ok tt

unfoldable pub check_files : List FileEntry → ℕ → Result ManifestError ℕ
check_files [] total = ok total
check_files (f ∷ fs) total = do _ ← check_file f; check_files fs (add64 total f.size)

unfoldable pub validate_structure : Manifest → Result ManifestError (Unit {0})
unfolding check_files check_file
validate_structure m = do
  total ← check_files m.files 0
  if not (m.total_size == total)
      then err (total_size_mismatch m.total_size total)
      else if not (m.file_count == length m.files)
      then err (file_count_mismatch m.file_count (length m.files))
      else ok tt

-- `plans.into_iter().zip(chunk_hashes).map(..)`
unfoldable pub zip_hashes : List ChunkPlan → List Hash → List ChunkEntry
zip_hashes [] hs = []
zip_hashes (p ∷ ps) [] = []
zip_hashes (p ∷ ps) (h ∷ hs) =
    record { idx = p.idx; offset = p.offset; size = p.size; hash = h } ∷ zip_hashes ps hs

-- `none` is the panic of the assertion on the two lengths.
unfoldable pub build_file_entry : ℕ → Text → ℕ → ℤ → Hash → ℕ → List Hash → Option FileEntry
unfolding zip_hashes
build_file_entry id rel_path size mtime file_hash chunk_size chunk_hashes =
    elim (plan_chunks size (effective_chunk_size chunk_size)) [
      | none ↦ none
      | some plans ↦
          if length plans == length chunk_hashes
          then some (record {
            id = id;
            rel_path = rel_path;
            size = size;
            mtime = mtime;
            hash = file_hash;
            chunks = zip_hashes plans chunk_hashes;
          })
          else none
    ]

-- A `HashMap` from the path, filled in file order: of two files with one path the later one stays.
unfoldable pub by_path : List FileEntry → Text → Option FileEntry
by_path [] path = none
by_path (f ∷ fs) path = elim (by_path fs path) [
  | some g ↦ some g
  | none ↦ if f.rel_path =t path then some f else none
]

-- The loop over the new files: paths that the old version lacks, and paths whose hash differs.
unfoldable pub added_paths : (Text → Option FileEntry) → List FileEntry → List Text
added_paths old_by [] = []
added_paths old_by (f ∷ fs) =
    let rest = added_paths old_by fs in
    elim (old_by f.rel_path) [ none ↦ f.rel_path ∷ rest | some o ↦ rest ]

unfoldable pub changed_paths : (Text → Option FileEntry) → List FileEntry → List Text
changed_paths old_by [] = []
changed_paths old_by (f ∷ fs) =
    let rest = changed_paths old_by fs in
    elim (old_by f.rel_path) [
      | none ↦ rest
      | some o ↦ if not (o.hash =t f.hash) then f.rel_path ∷ rest else rest
    ]

-- The loop over the old files keeps the paths that the new version lacks: the same code as for the
-- added ones, with the versions exchanged.
unfoldable pub removed_paths : (Text → Option FileEntry) → List FileEntry → List Text
removed_paths new_by [] = []
removed_paths new_by (f ∷ fs) =
    let rest = removed_paths new_by fs in
    elim (new_by f.rel_path) [ some g ↦ rest | none ↦ f.rel_path ∷ rest ]

unfoldable pub diff : Manifest → Manifest → ManifestDiff
unfolding by_path added_paths changed_paths removed_paths
diff old new =
    let old_by = by_path old.files in
    let new_by = by_path new.files in
    record {
      added = sort text_le (added_paths old_by new.files);
      changed = sort text_le (changed_paths old_by new.files);
      removed = sort text_le (removed_paths new_by old.files);
    }
