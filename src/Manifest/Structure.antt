-- ===== src/Manifest/Structure.antt =====
-- `validate_structure` decides consistency, as long as the sums fit in a u64.
use blt.Base.{ℕ, ◌+◌, ◌^◌, ◌<◌, ◌≡◌, ◌↔◌, ap, ◌∙◌, List, [], ◌∷◌, arith, length, All}
use blt.Base.Result.{ok, ◌>>=◌, >>=-eq-ok}
use blt.Base.Text.{Text}
use blt.Manifest.{
  ChunkEntry, FileEntry, Manifest, add64, check_chunks, check_file, check_files, validate_structure,
}

-- The sums as numbers that do not wrap.
unfoldable pub chunk_sum : List ChunkEntry → ℕ
chunk_sum [] = 0
chunk_sum (c ∷ cs) = c.size + chunk_sum cs

unfoldable pub file_sum : List FileEntry → ℕ
file_sum [] = 0
file_sum (f ∷ fs) = f.size + file_sum fs

-- Every chunk begins where the one before it ends.
abbrev pub Contiguous : ℕ → List ChunkEntry → Type 0
Contiguous o [] = Unit
Contiguous o (c ∷ cs) = (c.offset ≡ o) × Contiguous (o + c.size) cs

abbrev pub FileIsConsistent : FileEntry → Type 0
FileIsConsistent f = Contiguous 0 f.chunks × (chunk_sum f.chunks ≡ f.size)

pub record IsConsistent (m : Manifest) : Type 0 where
  pub files_fit : All FileIsConsistent m.files
  pub total : m.total_size ≡ file_sum m.files
  pub count : m.file_count ≡ length m.files

-- The sums of the chunk sizes of each file, and of the file sizes, fit in a u64.
abbrev pub Fits : Manifest → Type 0
Fits m = All (λ f. chunk_sum f.chunks < 2 ^ 64) m.files × (file_sum m.files < 2 ^ 64)

-- The chunk loop returns the total exactly when the chunks are contiguous.
check_chunks_sound :
    (path : Text) (cs : List ChunkEntry) (o total r : ℕ)
    → o + chunk_sum cs < 2 ^ 64
    → total + chunk_sum cs < 2 ^ 64
    → check_chunks path cs o total ≡ ok r
    → Contiguous o cs × (r ≡ total + chunk_sum cs)
unfolding check_chunks chunk_sum
check_chunks_sound path [] o total r h k e = ground arith
check_chunks_sound path (c ∷ cs) o total r h k e =
    ground (arith, check_chunks_sound path cs (o + c.size) (total + c.size) r)

check_chunks_complete :
    (path : Text) (cs : List ChunkEntry) (o total : ℕ)
    → o + chunk_sum cs < 2 ^ 64
    → total + chunk_sum cs < 2 ^ 64
    → Contiguous o cs
    → check_chunks path cs o total ≡ ok (total + chunk_sum cs)
unfolding check_chunks chunk_sum
check_chunks_complete path [] o total h k e = ground arith
check_chunks_complete path (c ∷ cs) o total h k e =
    ground (arith, check_chunks_complete path cs (o + c.size) (total + c.size))

pub check_file_iff :
    (f : FileEntry) → chunk_sum f.chunks < 2 ^ 64 → (check_file f ≡ ok tt) ↔ FileIsConsistent f
unfolding check_file
check_file_iff f h = (
  λ e.
      let (total, r, e') = >>=-eq-ok (check_chunks f.rel_path f.chunks 0 0) _ e in
      let (cont, sum) =
        check_chunks_sound f.rel_path f.chunks 0 0 total (omega arith) (omega arith) r in
      (cont, ground arith),
  λ (cont, sum).
      rw (check_chunks_complete f.rel_path f.chunks 0 0 (omega arith) (omega arith) cont, ◌>>=◌)
        (ground arith),
)

check_files_sound :
    (fs : List FileEntry) (total r : ℕ)
    → All (λ f. chunk_sum f.chunks < 2 ^ 64) fs
    → total + file_sum fs < 2 ^ 64
    → check_files fs total ≡ ok r
    → All FileIsConsistent fs × (r ≡ total + file_sum fs)
unfolding check_files file_sum
check_files_sound [] total r a h e = (tt, ground arith)
check_files_sound (f ∷ fs) total r a h e =
    let (u, first, rest) = >>=-eq-ok (check_file f) _ e in
    let wraps : add64 total f.size ≡ total + f.size = omega arith in
    let (all, sum) = check_files_sound fs (total + f.size) r a.1 (omega arith) (rw wraps at rest) in
    (((check_file_iff f a.0).0 first, all), omega arith)

check_files_complete :
    (fs : List FileEntry) (total : ℕ)
    → All (λ f. chunk_sum f.chunks < 2 ^ 64) fs
    → total + file_sum fs < 2 ^ 64
    → All FileIsConsistent fs
    → check_files fs total ≡ ok (total + file_sum fs)
unfolding check_files file_sum
check_files_complete [] total a h c = ap ok (omega arith)
check_files_complete (f ∷ fs) total a h c =
    let wraps : add64 total f.size ≡ total + f.size = omega arith in
    let shift : total + f.size + file_sum fs ≡ total + (f.size + file_sum fs) = omega arith in
    rw ((check_file_iff f a.0).1 c.0, ◌>>=◌)
      (rw wraps (check_files_complete fs (total + f.size) a.1 (omega arith) c.1 ∙ ap ok shift))

-- Where the sums of sizes fit in a u64, `validate_structure` accepts a manifest exactly when in
-- every file the chunks lie end to end from offset 0 and their sizes make up the file's, and the
-- two totals are the sum of the file sizes and the number of files.
pub validate_structure_iff :
    (m : Manifest) → Fits m → (validate_structure m ≡ ok tt) ↔ IsConsistent m
unfolding validate_structure
validate_structure_iff m (a, h) = (
  λ e.
      let (total, r, e') = >>=-eq-ok (check_files m.files 0) _ e in
      let (all, sum) = check_files_sound m.files 0 total a (omega arith) r in
      record { files_fit = all; total = ground arith; count = ground arith },
  λ c.
      rw (check_files_complete m.files 0 a (omega arith) c.files_fit, ◌>>=◌)
        (ground (arith, c.total, c.count)),
)
