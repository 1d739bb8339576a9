-- ===== src/Manifest/Entry.antt =====
-- `build_file_entry`: when it panics, and that what it builds is consistent.
use blt.Base.{ℕ, ◌+◌, ◌≡◌, ◌≢◌, ◌↔◌, refl, ap, none, some, List, [], ◌∷◌, arith, length, map}
use blt.Base.Int.{ℤ}
use blt.Base.Text.{Text}
use blt.Chunking.{ChunkPlan, chunk_count, effective_chunk_size}
use blt.Chunking.Plan.{Tiles, plan_chunks-IsPlan}
use blt.Manifest.{FileEntry, Hash, zip_hashes, build_file_entry}
use blt.Manifest.Structure.{chunk_sum, Contiguous, FileIsConsistent}

effective_twice :
    (cs : ℕ) → effective_chunk_size (effective_chunk_size cs) ≡ effective_chunk_size cs
unfolding effective_chunk_size
effective_twice cs = ground arith

chunk_count-effective : (fs cs : ℕ) → chunk_count fs (effective_chunk_size cs) ≡ chunk_count fs cs
unfolding chunk_count
chunk_count-effective fs cs = rw (effective_twice cs)

zip-consistent :
    (fs cs o : ℕ) (ps : List ChunkPlan) (hs : List Hash)
    → length ps ≡ length hs
    → Tiles fs cs o ps
    → Contiguous o (zip_hashes ps hs) × (o + chunk_sum (zip_hashes ps hs) ≡ fs)
unfolding zip_hashes chunk_sum
zip-consistent fs cs o [] hs e t = (tt, omega arith)
zip-consistent fs cs o (p ∷ ps) [] e t = absurd (omega arith)
zip-consistent fs cs o (p ∷ ps) (h ∷ hs) e t =
    let (cont, sum) = zip-consistent fs cs (o + p.size) ps hs (omega arith) t.3 in
    ((t.0, cont), omega arith)

zip-hashes :
    (ps : List ChunkPlan) (hs : List Hash)
    → length ps ≡ length hs
    → map (λ c. c.hash) (zip_hashes ps hs) ≡ hs
unfolding zip_hashes
zip-hashes [] [] e = refl
zip-hashes [] (h ∷ hs) e = absurd (omega arith)
zip-hashes (p ∷ ps) [] e = absurd (omega arith)
zip-hashes (p ∷ ps) (h ∷ hs) e = ap (◌∷◌ h) (zip-hashes ps hs (omega arith))

module _ (id : ℕ) (path : Text) (size : ℕ) (mtime : ℤ) (hash : Hash) (cs : ℕ) (hs : List Hash) where
  -- The assertion fails exactly when the number of hashes is not `chunk_count`.
  pub build_file_entry-panics :
      (build_file_entry id path size mtime hash cs hs ≡ none) ↔ (length hs ≢ chunk_count size cs)
  unfolding build_file_entry
  build_file_entry-panics =
      let (l, e, n, p) = plan_chunks-IsPlan size (effective_chunk_size cs) in
      rw (e, build_file_entry)
        (
          λ none_built h. ground (arith, chunk_count-effective size cs),
          λ h. ground (arith, chunk_count-effective size cs),
        )

  -- With one hash for each planned chunk `build_file_entry` does not panic: the entry has the given id,
  -- path, size, time and hash, and the chunk hashes in order; its chunks lie end to end, and their
  -- sizes make up the file's.
  pub build_file_entry-consistent :
      length hs ≡ chunk_count size cs
      → (f : FileEntry) × (build_file_entry id path size mtime hash cs hs ≡ some f)
        × FileIsConsistent f
        × (f.id ≡ id)
        × (f.rel_path ≡ path)
        × (f.size ≡ size)
        × (f.mtime ≡ mtime)
        × (f.hash ≡ hash)
        × (map (λ c. c.hash) f.chunks ≡ hs)
  unfolding build_file_entry
  build_file_entry-consistent h =
      let (l, e, n, p) = plan_chunks-IsPlan size (effective_chunk_size cs) in
      let fits : length l ≡ length hs = omega (arith, chunk_count-effective size cs) in
      let (cont, sum) = zip-consistent size _ 0 l hs fits p.tiles in
      (
        record {
          id = id;
          rel_path = path;
          size = size;
          mtime = mtime;
          hash = hash;
          chunks = zip_hashes l hs;
        },
        rw (e, build_file_entry) (ground arith),
        (cont, omega arith),
        refl,
        refl,
        refl,
        refl,
        refl,
        zip-hashes l hs fits,
      )
