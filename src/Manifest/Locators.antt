-- ===== src/Manifest/Locators.antt =====
-- `chunk_locators` against the plain list of a manifest's chunks with their files.
use mathlib.Core.Option
use blt.Base.{
  ℕ, zero, suc, ◌+◌, ◌≡◌, refl, ap, ◌∙◌, some, List, [], ◌∷◌, ◌++◌, arith, length, get_elem?,
  length-append,
}
use blt.Manifest.{
  ChunkEntry, FileEntry, Manifest, ChunkLocator, sum_chunk_counts, chunk_count, locators_of_chunks,
  locators_of_files, chunk_locators,
}

-- The chunks with their files, files in manifest order and chunks in index order.
abbrev pub pairs_of_file : FileEntry → List ChunkEntry → List (FileEntry × ChunkEntry)
pairs_of_file f [] = []
pairs_of_file f (c ∷ cs) = (f, c) ∷ pairs_of_file f cs

abbrev pub pairs : List FileEntry → List (FileEntry × ChunkEntry)
pairs [] = []
pairs (f ∷ fs) = pairs_of_file f f.chunks ++ pairs fs

-- The locator of the chunk `c` of the file `f` that stands at `i` in the title.
abbrev pub locator : ℕ → FileEntry × ChunkEntry → ChunkLocator
locator i (f, c) = record {
  global_idx = i;
  file_id = f.id;
  rel_path = f.rel_path;
  file_size = f.size;
  chunk_idx = c.idx;
  offset = c.offset;
  size = c.size;
  hash = c.hash;
}

abbrev pub number_from : ℕ → List (FileEntry × ChunkEntry) → List ChunkLocator
number_from g [] = []
number_from g (p ∷ ps) = locator g p ∷ number_from (g + 1) ps

locators_of_chunks-eq :
    (f : FileEntry) (cs : List ChunkEntry) (g : ℕ)
    → locators_of_chunks f cs g ≡ (number_from g (pairs_of_file f cs), g + length cs)
unfolding locators_of_chunks
locators_of_chunks-eq f [] g = ground arith
locators_of_chunks-eq f (c ∷ cs) g = ground (arith, locators_of_chunks-eq f cs (g + 1))

pub number_from-append :
    (g : ℕ) (ps qs : List (FileEntry × ChunkEntry))
    → number_from g (ps ++ qs) ≡ number_from g ps ++ number_from (g + length ps) qs
number_from-append g [] qs = ap (λ n. number_from n qs) (omega arith)
number_from-append g (p ∷ ps) qs = ap (◌∷◌ (locator g p)) (
    number_from-append (g + 1) ps qs
    ∙ ap (λ n. number_from (g + 1) ps ++ number_from n qs) (omega arith))

pub length-pairs_of_file :
    (f : FileEntry) (cs : List ChunkEntry) → length (pairs_of_file f cs) ≡ length cs
length-pairs_of_file f [] = refl
length-pairs_of_file f (c ∷ cs) = ap suc (length-pairs_of_file f cs)

pub locators_of_files-eq :
    (fs : List FileEntry) (g : ℕ) → locators_of_files fs g ≡ number_from g (pairs fs)
unfolding locators_of_files
locators_of_files-eq [] g = refl
locators_of_files-eq (f ∷ fs) g =
    rw (locators_of_chunks-eq f f.chunks g, locators_of_files)
      (rw (
        locators_of_files-eq fs (g + length f.chunks),
        number_from-append g (pairs_of_file f f.chunks) (pairs fs),
        length-pairs_of_file f f.chunks,
      ))

get_elem?-number_from :
    (g : ℕ) (ps : List (FileEntry × ChunkEntry)) (i : ℕ)
    → get_elem? (number_from g ps) i ≡ Option.map (locator (g + i)) (get_elem? ps i)
get_elem?-number_from g [] i = refl
get_elem?-number_from g (p ∷ ps) zero = ap (λ n. some (locator n p)) (omega arith)
get_elem?-number_from g (p ∷ ps) (suc i) =
    get_elem?-number_from (g + 1) ps i
    ∙ ap (λ n. Option.map (locator n) (get_elem? ps i)) (omega arith)

length-number_from :
    (g : ℕ) (ps : List (FileEntry × ChunkEntry)) → length (number_from g ps) ≡ length ps
length-number_from g [] = refl
length-number_from g (p ∷ ps) = ap suc (length-number_from (g + 1) ps)

sum_chunk_counts-eq : (fs : List FileEntry) → sum_chunk_counts fs ≡ length (pairs fs)
unfolding sum_chunk_counts
sum_chunk_counts-eq [] = refl
sum_chunk_counts-eq (f ∷ fs) = omega (
  arith,
  sum_chunk_counts-eq fs,
  length-append (pairs_of_file f f.chunks) (pairs fs),
  length-pairs_of_file f f.chunks,
)

-- The locator at position `i` is that of the `i`-th chunk of the title, files in manifest order and
-- chunks in index order, with the global index `i` and all the fields of that file and chunk; there
-- are `chunk_count` of them.
pub chunk_locators_lem :
    (m : Manifest)
    → (length (chunk_locators m) ≡ chunk_count m)
      × ((i : ℕ)
          → get_elem? (chunk_locators m) i ≡ Option.map (locator i) (get_elem? (pairs m.files) i))
unfolding chunk_locators chunk_count
chunk_locators_lem m = rw (locators_of_files-eq m.files 0) (
  omega (arith, length-number_from 0 (pairs m.files), sum_chunk_counts-eq m.files),
  λ i.
      get_elem?-number_from 0 (pairs m.files) i
      ∙ ap (λ n. Option.map (locator n) (get_elem? (pairs m.files) i)) (omega arith),
)
