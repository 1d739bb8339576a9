-- ===== src/Manifest/Examples.antt =====
-- The manifest's theorems at a title of two files.
use mathlib.Core.Option
use blt.Base.{ℕ, ◌≡◌, ◌↔◌, refl, some, List, [], ◌∷◌, arith, length, get_elem?, map}
use blt.Base.Int.{pos}
use blt.Base.Text.{text}
use blt.Chunking.{plan_chunks, chunk_count as planned_count, effective_chunk_size, ChunkPlan}
use blt.Chunking.Plan.{plan_chunks-IsPlan, IsPlan}
use blt.Manifest.{
  FileEntry, Manifest, Hash, ok, chunk_count, chunk_locators, validate_structure, build_file_entry,
  diff,
}
use blt.Manifest.Locators.{pairs, locator, chunk_locators_lem}
use blt.Manifest.Structure.{
  FileIsConsistent, IsConsistent, Fits, chunk_sum, file_sum, validate_structure_iff,
}
use blt.Manifest.Entry.{build_file_entry-consistent}
use blt.Manifest.Diff.{IsDiff, diff-IsDiff}

abbrev whole : FileEntry
whole = record {
  id = 1;
  rel_path = text "a.bin";
  size = 10;
  mtime = pos 0;
  hash = 1 ∷ [];
  chunks =
      record { idx = 0; offset = 0; size = 6; hash = 2 ∷ [] }
      ∷ record { idx = 1; offset = 6; size = 4; hash = 3 ∷ [] }
      ∷ [];
}

abbrev empty : FileEntry
empty = record {
  id = 2;
  rel_path = text "b.cfg";
  size = 0;
  mtime = pos 0;
  hash = 4 ∷ [];
  chunks = [];
}

abbrev title : Manifest
title = record {
  title_id = 1;
  manifest_ver = 1;
  total_size = 10;
  file_count = 2;
  chunk_size = 6;
  files = whole ∷ empty ∷ [];
}

abbrev update : Manifest
update = record title { manifest_ver = 2; files = record whole { hash = 9 ∷ [] } ∷ [] }

plan_chunks-IsPlan_example :
    (l : List ChunkPlan) × (plan_chunks 2500 1000 ≡ some l)
    × (length l ≡ planned_count 2500 1000)
    × IsPlan 2500 (effective_chunk_size 1000) 0 0 l
plan_chunks-IsPlan_example = plan_chunks-IsPlan 2500 1000

chunk_locators_lem_example :
    (length (chunk_locators title) ≡ chunk_count title)
    × ((i : ℕ)
        → get_elem? (chunk_locators title) i
          ≡ Option.map (locator i) (get_elem? (pairs title.files) i))
chunk_locators_lem_example = chunk_locators_lem title

title-Fits : Fits title
unfolding chunk_sum file_sum
title-Fits = omega arith

validate_structure_iff_example : (validate_structure title ≡ ok tt) ↔ IsConsistent title
validate_structure_iff_example = validate_structure_iff title title-Fits

title_passes : validate_structure title ≡ ok tt
unfolding validate_structure
title_passes = refl

abbrev hashes : List Hash
hashes = (5 ∷ []) ∷ (6 ∷ []) ∷ []

two_planned : length hashes ≡ planned_count 10 6
unfolding planned_count
two_planned = refl

build_file_entry-consistent_example :
    (f : FileEntry) × (build_file_entry 1 (text "a") 10 (pos 0) (1 ∷ []) 6 hashes ≡ some f)
    × FileIsConsistent f
    × (f.id ≡ 1)
    × (f.rel_path ≡ text "a")
    × (f.size ≡ 10)
    × (f.mtime ≡ pos 0)
    × (f.hash ≡ 1 ∷ [])
    × (map (λ c. c.hash) f.chunks ≡ hashes)
build_file_entry-consistent_example =
    build_file_entry-consistent 1 (text "a") 10 (pos 0) (1 ∷ []) 6 hashes two_planned

diff-IsDiff_example : IsDiff title update (diff title update)
diff-IsDiff_example = diff-IsDiff title update
