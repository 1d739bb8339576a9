-- ===== src/Validate/Examples.antt =====
-- A manifest of two files, and the file system before and after its layout.
use mathlib.Core.List.{Memᴰ}
use blt.Base.{
  ℕ, ◌<◌, length, take, ◌≡◌, ◌↔◌, refl, true, false, none, some, List, [], ◌∷◌, All, map, arith,
  if◌then◌else◌,
}
use blt.Base.Int.{pos}
use blt.Base.Text.{text, ◌=t◌}
use blt.Base.Result.{ok}
use blt.Manifest.{FileEntry, Manifest, Hash}
use blt.Transfer.{or_new, Dest, Fs, same_dest, safe_join, complete, completeness_check}
use blt.Validate.{
  put, create, finalize_layout, all_ok, ok_count, failures, FileCheck, validate_quick, repair_plan,
}
use blt.Validate.Layout.{Cuts, Fits, finalize_layout_lem, finalize_layout-validate_quick}
use blt.Validate.Report.{entries, validate_quick-completeness_check}

abbrev whole : FileEntry
whole = record {
  id = 1;
  rel_path = text "a";
  size = 3;
  mtime = pos 0;
  hash = 1 ∷ 2 ∷ 3 ∷ [];
  chunks =
      record { idx = 0; offset = 0; size = 2; hash = 1 ∷ 2 ∷ [] }
      ∷ record { idx = 1; offset = 2; size = 1; hash = 3 ∷ [] }
      ∷ [];
}

abbrev empty : FileEntry
empty = record { id = 2; rel_path = text "b"; size = 0; mtime = pos 0; hash = []; chunks = [] }

abbrev title : Manifest
title = record {
  title_id = 1;
  manifest_ver = 1;
  total_size = 3;
  file_count = 2;
  chunk_size = 2;
  files = whole ∷ empty ∷ [];
}

abbrev a_path : Dest
a_path = text "a" ∷ []

abbrev b_path : Dest
b_path = text "b" ∷ []

abbrev hash : List ℕ → Hash
hash bytes = bytes

-- An older version left more bytes in the first file, and bytes in the second one.
abbrev before : Fs
before dest =
    if same_dest a_path dest
    then some (1 ∷ 2 ∷ 4 ∷ 5 ∷ [])
    else if same_dest b_path dest
    then some (7 ∷ [])
    else none

abbrev after : Fs
after = create (put before a_path (1 ∷ 2 ∷ 4 ∷ [])) b_path

b_joined : safe_join (text "b") ≡ ok b_path
unfolding safe_join ◌=t◌
b_joined = refl

laid_out : finalize_layout title before ≡ ok after
unfolding finalize_layout safe_join ◌=t◌
laid_out = refl

to_repair : repair_plan hash title after ≡ 1 ∷ []
unfolding repair_plan safe_join ◌=t◌
to_repair = refl

finalize_layout_lem_example : Cuts before after × All (Fits after) title.files
finalize_layout_lem_example = finalize_layout_lem title before after laid_out

finalize_layout-validate_quick_example :
    (or_new (after b_path) ≡ take (length (or_new (after b_path))) (or_new (before b_path)))
    × (0 < length (or_new (after b_path)))
    × (all_ok (validate_quick title after) ≡ false)
unfolding ◌=t◌
finalize_layout-validate_quick_example =
    finalize_layout-validate_quick title empty before after b_path (Memᴰ.tail (Memᴰ.head refl)) refl
      b_joined (omega arith) laid_out

validate_quick-completeness_check_example :
    let check = completeness_check after (entries title.files) in
    (ok_count (validate_quick title after) ≡ check.present)
    × (map FileCheck.rel_path (failures (validate_quick title after)) ≡ check.missing)
    × ((all_ok (validate_quick title after) ≡ true) ↔ (complete check ≡ true))
validate_quick-completeness_check_example = validate_quick-completeness_check title after
