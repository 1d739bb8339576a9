-- ===== src/Manifest/Diff.antt =====
-- `diff` of two manifests: which paths it reports, and that it is a difference.
use mathlib.Core.List.{Memᴰ}
use blt.Base.{Bool, ◌≡◌, ◌≢◌, ◌↔◌, some}
use blt.Base.Sort.{sort, sort-mem, IsSorted, sort-IsSorted}
use blt.Base.Text.{Text, text_le, text_le-total, text_le_trans}
use blt.Manifest.{FileEntry, Manifest, ManifestDiff, by_path, diff}
use blt.Manifest.Paths.{
  Among, Only, hash_differs, hash_differs_iff, kept, kept_sound, kept_complete, added-kept,
  removed-kept, changed-kept, Only-kept,
}

-- `changed` of the difference: a file of the new version whose path the old version has, with
-- another hash in the last of the old files with that path.
abbrev pub Rehashed : Manifest → Text → FileEntry → Type 0
Rehashed old p f = (o : FileEntry) × (by_path old.files p ≡ some o) × (o.hash ≢ f.hash)

pub record IsDiff (old new : Manifest) (d : ManifestDiff) : Type 0 where
  pub added_iff : (p : Text) → Memᴰ p d.added ↔ Only new.files old.files p
  pub removed_iff : (p : Text) → Memᴰ p d.removed ↔ Only old.files new.files p
  pub changed_iff : (p : Text) → Memᴰ p d.changed ↔ Among new.files p (Rehashed old p)
  pub sorted : IsSorted text_le d.added × IsSorted text_le d.changed × IsSorted text_le d.removed

-- The three lists of `diff old new` are sorted. `added` has the paths that only the new version has,
-- `removed` those that only the old one has, and `changed` the path of every new file whose path
-- the old version has with another hash; they have no other path.
pub diff-IsDiff : (old new : Manifest) → IsDiff old new (diff old new)
unfolding diff
diff-IsDiff old new = record {
  added_iff = λ p. rw added-kept (Only-kept new.files old.files p);
  removed_iff = λ p. rw removed-kept (Only-kept old.files new.files p);
  changed_iff = λ p. rw changed-kept (changed p);
  sorted = (
    sort-IsSorted text_le text_le-total text_le_trans _,
    sort-IsSorted text_le text_le-total text_le_trans _,
    sort-IsSorted text_le text_le-total text_le_trans _,
  );
}
  where
    test : FileEntry → Bool
    test f = hash_differs (by_path old.files f.rel_path) f

    changed :
        (p : Text)
        → Memᴰ p
            (sort text_le (kept (λ f. hash_differs (by_path old.files f.rel_path) f) new.files))
          ↔ Among new.files p (Rehashed old p)
    changed p = (
      λ m.
          let (f, m', e, h) = kept_sound test p new.files ((sort-mem text_le p _).0 m) in
          (f, m', e, rw e at ((hash_differs_iff (by_path old.files f.rel_path) f).0 h)),
      λ (f, m, e, r). (sort-mem text_le p _).1 (
          kept_complete test p new.files f m e
            ((hash_differs_iff (by_path old.files f.rel_path) f).1 (rw e r))),
    )
