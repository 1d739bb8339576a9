-- ===== src/Validate/Report.antt =====
-- What the two validations report of each file.
use blt.Base.{
  ℕ, ◌≡◌, ◌↔◌, refl, ap, ◌∙◌, true, false, some, List, [], ◌∷◌, inl, inr, arith, ◌==◌, length,
  if◌then◌else◌, All, map, Bool-cases, Option-cases, &&_iff,
}
use blt.Base.Result.{ok, Result-cases}
use blt.Base.Text.{Text, ◌=t◌, =t_iff, =t_self}
use blt.Manifest.{Hash, FileEntry, Manifest}
use blt.Transfer.{Dest, Fs, safe_join, has_size, check_entries, complete, completeness_check}
use blt.Transfer.Complete.{completeness_check_lem}
use blt.Validate.{
  passed, missing, hash_mismatch, FileCheck, is_passed, all_ok, failures, ok_count, size_detail,
  quick_detail, quick_files, validate_quick, deep_detail, deep_files, validate_deep,
}

-- The entries of the completeness check for a manifest.
abbrev pub entries : List FileEntry → List (Text × ℕ)
entries files = map (λ f. (f.rel_path, f.size)) files

size_detail-passed :
    (size : ℕ) (bytes : List ℕ) → is_passed (size_detail size (some bytes)) ≡ (length bytes == size)
size_detail-passed size bytes = elim (Bool-cases (length bytes == size)) [
  | inl e ↦ rw e refl
  | inr e ↦ rw e refl
]

quick_detail-passed :
    (fs : Fs) (f : FileEntry) → is_passed (quick_detail fs f) ≡ has_size fs (f.rel_path, f.size)
unfolding quick_detail has_size
quick_detail-passed fs f = elim (Result-cases (safe_join f.rel_path)) [
  | inl (e, j) ↦ rw (quick_detail, has_size, j) refl
  | inr (path, j) ↦ elim (Option-cases (fs path)) [
    | inl o ↦ rw (quick_detail, has_size, j, o) refl
    | inr (bytes, o) ↦ rw (quick_detail, has_size, j, o) (size_detail-passed f.size bytes)
  ]
]

-- The two loops agree on each list of files.
record Agrees (fs : Fs) (files : List FileEntry) : Type 0 where
  pub passed_count : ok_count (quick_files fs files) ≡ (check_entries fs (entries files)).0
  pub failed_paths :
      map FileCheck.rel_path (failures (quick_files fs files))
      ≡ (check_entries fs (entries files)).1
  pub all_passed :
      (all_ok (quick_files fs files) ≡ true) ↔ All (λ e. has_size fs e ≡ true) (entries files)

quick_files-Agrees : (fs : Fs) (files : List FileEntry) → Agrees fs files
unfolding check_entries ok_count failures all_ok quick_files
quick_files-Agrees fs [] = record {
  passed_count = refl;
  failed_paths = refl;
  all_passed = (λ h. tt, λ h. refl);
}
quick_files-Agrees fs (f ∷ files) =
    let rest = quick_files-Agrees fs files in
    elim (Bool-cases (has_size fs (f.rel_path, f.size))) [
      | inl e ↦
          let p : is_passed (quick_detail fs f) ≡ true = quick_detail-passed fs f ∙ e in
          record {
            passed_count = rw (e, p) (omega (arith, rest.passed_count));
            failed_paths = rw (e, p) rest.failed_paths;
            all_passed = rw (e, p) (λ h. (refl, rest.all_passed.0 h), λ h. rest.all_passed.1 h.1);
          }
      | inr e ↦
          let p : is_passed (quick_detail fs f) ≡ false = quick_detail-passed fs f ∙ e in
          record {
            passed_count = rw (e, p) rest.passed_count;
            failed_paths = rw (e, p) (ap (◌∷◌ f.rel_path) rest.failed_paths);
            all_passed =
                rw (e, p) (λ h. absurd (cc), λ h. absurd (let no : false ≡ true = h.0 in cc));
          }
    ]

-- The quick validation and the completeness check of the manifest's paths and sizes agree: as many
-- files pass as are present, the paths that fail are those reported missing, in the same order, and
-- all pass exactly when the check is complete.
pub validate_quick-completeness_check :
    (m : Manifest) (fs : Fs)
    → let check = completeness_check fs (entries m.files) in
      (ok_count (validate_quick m fs) ≡ check.present)
      × (map FileCheck.rel_path (failures (validate_quick m fs)) ≡ check.missing)
      × ((all_ok (validate_quick m fs) ≡ true) ↔ (complete check ≡ true))
unfolding validate_quick completeness_check
validate_quick-completeness_check m fs =
    let agrees = quick_files-Agrees fs m.files in
    let whole = (completeness_check_lem fs (entries m.files)).1 in
    (
      agrees.passed_count,
      agrees.failed_paths,
      (λ h. whole.1 (agrees.all_passed.0 h), λ h. agrees.all_passed.1 (whole.0 h)),
    )

module _ (hash_bytes : List ℕ → Hash) where
  -- The file is at a legal destination, and its bytes hash to the manifest's hash.
  abbrev pub HasHash : Fs → FileEntry → Type 0
  HasHash fs f =
      (path : Dest) × (safe_join f.rel_path ≡ ok path)
      × (bytes : List ℕ) × (fs path ≡ some bytes)
      × (hash_bytes bytes ≡ f.hash)

  HasHash-deep_detail :
      (fs : Fs) (f : FileEntry) → HasHash fs f → is_passed (deep_detail hash_bytes fs f) ≡ true
  unfolding deep_detail
  HasHash-deep_detail fs f (path, j, bytes, o, h) = rw (deep_detail, j, o, h, =t_self f.hash) refl

  deep_detail-HasHash :
      (fs : Fs) (f : FileEntry) → is_passed (deep_detail hash_bytes fs f) ≡ true → HasHash fs f
  unfolding deep_detail
  deep_detail-HasHash fs f h = elim (Result-cases (safe_join f.rel_path)) [
    | inl (e, j) ↦ absurd (let no : is_passed missing ≡ true = rw (deep_detail, j) at h in cc)
    | inr (path, j) ↦ elim (Option-cases (fs path)) [
      | inl o ↦ absurd (let no : is_passed missing ≡ true = rw (deep_detail, j, o) at h in cc)
      | inr (bytes, o) ↦
          let test : is_passed (if hash_bytes bytes =t f.hash then passed else hash_mismatch)
              ≡ true =
            rw (deep_detail, j, o) at h in
          (path, j, bytes, o, (=t_iff (hash_bytes bytes) f.hash).0 (ground arith))
    ]
  ]

  deep_files-HasHash :
      (fs : Fs) (files : List FileEntry)
      → (all_ok (deep_files hash_bytes fs files) ≡ true) ↔ All (HasHash fs) files
  unfolding deep_files all_ok
  deep_files-HasHash fs [] = (λ h. tt, λ h. refl)
  deep_files-HasHash fs (f ∷ files) = (
    λ h.
        let (a, b) = (&&_iff _ _).0 h in
        (deep_detail-HasHash fs f a, (deep_files-HasHash fs files).0 b),
    λ h. (&&_iff _ _).1 (HasHash-deep_detail fs f h.0, (deep_files-HasHash fs files).1 h.1),
  )

  -- The deep verification passes exactly when every file of the manifest is at a legal destination
  -- with bytes that hash to the manifest's hash of it.
  pub validate_deep_lem :
      (m : Manifest) (fs : Fs)
      → (all_ok (validate_deep hash_bytes m fs) ≡ true) ↔ All (HasHash fs) m.files
  unfolding validate_deep
  validate_deep_lem m fs = deep_files-HasHash fs m.files
