-- ===== src/Validate/Sized.antt =====
-- What a quick validation that passes says of the files.
use blt.Base.{
  ℕ, ◌≡◌, ◌∙◌, sym, true, false, ◌==◌, ==_iff, &&_iff, some, List, [], ◌∷◌, length, All, inl, inr,
  Bool-cases, Option-cases,
}
use blt.Base.Result.{ok, Result-cases}
use blt.Manifest.{FileEntry, Manifest}
use blt.Transfer.{Dest, Fs, safe_join}
use blt.Validate.{is_passed, size_detail, quick_detail, quick_files, validate_quick, all_ok}
use blt.Validate.Layout.{quick_files-cons}

-- The file is at its legal destination, and has its size.
abbrev pub HasSize : Fs → FileEntry → Type 0
HasSize fs f =
    (path : Dest) × (bytes : List ℕ) × (safe_join f.rel_path ≡ ok path)
    × (fs path ≡ some bytes)
    × (length bytes ≡ f.size)

size_detail_passed :
    (size : ℕ) (bytes : List ℕ)
    → is_passed (size_detail size (some bytes)) ≡ true
    → length bytes ≡ size
size_detail_passed size bytes h = elim (Bool-cases (length bytes == size)) [
  | inl e ↦ (==_iff (length bytes) size).0 e
  | inr e ↦ absurd (let bad : false ≡ true = rw e at h in cc)
]

quick_detail-HasSize :
    (fs : Fs) (f : FileEntry) → is_passed (quick_detail fs f) ≡ true → HasSize fs f
unfolding quick_detail
quick_detail-HasSize fs f h = elim (Result-cases (safe_join f.rel_path)) [
  | inl (e, j) ↦ absurd (let bad : false ≡ true = rw (quick_detail, j) at h in cc)
  | inr (path, j) ↦ elim (Option-cases (fs path)) [
    | inl o ↦ absurd (let bad : false ≡ true = rw (quick_detail, j, o) at h in cc)
    | inr (bytes, o) ↦
        let fits : is_passed (size_detail f.size (some bytes)) ≡ true =
          rw (quick_detail, j, o) at h in
        (path, bytes, j, o, size_detail_passed f.size bytes fits)
  ]
]

quick_files-HasSize :
    (fs : Fs) (files : List FileEntry)
    → all_ok (quick_files fs files) ≡ true
    → All (HasSize fs) files
quick_files-HasSize fs [] h = tt
quick_files-HasSize fs (f ∷ files) h =
    let (here, later) = (&&_iff _ _).0 (sym (quick_files-cons fs f files) ∙ h) in
    (quick_detail-HasSize fs f here, quick_files-HasSize fs files later)

pub validate_quick-HasSize :
    (m : Manifest) (fs : Fs) → all_ok (validate_quick m fs) ≡ true → All (HasSize fs) m.files
unfolding validate_quick
validate_quick-HasSize m fs h = quick_files-HasSize fs m.files h
