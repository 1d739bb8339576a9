-- ===== src/Validate/Layout.antt =====
-- `finalize_layout` only cuts files short, and what it does not do for an empty file.
use mathlib.Core.List.{Memᴰ}
use mathlib.Core.Path.{subst}
use blt.Base.{
  ℕ, zero, suc, ◌≤◌, ◌<◌, ◌≡◌, refl, sym, ap, ◌∙◌, Bool, true, false, ◌&&◌, Option, none, some,
  List, [], ◌∷◌, inl, inr, arith, ltb, ◌==◌, ==_iff, length, length-take, if◌then◌else◌, take, All,
  Bool-cases, Option-cases, ltb→lt,
}
use blt.Base.Result.{ok, >>=-eq-ok, ok_inj}
use blt.Manifest.{FileEntry, Manifest}
use blt.Transfer.{Dest, Fs, same_dest, or_new, safe_join}
use blt.Transfer.Dest.{same_dest-eq, same_dest_self}
use blt.Validate.{
  put, create, truncate_long, finalize_file, finalize_files, finalize_layout, size_detail,
  quick_detail, quick_files, validate_quick, all_ok, is_passed,
}

abbrev pub is_some : Option (List ℕ) → Bool
is_some none = false
is_some (some bytes) = true

-- What one file becomes: it stays, is cut to its first bytes but to none only if it had none, or is created empty.
pub record IsCut (before after : Option (List ℕ)) : Type 0 where
  pub kept : is_some before ≡ true → is_some after ≡ true
  pub prefix : or_new after ≡ take (length (or_new after)) (or_new before)
  pub shorter : length (or_new after) ≤ length (or_new before)
  pub filled : 0 < length (or_new before) → 0 < length (or_new after)

take_all : (xs : List ℕ) → take (length xs) xs ≡ xs
take_all [] = refl
take_all (x ∷ xs) = ap (◌∷◌ x) (take_all xs)

take-take : (n : ℕ) (m : ℕ) (xs : List ℕ) → n ≤ m → take n (take m xs) ≡ take n xs
take-take zero m xs h = refl
take-take (suc n) zero xs h = absurd (omega arith)
take-take (suc n) (suc m) [] h = refl
take-take (suc n) (suc m) (x ∷ xs) h = ap (◌∷◌ x) (take-take n m xs (omega arith))

IsCut-refl : (o : Option (List ℕ)) → IsCut o o
IsCut-refl o = record {
  kept = λ h. h;
  prefix = sym (take_all (or_new o));
  shorter = omega arith;
  filled = λ h. h;
}

IsCut-trans : (a b c : Option (List ℕ)) → IsCut a b → IsCut b c → IsCut a c
IsCut-trans a b c p q = record {
  kept = λ h. q.kept (p.kept h);
  prefix =
      q.prefix
      ∙ ap (take (length (or_new c))) p.prefix
      ∙ take-take (length (or_new c)) (length (or_new b)) (or_new a) q.shorter;
  shorter = omega (arith, p.shorter, q.shorter);
  filled = λ h. q.filled (p.filled h);
}

length-take_short : (n : ℕ) (xs : List ℕ) → n ≤ length xs → length (take n xs) ≡ n
length-take_short zero xs h = refl
length-take_short (suc n) [] h = absurd (omega arith)
length-take_short (suc n) (x ∷ xs) h = ap suc (length-take_short n xs (omega arith))

create-IsCut : (o : Option (List ℕ)) → IsCut o (some (or_new o))
create-IsCut o = record {
  kept = λ h. refl;
  prefix = sym (take_all (or_new o));
  shorter = omega arith;
  filled = λ h. h;
}

truncate-IsCut :
    (bytes : List ℕ) (size : ℕ)
    → 0 < size
    → size < length bytes
    → IsCut (some bytes) (some (take size bytes))
truncate-IsCut bytes size pos h =
    let len = length-take_short size bytes (omega arith) in
    record {
      kept = λ p. refl;
      prefix = rw len refl;
      shorter = omega (arith, len);
      filled = λ p. omega (arith, len);
    }

abbrev pub Cuts : Fs → Fs → Type 0
Cuts fs fs' = (dest : Dest) → IsCut (fs dest) (fs' dest)

put-Cuts :
    (fs : Fs) (path : Dest) (bytes : List ℕ)
    → IsCut (fs path) (some bytes)
    → Cuts fs (put fs path bytes)
put-Cuts fs path bytes cut dest = elim (Bool-cases (same_dest path dest)) [
  | inl e ↦ rw (put, e) (subst (λ d. IsCut (fs d) (some bytes)) (same_dest-eq path dest e) cut)
  | inr e ↦ rw (put, e) (IsCut-refl (fs dest))
]

truncate_long-Cuts :
    (fs : Fs) (path : Dest) (size : ℕ) → 0 < size → Cuts fs (truncate_long fs path size (fs path))
truncate_long-Cuts fs path size pos = elim (Option-cases (fs path)) [
  | inl e ↦ rw (e, truncate_long) (λ dest. IsCut-refl (fs dest))
  | inr (bytes, e) ↦ elim (Bool-cases (ltb size (length bytes))) [
    | inr d ↦ rw (e, truncate_long, d) (λ dest. IsCut-refl (fs dest))
    | inl d ↦
        rw (e, truncate_long, d)
          (put-Cuts fs path (take size bytes)
            (rw e (truncate-IsCut bytes size pos (ltb→lt size (length bytes) d))))
  ]
]

-- What the loop leaves at the destination of a file: an empty file exists, another one that exists has
-- at most its size.
abbrev pub Fits : Fs → FileEntry → Type 0
Fits fs f =
    (path : Dest) × (safe_join f.rel_path ≡ ok path)
    × (f.size ≡ 0 → is_some (fs path) ≡ true)
    × (0 < f.size → length (or_new (fs path)) ≤ f.size)

Cuts-Fits : (fs fs' : Fs) (f : FileEntry) → Cuts fs fs' → Fits fs f → Fits fs' f
Cuts-Fits fs fs' f cuts (path, j, p, q) =
    (path, j, λ z. (cuts path).kept (p z), λ z. omega (arith, q z, (cuts path).shorter))

create_fits : (fs : Fs) (path : Dest) → is_some (create fs path path) ≡ true
create_fits fs path = rw (create, put, same_dest_self path)

truncate_long_fits :
    (fs : Fs) (path : Dest) (size : ℕ)
    → length (or_new (truncate_long fs path size (fs path) path)) ≤ size
truncate_long_fits fs path size = elim (Option-cases (fs path)) [
  | inl e ↦ rw (e, truncate_long, e) (omega arith)
  | inr (bytes, e) ↦ elim (Bool-cases (ltb size (length bytes))) [
    | inr d ↦ rw (e, truncate_long, d, e) (ground arith)
    | inl d ↦
        rw (e, truncate_long, d, put, same_dest_self path) (omega (arith, length-take size bytes))
  ]
]

finalize_file_lem :
    (f : FileEntry) (fs fs' : Fs) → finalize_file f fs ≡ ok fs' → Cuts fs fs' × Fits fs' f
unfolding finalize_file
finalize_file_lem f fs fs' h =
    let (path, j, w) =
      >>=-eq-ok (safe_join f.rel_path)
        (λ path.
          ok (if f.size == 0 then create fs path else truncate_long fs path f.size (fs path)))
        h in
    let end : (if f.size == 0 then create fs path else truncate_long fs path f.size (fs path))
        ≡ fs' =
      ok_inj _ fs' w in
    elim (Bool-cases (f.size == 0)) [
      | inl z ↦
          let zero_size : f.size ≡ 0 = (==_iff f.size 0).0 z in
          let made : create fs path ≡ fs' = rw z at end in
          subst (λ g. Cuts fs g × Fits g f) made
            (
              put-Cuts fs path (or_new (fs path)) (create-IsCut (fs path)),
              (path, j, λ e. create_fits fs path, λ pos. absurd (omega (arith, zero_size))),
            )
      | inr z ↦
          let pos : 0 < f.size = ground (arith, z) in
          let made : truncate_long fs path f.size (fs path) ≡ fs' = rw z at end in
          subst (λ g. Cuts fs g × Fits g f) made
            (
              truncate_long-Cuts fs path f.size pos,
              (path, j, λ e. absurd (omega arith), λ e. truncate_long_fits fs path f.size),
            )
    ]

finalize_files_lem :
    (files : List FileEntry) (fs fs' : Fs)
    → finalize_files files fs ≡ ok fs'
    → Cuts fs fs' × All (Fits fs') files
unfolding finalize_files
finalize_files_lem [] fs fs' h =
    let end : fs ≡ fs' = ok_inj fs fs' h in (subst (Cuts fs) end (λ dest. IsCut-refl (fs dest)), tt)
finalize_files_lem (f ∷ files) fs fs' h =
    let (mid, first, rest) = >>=-eq-ok (finalize_file f fs) (finalize_files files) h in
    let (cuts, fits) = finalize_file_lem f fs mid first in
    let (cuts', all) = finalize_files_lem files mid fs' rest in
    (
      λ dest. IsCut-trans (fs dest) (mid dest) (fs' dest) (cuts dest) (cuts' dest),
      (Cuts-Fits mid fs' f cuts' fits, all),
    )

-- A layout that succeeds leaves each file as it was, cuts it to its first bytes, at least one if it had
-- any, or creates it empty. Afterwards the destination of every file of the manifest is a legal one,
-- the empty files are there, and no other file is longer than its size in the manifest.
pub finalize_layout_lem :
    (m : Manifest) (fs fs' : Fs)
    → finalize_layout m fs ≡ ok fs'
    → Cuts fs fs' × All (Fits fs') m.files
unfolding finalize_layout
finalize_layout_lem m fs fs' h = finalize_files_lem m.files fs fs' h

-- The report of a destination that holds bytes fails for a file of no bytes.
size_detail_empty :
    (o : Option (List ℕ)) → 0 < length (or_new o) → is_passed (size_detail 0 o) ≡ false
size_detail_empty none h = absurd (omega arith)
size_detail_empty (some []) h = absurd (omega arith)
size_detail_empty (some (b ∷ bytes)) h = ground arith

pub quick_files-cons :
    (fs : Fs) (f : FileEntry) (files : List FileEntry)
    → all_ok (quick_files fs (f ∷ files))
      ≡ (is_passed (quick_detail fs f) && all_ok (quick_files fs files))
unfolding quick_files all_ok
quick_files-cons fs f files = refl

quick_files_fails :
    (fs : Fs) (f : FileEntry) (files : List FileEntry)
    → Memᴰ f files
    → is_passed (quick_detail fs f) ≡ false
    → all_ok (quick_files fs files) ≡ false
quick_files_fails fs f [] mem h = elim mem [ ]
quick_files_fails fs f (g ∷ files) (Memᴰ.head e) h =
    rw (quick_files-cons fs g files, subst (λ x. is_passed (quick_detail fs x) ≡ false) e h)
quick_files_fails fs f (g ∷ files) (Memᴰ.tail m) h =
    rw (quick_files-cons fs g files) (ground (arith, quick_files_fails fs f files m h))

quick_detail-ok :
    (fs : Fs) (f : FileEntry) (path : Dest)
    → safe_join f.rel_path ≡ ok path
    → quick_detail fs f ≡ size_detail f.size (fs path)
unfolding quick_detail
quick_detail-ok fs f path j = rw (quick_detail, j) refl

-- If the destination of a file of no bytes holds bytes, then a layout that succeeds leaves a prefix of
-- them there that is not empty, and the quick validation after it fails.
pub finalize_layout-validate_quick :
    (m : Manifest) (f : FileEntry) (fs fs' : Fs) (path : Dest)
    → Memᴰ f m.files
    → f.size ≡ 0
    → safe_join f.rel_path ≡ ok path
    → 0 < length (or_new (fs path))
    → finalize_layout m fs ≡ ok fs'
    → (or_new (fs' path) ≡ take (length (or_new (fs' path))) (or_new (fs path)))
      × (0 < length (or_new (fs' path)))
      × (all_ok (validate_quick m fs') ≡ false)
unfolding validate_quick
finalize_layout-validate_quick m f fs fs' path mem z j pos h =
    let (cuts, fits) = finalize_layout_lem m fs fs' h in
    (
      (cuts path).prefix,
      (cuts path).filled pos,
      quick_files_fails fs' f m.files mem (
          rw (quick_detail-ok fs' f path j, z)
            (size_detail_empty (fs' path) ((cuts path).filled pos))),
    )
