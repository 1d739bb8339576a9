-- ===== src/Manifest/Paths.antt =====
-- The paths of a manifest's files, the map by path, and what the loops of `diff` collect.
use mathlib.Core.List.{Memᴰ}
use mathlib.Core.List.Memᴰ.{cases_cons}
use blt.Base.{
  Bool, ◌≡◌, ◌≢◌, ◌↔◌, refl, ap, sym, ◌∙◌, Option, none, some, List, [], ◌∷◌, arith, true, false,
  not, if◌then◌else◌, inl, inr, Bool-cases, Option-cases,
}
use blt.Base.Sort.{sort, sort-mem}
use blt.Base.Text.{Text, ◌=t◌, =t_iff, text_le}
use blt.Manifest.{FileEntry, by_path, added_paths, changed_paths, removed_paths}

abbrev pub paths : List FileEntry → List Text
paths [] = []
paths (f ∷ fs) = f.rel_path ∷ paths fs

-- The map has an entry for the paths of the files, and for no other.
by_path-none : (fs : List FileEntry) (p : Text) → by_path fs p ≡ none → ¬ Memᴰ p (paths fs)
unfolding by_path
by_path-none [] p h m = elim m [ ]
by_path-none (f ∷ fs) p h (Memᴰ.head e) = elim (Option-cases (by_path fs p)) [
  | inl n ↦ ground (arith, =t_iff f.rel_path p)
  | inr (g, s) ↦ ground arith
]
by_path-none (f ∷ fs) p h (Memᴰ.tail m) = elim (Option-cases (by_path fs p)) [
  | inl n ↦ by_path-none fs p n m
  | inr (g, s) ↦ ground arith
]

by_path-some :
    (fs : List FileEntry) (p : Text) (g : FileEntry) → by_path fs p ≡ some g → Memᴰ p (paths fs)
unfolding by_path
by_path-some [] p g h = absurd (cc)
by_path-some (f ∷ fs) p g h = elim (Option-cases (by_path fs p)) [
  | inl n ↦ Memᴰ.head (ground (arith, =t_iff f.rel_path p))
  | inr (k, s) ↦ Memᴰ.tail (by_path-some fs p k s)
]

by_path-absent : (fs : List FileEntry) (p : Text) → ¬ Memᴰ p (paths fs) → by_path fs p ≡ none
by_path-absent fs p h = elim (Option-cases (by_path fs p)) [
  | inl n ↦ n
  | inr (g, s) ↦ absurd (h (by_path-some fs p g s))
]

-- The paths of the files that pass a test, in file order: what each of the three loops collects.
abbrev pub kept : (FileEntry → Bool) → List FileEntry → List Text
kept test [] = []
kept test (f ∷ fs) = if test f then f.rel_path ∷ kept test fs else kept test fs

-- Some file of the list has the path and passes the test.
abbrev pub Among : List FileEntry → Text → (FileEntry → Type 0) → Type 0
Among fs p P = (f : FileEntry) × Memᴰ f fs × (f.rel_path ≡ p) × P f

module _ (test : FileEntry → Bool) (p : Text) where
  pub kept_sound : (fs : List FileEntry) → Memᴰ p (kept test fs) → Among fs p (λ f. test f ≡ true)
  kept_sound [] m = elim m [ ]
  kept_sound (f ∷ fs) m = elim (Bool-cases (test f)) [
    | inl h ↦ elim (cases_cons (rw (h, if◌then◌else◌) at m)) [
      | inl e ↦ (f, Memᴰ.head refl, sym e, h)
      | inr m' ↦ further (kept_sound fs m')
    ]
    | inr h ↦ further (kept_sound fs (rw (h, if◌then◌else◌) at m))
  ]
    where
      further : Among fs p (λ g. test g ≡ true) → Among (f ∷ fs) p (λ g. test g ≡ true)
      further (g, m', e, h) = (g, Memᴰ.tail m', e, h)

  pub kept_complete :
      (fs : List FileEntry) (f : FileEntry)
      → Memᴰ f fs
      → f.rel_path ≡ p
      → test f ≡ true
      → Memᴰ p (kept test fs)
  kept_complete [] f m path h = elim m [ ]
  kept_complete (g ∷ fs) f (Memᴰ.head e) path h =
      let h' : test g ≡ true = rw (← e) h in rw h' (Memᴰ.head (sym path ∙ ap (λ k. k.rel_path) e))
  kept_complete (g ∷ fs) f (Memᴰ.tail m) path h = elim (Bool-cases (test g)) [
    | inl q ↦ rw q (Memᴰ.tail (kept_complete fs f m path h))
    | inr q ↦ rw q (kept_complete fs f m path h)
  ]

abbrev pub is_none {ℓ} : {A : Type ℓ} → Option A → Bool
is_none none = true
is_none (some a) = false

abbrev pub hash_differs : Option FileEntry → FileEntry → Bool
hash_differs none f = false
hash_differs (some o) f = not (o.hash =t f.hash)

pub added-kept :
    (by : Text → Option FileEntry) (fs : List FileEntry)
    → added_paths by fs ≡ kept (λ f. is_none (by f.rel_path)) fs
unfolding added_paths
added-kept by [] = refl
added-kept by (f ∷ fs) = ground (arith, added-kept by fs)

pub removed-kept :
    (by : Text → Option FileEntry) (fs : List FileEntry)
    → removed_paths by fs ≡ kept (λ f. is_none (by f.rel_path)) fs
unfolding removed_paths
removed-kept by [] = refl
removed-kept by (f ∷ fs) = ground (arith, removed-kept by fs)

pub changed-kept :
    (by : Text → Option FileEntry) (fs : List FileEntry)
    → changed_paths by fs ≡ kept (λ f. hash_differs (by f.rel_path) f) fs
unfolding changed_paths
changed-kept by [] = refl
changed-kept by (f ∷ fs) = ground (arith, changed-kept by fs)

pub is_none_iff :
    (fs : List FileEntry) (p : Text) → (is_none (by_path fs p) ≡ true) ↔ (¬ Memᴰ p (paths fs))
is_none_iff fs p = (λ h. by_path-none fs p (none_of h), λ h. rw (by_path-absent fs p h))
  where
    none_of : is_none (by_path fs p) ≡ true → by_path fs p ≡ none
    none_of h = ground arith

-- The path of a file of `fs` that is no path of `gs`.
abbrev pub Only : List FileEntry → List FileEntry → Text → Type 0
Only fs gs p = Memᴰ p (paths fs) × (¬ Memᴰ p (paths gs))

pub mem-paths :
    (fs : List FileEntry) (p : Text)
    → Memᴰ p (paths fs)
    → (f : FileEntry) × Memᴰ f fs × (f.rel_path ≡ p)
mem-paths [] p m = elim m [ ]
mem-paths (f ∷ fs) p (Memᴰ.head e) = (f, Memᴰ.head refl, sym e)
mem-paths (f ∷ fs) p (Memᴰ.tail m) = let (g, m', e) = mem-paths fs p m in (g, Memᴰ.tail m', e)

pub paths-mem : (fs : List FileEntry) (f : FileEntry) → Memᴰ f fs → Memᴰ f.rel_path (paths fs)
paths-mem [] f m = elim m [ ]
paths-mem (g ∷ fs) f (Memᴰ.head e) = Memᴰ.head (ap (λ k. k.rel_path) e)
paths-mem (g ∷ fs) f (Memᴰ.tail m) = Memᴰ.tail (paths-mem fs f m)

pub Only-kept :
    (fs gs : List FileEntry) (p : Text)
    → Memᴰ p (sort text_le (kept (λ f. is_none (by_path gs f.rel_path)) fs)) ↔ Only fs gs p
Only-kept fs gs p = (
  λ m.
      let (f, m', e, h) = kept_sound _ p fs ((sort-mem text_le p _).0 m) in
      (rw e at (paths-mem fs f m'), rw e at ((is_none_iff gs f.rel_path).0 h)),
  λ (m, h).
      let (f, m', e) = mem-paths fs p m in
      (sort-mem text_le p _).1
        (kept_complete _ p fs f m' e ((is_none_iff gs f.rel_path).1 (rw e h))),
)

pub hash_differs_iff :
    (o : Option FileEntry) (f : FileEntry)
    → (hash_differs o f ≡ true) ↔ ((g : FileEntry) × (o ≡ some g) × (g.hash ≢ f.hash))
hash_differs_iff none f = (λ h. absurd (cc), λ (g, e, h). absurd (cc))
hash_differs_iff (some g) f = (
  λ h. (g, refl, λ e. ground (arith, =t_iff g.hash f.hash)),
  λ (k, e, h). differs (λ same_hash. h (cc)),
)
  where
    differs : g.hash ≢ f.hash → not (g.hash =t f.hash) ≡ true
    differs h = ground (arith, =t_iff g.hash f.hash)
