-- ===== src/Downloads/Batch.antt =====
-- Which bits the turn of a batch sets.
use mathlib.Core.Path.{subst}
use blt.Base.{
  ℕ, ◌+◌, ◌≡◌, ◌⊎◌, refl, sym, ap, ◌∙◌, Bool, Option, none, some, List, [], ◌∷◌, inl, inr,
  Option-cases, get_elem?,
}
use blt.Base.Text.{Text}
use blt.Bitmap.{Bitmap, IsValid, has}
use blt.Manifest.{Hash, ChunkLocator}
use blt.Downloads.{Job}
use blt.Downloads.Chunks.{WriteJob, WriteOutcome, Progress, count_failure}
use blt.Downloads.Sound.{
  IsAccounted, AcceptedIn, VerifiedIn, account_all_lem, write_group-VerifiedIn,
}
use blt.Downloads.Run.{
  Run, Fetched, Group, fetched, fetch_interrupted, write_interrupted, collect, settle,
  with_failures, write_jobs, run_groups,
}

IsAccounted-same :
    (p q : Progress) (P : ℕ → Type 0) → q.bitmap ≡ p.bitmap → IsValid p.bitmap → IsAccounted p P q
IsAccounted-same p q P e v = record {
  valid = subst IsValid (sym e) v;
  length_kept = ap Bitmap.len e;
  kept = λ g h. ap (λ b. has b g) e ∙ h;
  only = λ g h. inl (ap (λ b. has b g) (sym e) ∙ h);
}

IsAccounted-trans :
    (p q r : Progress) (P Q R : ℕ → Type 0)
    → ((g : ℕ) → P g → R g)
    → ((g : ℕ) → Q g → R g)
    → IsAccounted p P q
    → IsAccounted q Q r
    → IsAccounted p R r
IsAccounted-trans p q r P Q R f k a b = record {
  valid = b.valid;
  length_kept = b.length_kept ∙ a.length_kept;
  kept = λ g h. b.kept g (a.kept g h);
  only = λ g h. elim (b.only g h) [
    | inl mid ↦ elim (a.only g mid) [ inl before ↦ inl before | inr here ↦ inr (f g here) ]
    | inr here ↦ inr (k g here)
  ];
}

module _ (hash_bytes : List ℕ → Hash) (locators : List ChunkLocator) where
  -- A source answered the request of the chunk with bytes of its hash.
  abbrev pub Answered : Fetched → ℕ → Type 0
  Answered f g =
      (bytes : List ℕ) × (f.answer ≡ some bytes)
      × (loc : ChunkLocator) × (get_elem? locators f.gidx ≡ some loc)
      × (loc.global_idx ≡ g)
      × (hash_bytes bytes ≡ loc.hash)

  abbrev pub AnsweredBy : List Fetched → ℕ → Type 0
  AnsweredBy [] g = ⊥
  AnsweredBy (f ∷ rest) g = Answered f g ⊎ AnsweredBy rest g

  abbrev pub AnsweredIn : List Group → ℕ → Type 0
  AnsweredIn [] g = ⊥
  AnsweredIn (fetched answers ∷ groups) g = AnsweredBy answers g ⊎ AnsweredIn groups g
  AnsweredIn (fetch_interrupted ∷ groups) g = ⊥
  AnsweredIn (write_interrupted answers ∷ groups) g = ⊥

  collect-AnsweredBy :
      (fails : List (Text × ℕ)) (answers : List Fetched) (jobs : List WriteJob)
      (fails' : List (Text × ℕ)) (g : ℕ)
      → collect locators fails answers ≡ some (jobs, fails')
      → VerifiedIn hash_bytes jobs g
      → AnsweredBy answers g
  unfolding collect
  collect-AnsweredBy fails [] jobs fails' g h v =
      let eq : [] ≡ jobs = ap (λ o. elim o [ none ↦ [] | some x ↦ x.0 ]) h in
      subst (λ js. VerifiedIn hash_bytes js g) (sym eq) v
  collect-AnsweredBy fails (f ∷ rest) jobs fails' g h v = elim (Option-cases f.answer) [
    | inl o ↦ inr (
        collect-AnsweredBy (count_failure fails f.source) rest jobs fails' g
          (simp (collect, o) at h) v)
    | inr (bytes, o) ↦ elim (Option-cases (collect locators fails rest)) [
      | inl c ↦ absurd (
          let bad : ◌≡◌ {A = Option (List WriteJob × List (Text × ℕ))} none (some (jobs, fails')) =
            simp (collect, o, c) at h in
          cc)
      | inr ((js, fs), c) ↦ elim (Option-cases (get_elem? locators f.gidx)) [
        | inl l ↦ absurd (
            let bad : ◌≡◌ {A = Option (List WriteJob × List (Text × ℕ))} none
                (some (jobs, fails')) =
              simp (collect, o, c, l) at h in
            cc)
        | inr (loc, l) ↦
            let first : WriteJob = record { loc = loc; source = f.source; bytes = bytes } in
            let eq : ◌≡◌ {A = Option (List WriteJob × List (Text × ℕ))} (some (first ∷ js, fs))
                (some (jobs, fails')) =
              simp (collect, o, c, l) at h in
            let same : first ∷ js ≡ jobs =
              ap (λ x. elim x [ none ↦ first ∷ js | some y ↦ y.0 ]) eq in
            elim (subst (λ x. VerifiedIn hash_bytes x g) (sym same) v) [
              | inl (i, good) ↦ inl (bytes, o, loc, l, i, good)
              | inr later ↦ inr (collect-AnsweredBy fails rest js fs g c later)
            ]
      ]
    ]
  ]

  settle_lem :
      (r : Run) (outs : List WriteOutcome)
      → IsValid r.progress.bitmap
      → (n : ℕ) × (end : Run) × (settle r outs ≡ some (n, end))
        × IsAccounted r.progress (AcceptedIn outs) end.progress
  unfolding settle
  settle_lem r outs v =
      let (n, end, e, i) = account_all_lem r.progress outs v in
      (n, record r { progress = end; since_persist = r.since_persist + n }, simp (settle, e), i)

  -- What a batch leaves, with the outcomes that were pending before it.
  Grown : Run → List WriteOutcome → List Group → Option ((ℕ × Bool) × Run) → Type 0
  Grown r pending groups none = Unit
  Grown r pending groups (some (counts, end)) =
      IsAccounted r.progress (λ g. AcceptedIn pending g ⊎ AnsweredIn groups g) end.progress

  grown :
      (p q end : Progress) (pending outs : List WriteOutcome) (answers : List Fetched)
      (groups : List Group)
      → IsAccounted p (AcceptedIn pending) q
      → IsAccounted q (λ g. AcceptedIn outs g ⊎ AnsweredIn groups g) end
      → ((g : ℕ) → AcceptedIn outs g → AnsweredBy answers g)
      → IsAccounted p (λ g. AcceptedIn pending g ⊎ AnsweredIn (fetched answers ∷ groups) g) end
  grown p q end pending outs answers groups i later f =
      IsAccounted-trans p q end (AcceptedIn pending) (λ g. AcceptedIn outs g ⊎ AnsweredIn groups g)
        (λ g. AcceptedIn pending g ⊎ AnsweredIn (fetched answers ∷ groups) g) (λ g h. inl h)
        (λ g h. elim h [ inl w ↦ inr (inl (f g w)) | inr l ↦ inr (inr l) ]) i later

  run_groups-Grown :
      (job : Job) (r : Run) (pending : List WriteOutcome) (groups : List Group)
      → IsValid r.progress.bitmap
      → Grown r pending groups (run_groups hash_bytes job locators r pending groups)
  unfolding run_groups Grown
  run_groups-Grown job r pending [] v =
      let (n, end, e, i) = settle_lem r pending v in
      simp (run_groups, e)
        (IsAccounted-trans r.progress r.progress end.progress (AcceptedIn pending)
          (AcceptedIn pending) (λ g. AcceptedIn pending g ⊎ ⊥) (λ g h. inl h) (λ g h. inl h)
          (IsAccounted-same r.progress r.progress (AcceptedIn pending) refl v) i)
  run_groups-Grown job r pending (fetch_interrupted ∷ groups) v =
      IsAccounted-same r.progress r.progress (λ g. AcceptedIn pending g ⊎ ⊥) refl v
  run_groups-Grown job r pending (write_interrupted answers ∷ groups) v =
      elim (Option-cases (collect locators r.progress.failures answers)) [
        | inl c ↦ simp (run_groups, c) tt
        | inr ((jobs, fails), c) ↦
            simp (run_groups, c)
              (IsAccounted-same r.progress (with_failures r fails).progress
                (λ g. AcceptedIn pending g ⊎ ⊥) refl v)
      ]
  run_groups-Grown job r pending (fetched answers ∷ groups) v =
      elim (Option-cases (collect locators r.progress.failures answers)) [
        | inl c ↦ simp (run_groups, c) tt
        | inr ((jobs, fails), c) ↦
            let (n, r', e, i) = settle_lem (with_failures r fails) pending v in
            let next : Run = (write_jobs hash_bytes r' jobs).0 in
            let outs : List WriteOutcome = (write_jobs hash_bytes r' jobs).1 in
            let rest = run_groups-Grown job next outs groups i.valid in
            elim (Option-cases (run_groups hash_bytes job locators next outs groups)) [
              | inl o ↦ simp (run_groups, c, e, o) tt
              | inr (((more, interrupted), end), o) ↦
                  let later : IsAccounted r'.progress (λ g. AcceptedIn outs g ⊎ AnsweredIn groups g)
                      end.progress =
                    subst (Grown next outs groups) o rest in
                  simp (run_groups, c, e, o)
                    (grown r.progress r'.progress end.progress pending outs answers groups
                      (IsAccounted-trans r.progress (with_failures r fails).progress r'.progress
                        (AcceptedIn pending) (AcceptedIn pending) (AcceptedIn pending) (λ g h. h)
                        (λ g h. h)
                        (IsAccounted-same r.progress (with_failures r fails).progress
                          (AcceptedIn pending) refl v)
                        i)
                      later
                      (λ g w.
                        collect-AnsweredBy r.progress.failures answers jobs fails g c
                          (write_group-VerifiedIn hash_bytes r'.writer r'.fs jobs g w)))
            ]
      ]

  -- A batch on a valid bitmap, whatever the sources answer and wherever it is interrupted, leaves a
  -- valid bitmap of the same length; every bit that was set stays set, and a bit that is new belongs
  -- to a chunk that a source answered with bytes of its hash.
  pub run_groups-IsAccounted :
      (job : Job) (r : Run) (groups : List Group) (counts : ℕ × Bool) (end : Run)
      → IsValid r.progress.bitmap
      → run_groups hash_bytes job locators r [] groups ≡ some (counts, end)
      → IsAccounted r.progress (AnsweredIn groups) end.progress
  unfolding Grown
  run_groups-IsAccounted job r groups counts end v h =
      let i : IsAccounted r.progress (λ g. AcceptedIn [] g ⊎ AnsweredIn groups g) end.progress =
        subst (Grown r [] groups) h (run_groups-Grown job r [] groups v) in
      record {
        valid = i.valid;
        length_kept = i.length_kept;
        kept = i.kept;
        only = λ g k. elim (i.only g k) [
          | inl before ↦ inl before
          | inr (inr here) ↦ inr here
          | inr (inl none_pending) ↦ elim none_pending [ ]
        ];
      }
