-- ===== src/Downloads/Tries.antt =====
-- How often a job validates.
use mathlib.Core.Option
use mathlib.Core.Path.{subst}
use blt.Base.{
  ℕ, ◌+◌, ◌≤◌, ◌<◌, ◌≡◌, refl, sym, ap, ◌∙◌, Bool, true, false, ◌||◌, Option, none, some, List, [],
  ◌∷◌, map, arith, leb, ◌==◌, if◌then◌else◌, inl, inr, Bool-cases, Option-cases,
}
use blt.Base.Result.{Result-cases}
use blt.Base.Text.{Text}
use blt.Bitmap.{Bitmap, missing}
use blt.Manifest.{Hash, Manifest, ChunkLocator, chunk_locators}
use blt.Validate.{FileCheck, finalize_layout, validate_quick, all_ok, failures}
use blt.Pool.{close_all}
use blt.Downloads.{Job}
use blt.Downloads.Chunks.{WriteOutcome, account_all}
use blt.Downloads.Run.{
  Run, Group, fetched, fetch_interrupted, write_interrupted, Outcome, again, stopped, complete,
  failed, collect, settle, with_failures, write_jobs, clear_failed, refetch, with_bitmap,
  validate_turn, checkpoint, persist_every, after_batch, run_groups, turn,
}

-- The tries of the run that a batch leaves.
abbrev SameTries : ℕ → Option ((ℕ × Bool) × Run) → Type 0
SameTries n none = Unit
SameTries n (some (counts, end)) = end.validate_tries ≡ n

settle-tries :
    (r : Run) (outs : List WriteOutcome) (n : ℕ) (end : Run)
    → settle r outs ≡ some (n, end)
    → end.validate_tries ≡ r.validate_tries
unfolding settle
settle-tries r outs n end h = elim (Option-cases (account_all r.progress outs)) [
  | inl o ↦
      absurd
        (let bad : ◌≡◌ {A = Option (ℕ × Run)} none (some (n, end)) = simp (settle, o) at h in cc)
  | inr ((m, p), o) ↦
      let eq : ◌≡◌ {A = Option (ℕ × Run)}
          (some (m, record r { progress = p; since_persist = r.since_persist + m }))
          (some (n, end)) =
        simp (settle, o) at h in
      sym (ap (λ x. elim x [ none ↦ r.validate_tries | some y ↦ y.1.validate_tries ]) eq)
]

module _ (hash_bytes : List ℕ → Hash) (locators : List ChunkLocator) (job : Job) where
  run_groups-tries :
      (r : Run) (pending : List WriteOutcome) (groups : List Group)
      → SameTries r.validate_tries (run_groups hash_bytes job locators r pending groups)
  unfolding run_groups
  run_groups-tries r pending [] = elim (Option-cases (settle r pending)) [
    | inl o ↦ simp (run_groups, o) tt
    | inr ((n, end), o) ↦ simp (run_groups, o) (settle-tries r pending n end o)
  ]
  run_groups-tries r pending (fetch_interrupted ∷ groups) = refl
  run_groups-tries r pending (write_interrupted answers ∷ groups) =
      elim (Option-cases (collect locators r.progress.failures answers)) [
        | inl c ↦ simp (run_groups, c) tt
        | inr ((jobs, fails), c) ↦ simp (run_groups, c) refl
      ]
  run_groups-tries r pending (fetched answers ∷ groups) =
      elim (Option-cases (collect locators r.progress.failures answers)) [
        | inl c ↦ simp (run_groups, c) tt
        | inr ((jobs, fails), c) ↦ elim (Option-cases (settle (with_failures r fails) pending)) [
          | inl e ↦ simp (run_groups, c, e) tt
          | inr ((n, r'), e) ↦
              let next : Run = (write_jobs hash_bytes r' jobs).0 in
              let outs : List WriteOutcome = (write_jobs hash_bytes r' jobs).1 in
              let rest = run_groups-tries next outs groups in
              elim (Option-cases (run_groups hash_bytes job locators next outs groups)) [
                | inl o ↦ simp (run_groups, c, e, o) tt
                | inr ((counts, end), o) ↦
                    let later : end.validate_tries ≡ r'.validate_tries =
                      subst (SameTries r'.validate_tries) o rest in
                    simp (run_groups, c, e, o)
                      (later ∙ settle-tries (with_failures r fails) pending n r' e)
              ]
        ]
      ]

abbrev one_if : Bool → ℕ
one_if b = if b then 1 else 0

one_if_bounded : (b : Bool) → one_if b ≤ 1
one_if_bounded true = omega arith
one_if_bounded false = omega arith

last_turn : (a tries : ℕ) → a ≤ 1 → tries < 3 → a + 0 + tries ≤ 3
last_turn a tries h k = omega arith

more_turns : (a rest tries next : ℕ) → next ≡ tries + a → rest + next ≤ 3 → a + rest + tries ≤ 3
more_turns a rest tries next h k = omega arith

-- What a turn does to the tries of a run that has some left.
abbrev AgainTries : ℕ → Bool → Option Outcome → Type 0
AgainTries n v none = Unit
AgainTries n v (some (again r)) = (r.validate_tries ≡ n + one_if v) × (r.validate_tries < 3)
AgainTries n v (some (stopped r)) = Unit
AgainTries n v (some (complete r)) = Unit
AgainTries n v (some (failed t)) = Unit

abbrev validates : Run → (cancelled paused : Bool) → Bool
validates r cancelled paused =
    if cancelled || paused then false else elim (missing r.progress.bitmap) [
      | none ↦ false
      | some [] ↦ true
      | some (x ∷ absent) ↦ false
    ]

module _ (message : List Text → Text) (job : Job) (m : Manifest) where
  refetch-AgainTries :
      (n : ℕ) (r' : Run) (t : Text) (o : Option Bitmap)
      → r'.validate_tries ≡ n
      → AgainTries n true (Option.map (λ bm. refetch job (with_bitmap r' bm) t) o)
  refetch-AgainTries n r' t none e = tt
  refetch-AgainTries n r' t (some bm) e = elim (Bool-cases (leb 3 (r'.validate_tries + 1))) [
    | inl h ↦ simp (h) tt
    | inr h ↦ simp (h) (ap (λ k. k + 1) e, ground arith)
  ]

  validate_turn-AgainTries :
      (r : Run) → AgainTries r.validate_tries true (validate_turn message job m r)
  unfolding validate_turn
  validate_turn-AgainTries r = elim (Result-cases (finalize_layout m r.fs)) [
    | inl (e, f) ↦ simp (validate_turn, f) tt
    | inr (fs, f) ↦ elim (Bool-cases (all_ok (validate_quick m fs))) [
      | inl v ↦ simp (validate_turn, f, v) tt
      | inr v ↦
          simp (validate_turn, f, v)
            (refetch-AgainTries r.validate_tries (record r { writer = close_all r.writer; fs = fs })
              (message (map FileCheck.rel_path (failures (validate_quick m fs))))
              (clear_failed (map FileCheck.rel_path (failures (validate_quick m fs)))
                (chunk_locators m) r.progress.bitmap)
              refl)
    ]
  ]

  after_batch-AgainTries :
      (n : ℕ) (o : Option ((ℕ × Bool) × Run))
      → n < 3
      → SameTries n o
      → AgainTries n false (after_batch job o)
  after_batch-AgainTries n none h s = tt
  after_batch-AgainTries n (some ((k, true), end)) h s = (
    let e : end.validate_tries ≡ n = s in omega arith,
    let e : end.validate_tries ≡ n = s in omega arith,
  )
  after_batch-AgainTries n (some ((k, false), end)) h s =
      let e : end.validate_tries ≡ n = s in
      let e' : (checkpoint job end).validate_tries ≡ n =
        elim (Bool-cases (leb persist_every end.since_persist)) [
          | inl c ↦ simp (c) e
          | inr c ↦ simp (c) e
        ] in
      elim (Bool-cases (k == 0)) [
        | inl c ↦ simp (c) (
          let g : (checkpoint job end).validate_tries ≡ n + 0 = omega arith in g,
          let l : (checkpoint job end).validate_tries < 3 = omega arith in l,
        )
        | inr c ↦ simp (c) (
          let g : (checkpoint job end).validate_tries ≡ n + 0 = omega arith in g,
          let l : (checkpoint job end).validate_tries < 3 = omega arith in l,
        )
      ]

  module _ (hash_bytes : List ℕ → Hash) where
    turn-AgainTries :
        (r : Run) (cancelled paused : Bool) (groups : List Group)
        → r.validate_tries < 3
        → AgainTries r.validate_tries
            (validates r cancelled paused)
            (turn hash_bytes message job m r cancelled paused groups)
    unfolding turn
    turn-AgainTries r cancelled paused groups h = elim (Bool-cases (cancelled || paused)) [
      | inl c ↦ simp (turn, c) tt
      | inr c ↦ elim (Option-cases (missing r.progress.bitmap)) [
        | inl o ↦ simp (turn, c, o) tt
        | inr ([], o) ↦ simp (turn, c, o) (validate_turn-AgainTries r)
        | inr (x ∷ absent, o) ↦
            simp (turn, c, o)
              (after_batch-AgainTries r.validate_tries
                (run_groups hash_bytes job (chunk_locators m) r [] groups) h
                (run_groups-tries hash_bytes (chunk_locators m) job r [] groups))
      ]
    ]

    -- The number of turns that validate when the loop runs on what it reads: the flags and the groups
    -- of every turn.
    unfoldable pub validations : Run → List ((Bool × Bool) × List Group) → ℕ
    validations r [] = 0
    validations r (((cancelled, paused), groups) ∷ inputs) =
        one_if (validates r cancelled paused)
        + elim (turn hash_bytes message job m r cancelled paused groups) [
          | none ↦ 0
          | some (again next) ↦ validations next inputs
          | some (stopped next) ↦ 0
          | some (complete next) ↦ 0
          | some (failed table) ↦ 0
        ]

    -- Of the turns of a job that has failed fewer than three validations, whatever they read, at most as
    -- many validate as are left to three.
    pub validations_bounded :
        (r : Run) (inputs : List ((Bool × Bool) × List Group))
        → r.validate_tries < 3
        → validations r inputs + r.validate_tries ≤ 3
    unfolding validations
    validations_bounded r [] h = omega arith
    validations_bounded r (((cancelled, paused), groups) ∷ inputs) h =
        let now = turn-AgainTries r cancelled paused groups h in
        let one : one_if (validates r cancelled paused) ≤ 1 =
          one_if_bounded (validates r cancelled paused) in
        elim (Option-cases (turn hash_bytes message job m r cancelled paused groups)) [
          | inl o ↦
              simp (o) (last_turn (one_if (validates r cancelled paused)) r.validate_tries one h)
          | inr (again next, o) ↦
              let step : (next.validate_tries
                    ≡ r.validate_tries + one_if (validates r cancelled paused))
                  × (next.validate_tries < 3) =
                subst (AgainTries r.validate_tries (validates r cancelled paused)) o now in
              let rest = validations_bounded next inputs step.1 in
              simp (o) (
                more_turns (one_if (validates r cancelled paused)) (validations next inputs)
                  r.validate_tries next.validate_tries step.0 rest)
          | inr (stopped next, o) ↦
              simp (o) (last_turn (one_if (validates r cancelled paused)) r.validate_tries one h)
          | inr (complete next, o) ↦
              simp (o) (last_turn (one_if (validates r cancelled paused)) r.validate_tries one h)
          | inr (failed table, o) ↦
              simp (o) (last_turn (one_if (validates r cancelled paused)) r.validate_tries one h)
        ]
