-- ===== src/Downloads/Run.antt =====
-- apps/desktop/src-tauri/src/downloads.rs, run_job: one turn of the loop of a job. Which source each
-- chunk of the batch is asked from, what it answers, and when a wait is interrupted is the input of the
-- turn, as are the flags that are read at its top; back-off, timing and the messages to the server are
-- left out. `none` is a panic.
use blt.Base.{
  ℕ, ◌+◌, Bool, true, false, ◌||◌, Option, none, some, List, [], ◌∷◌, map, leb, ◌==◌, if◌then◌else◌,
  take, any, get_elem?,
}
use blt.Base.Result.{ok, err}
use blt.Base.Text.{Text, text, ◌=t◌}
use blt.Bitmap.{Bitmap, clear, missing, count_set}
use blt.Manifest.{Hash, Manifest, ChunkLocator, chunk_locators}
use blt.Transfer.{Fs}
use blt.Validate.{FileCheck, finalize_layout, validate_quick, all_ok, failures}
use blt.Pool.{PooledWriter, close_all}
use blt.Downloads.{Job}
use blt.Downloads.Chunks.{WriteJob, WriteOutcome, Progress, count_failure, account_all, write_group}
use blt.Downloads.Saved.{Table, save_download}

pub record Run : Type 0 where
  pub progress : Progress
  pub writer : PooledWriter
  pub fs : Fs
  pub table : Table
  pub validate_tries : ℕ
  pub since_persist : ℕ

-- The answer of a source to the request of a chunk, `none` for an error.
pub record Fetched : Type 0 where
  pub gidx : ℕ
  pub source : Text
  pub answer : Option (List ℕ)

-- A group of requests, and whether the wait for its answers or the wait for the write before it was
-- interrupted; `fetch_interrupted` after the last group is an interrupted wait for the last write. The
-- flag that interrupts is never reset, so the turn after it stops and does not use the writer.
pub data Group : Type 0 where
  fetched : List Fetched → Group
  fetch_interrupted : Group
  write_interrupted : List Fetched → Group

pub data Outcome : Type 0 where
  again stopped complete : Run → Outcome
  failed : Table → Outcome

abbrev pub persist : Job → Run → Text → Option Text → Run
persist job r status error = record r {
  table =
      save_download r.table job.title_id job.manifest_ver r.progress.bitmap status job.dest error;
}

-- The chunks that were answered, and the failures of the sources that did not answer.
unfoldable pub collect :
    List ChunkLocator → List (Text × ℕ) → List Fetched → Option (List WriteJob × List (Text × ℕ))
unfolding count_failure
collect locators fails [] = some ([], fails)
collect locators fails (f ∷ rest) = elim f.answer [
  | none ↦ collect locators (count_failure fails f.source) rest
  | some bytes ↦ elim (collect locators fails rest) [
    | none ↦ none
    | some (jobs, fails') ↦ elim (get_elem? locators f.gidx) [
      | none ↦ none
      | some loc ↦ some (record { loc = loc; source = f.source; bytes = bytes } ∷ jobs, fails')
    ]
  ]
]

-- The outcomes of a write that was waited for.
unfoldable pub settle : Run → List WriteOutcome → Option (ℕ × Run)
unfolding account_all
settle r outs = elim (account_all r.progress outs) [
  | none ↦ none
  | some (n, progress) ↦
      some (n, record r { progress = progress; since_persist = r.since_persist + n })
]

abbrev pub with_failures : Run → List (Text × ℕ) → Run
with_failures r fails = record r { progress = record (r.progress) { failures = fails } }

abbrev pub is_failed : List Text → ChunkLocator → Bool
is_failed names loc = any (λ name. name =t loc.rel_path) names

-- The bits of the chunks of the files that failed are cleared.
unfoldable pub clear_failed : List Text → List ChunkLocator → Bitmap → Option Bitmap
unfolding clear
clear_failed names [] bm = some bm
clear_failed names (loc ∷ locators) bm =
    if is_failed names loc
    then elim (clear bm loc.global_idx) [ none ↦ none | some bm' ↦ clear_failed names locators bm' ]
    else clear_failed names locators bm

-- What a failed validation does: the third one gives up.
abbrev pub refetch : Job → Run → Text → Outcome
refetch job r message =
    let r' : Run = record r { validate_tries = r.validate_tries + 1 } in
    if leb 3 r'.validate_tries
    then failed (persist job r' (text "error") (some message)).table
    else again (persist job r' (text "active") none)

abbrev pub with_bitmap : Run → Bitmap → Run
with_bitmap r bm = record r {
  progress = record (r.progress) {
    bitmap = bm;
    active = record (r.progress.active) { have = count_set bm };
  };
}

-- The empty batch: `message` is the text of the error for the names of the failed files. Whatever
-- `finalize_layout` did before it failed is not kept.
unfoldable pub validate_turn : (List Text → Text) → Job → Manifest → Run → Option Outcome
unfolding finalize_layout validate_quick all_ok failures close_all clear_failed chunk_locators
validate_turn message job m r = elim (finalize_layout m r.fs) [
  | err e ↦ some (failed r.table)
  | ok fs ↦
      let r' : Run = record r { writer = close_all r.writer; fs = fs } in
      let report = validate_quick m fs in
      let names : List Text = map FileCheck.rel_path (failures report) in
      if all_ok report
      then some (complete (persist job r' (text "complete") none))
      else elim (clear_failed names (chunk_locators m) r'.progress.bitmap) [
        | none ↦ none
        | some bm ↦ some (refetch job (with_bitmap r' bm) (message names))
      ]
]

abbrev pub persist_every : ℕ
persist_every = 32

abbrev pub checkpoint : Job → Run → Run
checkpoint job r =
    if leb persist_every r.since_persist
    then record (persist job r (text "active") none) { since_persist = 0 }
    else r

-- The end of a batch.
abbrev pub after_batch : Job → Option ((ℕ × Bool) × Run) → Option Outcome
after_batch job none = none
after_batch job (some ((n, interrupted), r)) =
    if interrupted
    then some (again r)
    else (let r' = checkpoint job r in
        some (again (if n == 0 then persist job r' (text "active") none else r')))

module _ (hash_bytes : List ℕ → Hash) where
  -- Hand the group to the writer.
  abbrev pub write_jobs : Run → List WriteJob → Run × List WriteOutcome
  write_jobs r jobs =
      let ((writer, fs), outs) = write_group hash_bytes r.writer r.fs jobs in
      (record r { writer = writer; fs = fs }, outs)

  -- The groups of a batch, with the outcomes of the write that is not waited for yet: the number of
  -- accepted chunks, and whether a wait was interrupted.
  unfoldable pub run_groups :
      Job → List ChunkLocator → Run → List WriteOutcome → List Group → Option ((ℕ × Bool) × Run)
  unfolding collect settle write_group
  run_groups job locators r pending [] = elim (settle r pending) [
    | none ↦ none
    | some (n, r') ↦ some ((n, false), r')
  ]
  run_groups job locators r pending (fetch_interrupted ∷ groups) =
      some ((0, true), persist job r (text "active") none)
  run_groups job locators r pending (write_interrupted answers ∷ groups) =
      elim (collect locators r.progress.failures answers) [
        | none ↦ none
        | some (jobs, fails) ↦
            some ((0, true), persist job (with_failures r fails) (text "active") none)
      ]
  run_groups job locators r pending (fetched answers ∷ groups) =
      elim (collect locators r.progress.failures answers) [
        | none ↦ none
        | some (jobs, fails) ↦ elim (settle (with_failures r fails) pending) [
          | none ↦ none
          | some (n, r') ↦
              let (r'', outs) = write_jobs r' jobs in
              elim (run_groups job locators r'' outs groups) [
                | none ↦ none
                | some ((m, interrupted), end) ↦ some ((n + m, interrupted), end)
              ]
        ]
      ]

  abbrev pub batch_turn :
      (List Text → Text) → Job → Manifest → Run → List Group → List ℕ → Option Outcome
  batch_turn message job m r groups [] = validate_turn message job m r
  batch_turn message job m r groups (chunk ∷ batch) =
      after_batch job (run_groups job (chunk_locators m) r [] groups)

  -- One turn of the loop, with the two flags as they are read at its top. The groups are those of the
  -- assignment of the batch.
  unfoldable pub turn :
      (List Text → Text)
      → Job
      → Manifest
      → Run
      → (cancelled paused : Bool) → List Group
      → Option Outcome
  unfolding missing validate_turn run_groups chunk_locators
  turn message job m r cancelled paused groups =
      if cancelled || paused
      then some (stopped (persist job r (text "paused") none))
      else elim (missing r.progress.bitmap) [
        | none ↦ none
        | some absent ↦ batch_turn message job m r groups (take 64 absent)
      ]
