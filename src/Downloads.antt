-- ===== src/Downloads.antt =====
-- apps/desktop/src-tauri/src/downloads.rs and db.rs: the download queue, whose callers and worker
-- interleave, the writing and accounting of a group of fetched chunks, and the saved resume state.
-- The fetches, the choice of sources, the speed and the delivery rates (floats) are left out.
pub mod Queue
pub mod Chunks
pub mod Sound
pub mod Saved
pub mod View
pub mod Run
pub mod Tries
pub mod Batch
pub mod Complete
mod Examples
use mathlib.Core.Option
use blt.Base.{
  ℕ, zero, suc, ◌+◌, ◌%◌, ◌^◌, Bool, true, false, not, ◌&&◌, ◌||◌, Option, none, some, List, [],
  ◌∷◌, ◌++◌, ◌==◌, if◌then◌else◌, filter, any, map,
}
use blt.Base.Assoc.{lookup, insert_at, erase}
use blt.Base.Result.{Result, ok, err}
use blt.Base.Text.{Text, text, ◌=t◌}
use blt.Bitmap.{Bitmap, set, as_bytes, from_bytes}
use blt.Manifest.{Hash, ChunkLocator, add64}
use blt.Transfer.{TransferError, Fs}
use blt.Pool.{PooledWriter, verify_and_write}
use blt.Hub.{same_title}

pub record Job : Type 0 where
  pub title_id : ℕ
  pub manifest_ver : ℕ
  pub name : Text
  pub dest : Text

pub record Active : Type 0 where
  pub title_id : ℕ
  pub manifest_ver : ℕ
  pub name : Text
  pub paused : Bool
  pub cancelled : Bool
  pub bytes_done : ℕ  -- AtomicU64, as those below
  pub bytes_total : ℕ
  pub have : ℕ
  pub total : ℕ
  pub from_server : ℕ
  pub from_peers : ℕ

pub record DownloadManager : Type 0 where
  pub queue : List Job
  pub active : Option Active
  pub running : Bool

abbrev pub idle_manager : DownloadManager
idle_manager = record { queue = []; active = none; running = false }

abbrev pub job_is : ℕ → ℕ → Job → Bool
job_is title_id manifest_ver j = (j.title_id == title_id) && (j.manifest_ver == manifest_ver)

abbrev pub is_active : Option Active → ℕ → ℕ → Bool
is_active none title_id manifest_ver = false
is_active (some a) title_id manifest_ver =
    (a.title_id == title_id) && (a.manifest_ver == manifest_ver)

-- The locked block of `enqueue`: `true` if the job was queued, and `pump` is called next.
unfoldable pub enqueue : DownloadManager → Job → Bool × DownloadManager
enqueue dm job =
    if any (job_is job.title_id job.manifest_ver) dm.queue
      || is_active dm.active job.title_id job.manifest_ver
    then (false, dm)
    else (true, record dm { queue = dm.queue ++ job ∷ [] })

-- `running.swap(true)`: `true` if a worker is to be spawned.
unfoldable pub pump : DownloadManager → Bool × DownloadManager
pump dm = (not dm.running, record dm { running = true })

unfoldable pub pop_front : DownloadManager → Option Job × DownloadManager
pop_front dm = elim dm.queue [
  | [] ↦ (none, dm)
  | job ∷ jobs ↦ (some job, record dm { queue = jobs })
]

abbrev pub flag_active : ℕ → (Active → Active) → Option Active → Option Active
flag_active title_id f none = none
flag_active title_id f (some a) = some (if a.title_id == title_id then f a else a)

unfoldable pub pause : DownloadManager → ℕ → DownloadManager
pause dm title_id = record dm {
  active = flag_active title_id (λ a. record a { paused = true }) dm.active;
}

unfoldable pub cancel : DownloadManager → ℕ → DownloadManager
cancel dm title_id = record {
  queue = filter (λ (j : Job). not (j.title_id == title_id)) dm.queue;
  active = flag_active title_id (λ a. record a { cancelled = true }) dm.active;
  running = dm.running;
}

-- Where the worker is: before `pop_front`, in `run_job` before or after it has set `active`, and after
-- it has found the queue empty.
pub data Worker : Type 0 where
  stopped polling leaving : Worker
  starting working : Job → Worker

-- The manager with its worker, and the callers that have queued a job but not pumped yet.
pub record Desk : Type 0 where
  pub manager : DownloadManager
  pub worker : Worker
  pub pumps : ℕ

pub data Move : Type 0 where
  enqueues : Job → Move
  pumps_now polls finishes leaves : Move
  activates : Active → Move
  pauses cancels : (title_id : ℕ) → Move

-- One atomic step; `none` where it is not possible.
unfoldable pub step : Desk → Move → Option Desk
unfolding enqueue pump pop_front pause cancel
step d (enqueues job) =
    let (queued, dm) = enqueue d.manager job in
    some (record d { manager = dm; pumps = if queued then suc d.pumps else d.pumps })
step d pumps_now = elim d.pumps [
  | zero ↦ none
  | suc n ↦
      let (spawn, dm) = pump d.manager in
      some (record { manager = dm; worker = if spawn then polling else d.worker; pumps = n })
]
step d polls = elim d.worker [
  | polling ↦
      let (job, dm) = pop_front d.manager in
      some (record d { manager = dm; worker = elim job [ none ↦ leaving | some j ↦ starting j ] })
  | stopped ↦ none
  | leaving ↦ none
  | starting j ↦ none
  | working j ↦ none
]
step d (activates a) = elim d.worker [
  | starting j ↦
      if job_is a.title_id a.manifest_ver j
      then some (record d { manager = record (d.manager) { active = some a }; worker = working j })
      else none
  | stopped ↦ none
  | polling ↦ none
  | leaving ↦ none
  | working j ↦ none
]
step d finishes = elim d.worker [
  | starting j ↦
      some (record d { manager = record (d.manager) { active = none }; worker = polling })
  | working j ↦ some (record d { manager = record (d.manager) { active = none }; worker = polling })
  | stopped ↦ none
  | polling ↦ none
  | leaving ↦ none
]
step d leaves = elim d.worker [
  | leaving ↦ some (record d { manager = record (d.manager) { running = false }; worker = stopped })
  | stopped ↦ none
  | polling ↦ none
  | starting j ↦ none
  | working j ↦ none
]
step d (pauses title_id) = some (record d { manager = pause d.manager title_id })
step d (cancels title_id) = some (record d { manager = cancel d.manager title_id })
