-- ===== src/Downloads/Examples.antt =====
-- One job, one chunk, one saved row.
use blt.Base.Int.{pos}
use blt.Base.{
  Bool, Option, if◌then◌else◌, div_ceil, ℕ, ◌+◌, ◌≤◌, arith, ◌≡◌, refl, true, false, none, some,
  List, [], ◌∷◌, inl,
}
use blt.Base.Text.{Text, text, ◌=t◌}
use blt.Transfer.{Fs, same_dest}
use blt.Bitmap.{Bitmap, IsValid, new, missing, from_bytes, has, bit_of, bit_off, bit_on}
use blt.Bitmap.Persist.{new_lem, from_bytes_lem}
use blt.Pool as Pool
use blt.Downloads.{Job, Desk, Worker, Move, idle_manager, step}
use blt.Downloads.Queue.{Attended, Holds, step-Attended, steps, step_strands}
use blt.Downloads.Chunks.{WriteJob, Progress, account_write, account_all, write_group}
use blt.Downloads.Sound.{IsAccounted}
use blt.Manifest.{Manifest}
use blt.Validate.{finalize_layout, validate_quick, all_ok}
use blt.Downloads.Run.{
  again, stopped, failed, Outcome, collect, settle, validate_turn, Run, Group, fetched, complete,
  run_groups, turn,
}
use blt.Downloads.Batch.{run_groups-IsAccounted, AnsweredIn}
use blt.Downloads.Complete.{IsComplete, turn-IsComplete}
use blt.Downloads.Tries.{validations, validations_bounded}
use blt.Downloads.Saved.{Save, save, save_all, start_bitmap, start_bitmap-save_download}

abbrev job : Job
job = record { title_id = 7; manifest_ver = 1; name = text "Game"; dest = text "g" }

abbrev idle : Desk
idle = record { manager = idle_manager; worker = Worker.stopped; pumps = 0 }

step-Attended_example : Holds Attended (step idle (Move.enqueues job))
step-Attended_example =
    step-Attended idle (Move.enqueues job) (record { alive = refl; served = inl refl }) (λ s. s)

step_strands_example :
    steps
      (record {
        manager = record { queue = []; active = none; running = true };
        worker = Worker.leaving;
        pumps = 0;
      })
      (Move.enqueues job ∷ Move.pumps_now ∷ Move.leaves ∷ [])
    ≡ some (record {
      manager = record { queue = job ∷ []; active = none; running = false };
      worker = Worker.stopped;
      pumps = 0;
    })
step_strands_example = step_strands job 0 none refl

abbrev eight : Bitmap
eight = new 8

eight-IsValid : IsValid eight
eight-IsValid = (new_lem 8).0

abbrev hash : List ℕ → List ℕ
hash bytes = bytes

abbrev no_files : Fs
no_files dest = none

abbrev chunk : WriteJob
chunk = record {
  loc = record {
    global_idx = 3;
    file_id = 1;
    rel_path = text "a";
    file_size = 2;
    chunk_idx = 0;
    offset = 0;
    size = 2;
    hash = 5 ∷ 6 ∷ [];
  };
  source = text "@server";
  bytes = 5 ∷ 6 ∷ [];
}

abbrev start : Progress
start = record {
  bitmap = eight;
  active = record {
    title_id = 7;
    manifest_ver = 1;
    name = text "Game";
    paused = false;
    cancelled = false;
    bytes_done = 0;
    bytes_total = 2;
    have = 0;
    total = 8;
    from_server = 0;
    from_peers = 0;
  };
  failures = [];
  window_bytes = 0;
}

abbrev saved_call : Save
saved_call = record {
  title_id = 7;
  manifest_ver = 1;
  bitmap = eight;
  status = text "active";
  dest_path = text "g";
  error = none;
}

abbrev other_calls : List Save
other_calls =
    record saved_call { title_id = 8; status = text "paused" }
    ∷ record saved_call { manifest_ver = 2 }
    ∷ []

start_bitmap-save_download_example :
    start_bitmap (save_all (save [] saved_call) other_calls) 7 1 eight.len true ≡ eight
start_bitmap-save_download_example =
    start_bitmap-save_download [] saved_call other_calls eight-IsValid (refl, (refl, tt))

abbrev begun : Run
begun = record {
  progress = start;
  writer = Pool.new;
  fs = no_files;
  table = [];
  validate_tries = 0;
  since_persist = 0;
}

-- The server answers, a peer does not.
abbrev groups : List Group
groups =
    fetched (
      record { gidx = 0; source = text "@server"; answer = some (5 ∷ 6 ∷ []) }
      ∷ record { gidx = 0; source = text "peer"; answer = none }
      ∷ [])
    ∷ []

-- What the batch leaves.
abbrev ended : Run
ended = elim (run_groups hash job (chunk.loc ∷ []) begun [] groups) [ none ↦ begun | some x ↦ x.1 ]

groups-ended : run_groups hash job (chunk.loc ∷ []) begun [] groups ≡ some ((1, false), ended)
unfolding run_groups collect settle write_group account_all account_write ◌=t◌ Pool.new new div_ceil
groups-ended = refl

run_groups-IsAccounted_example :
    IsAccounted begun.progress (AnsweredIn hash (chunk.loc ∷ []) groups) ended.progress
run_groups-IsAccounted_example =
    run_groups-IsAccounted hash (chunk.loc ∷ []) job begun groups (1, false) ended eight-IsValid
      groups-ended

-- A title of one file, which is one chunk.
abbrev single : Manifest
single = record {
  title_id = 7;
  manifest_ver = 1;
  total_size = 2;
  file_count = 1;
  chunk_size = 2;
  files =
      record {
        id = 1;
        rel_path = text "a";
        size = 2;
        mtime = pos 0;
        hash = 5 ∷ 6 ∷ [];
        chunks = record { idx = 0; offset = 0; size = 2; hash = 5 ∷ 6 ∷ [] } ∷ [];
      }
      ∷ [];
}

abbrev full : Bitmap
full = from_bytes 1 (1 ∷ [])

-- The file is there, one byte too long.
abbrev on_disk : Fs
on_disk dest = if same_dest dest (text "a" ∷ []) then some (5 ∷ 6 ∷ 9 ∷ []) else none

abbrev finished : Run
finished = record begun { progress = record start { bitmap = full }; fs = on_disk }

abbrev message : List Text → Text
message names = text "failed"

abbrev result : Run → Option Outcome → Run
result r none = r
result r (some (again next)) = next
result r (some (stopped next)) = next
result r (some (complete next)) = next
result r (some (failed table)) = r

abbrev completed : Run
completed = result finished (turn hash message job single finished false false [])

finished-complete : turn hash message job single finished false false [] ≡ some (complete completed)
unfolding turn missing validate_turn finalize_layout validate_quick all_ok new Pool.new from_bytes
    has div_ceil bit_of ◌=t◌
finished-complete = refl

turn-IsComplete_example : IsComplete job single finished completed
turn-IsComplete_example =
    turn-IsComplete hash message job single finished false false [] completed
      (from_bytes_lem 1 (1 ∷ []) (omega arith, tt)).0 finished-complete

-- The file is not there although the bitmap is full: it is fetched again, and then it passes.
abbrev deleted : Run
deleted = record begun { progress = record start { bitmap = full } }

abbrev inputs : List ((Bool × Bool) × List Group)
inputs = ((false, false), []) ∷ ((false, false), groups) ∷ ((false, false), []) ∷ []

twice : validations message job single hash deleted inputs ≡ 2
unfolding validations turn missing validate_turn finalize_layout validate_quick all_ok new Pool.new
    from_bytes has div_ceil bit_of ◌=t◌ run_groups collect settle write_group account_all
    account_write bit_off bit_on
twice = refl

validations_bounded_example :
    validations message job single hash deleted inputs + deleted.validate_tries ≤ 3
validations_bounded_example =
    validations_bounded message job single hash deleted inputs (omega arith)
