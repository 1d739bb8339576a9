-- ===== src/Downloads/Chunks.antt =====
-- apps/desktop/src-tauri/src/downloads.rs: the writing of a group of fetched chunks, and the
-- accounting of its outcomes in the bitmap, the counters and the failures of the sources.
use blt.Base.{ℕ, ◌+◌, Bool, true, false, Option, none, some, List, [], ◌∷◌, if◌then◌else◌}
use blt.Base.Assoc.{lookup, insert_at, erase}
use blt.Base.Result.{Result, ok, err}
use blt.Base.Text.{Text, text, ◌=t◌}
use blt.Bitmap.{Bitmap, set}
use blt.Manifest.{Hash, ChunkLocator, add64}
use blt.Transfer.{TransferError, Fs}
use blt.Pool.{PooledWriter, verify_and_write}
use blt.Downloads.{Active}

pub record WriteJob : Type 0 where
  pub loc : ChunkLocator
  pub source : Text
  pub bytes : List ℕ

pub record WriteOutcome : Type 0 where
  pub gidx : ℕ
  pub source : Text
  pub size : ℕ
  pub written : Result TransferError (Unit {0})

abbrev pub server_source_id : Text
server_source_id = text "@server"

abbrev pub outcome : WriteJob → Result TransferError (Unit {0}) → WriteOutcome
outcome j written = record {
  gidx = j.loc.global_idx;
  source = j.source;
  size = j.loc.size;
  written = written;
}

-- What the accounting changes; `window_bytes` and the counters of `Active` are u64.
pub record Progress : Type 0 where
  pub bitmap : Bitmap
  pub active : Active
  pub failures : List (Text × ℕ)
  pub window_bytes : ℕ

abbrev pub credit : Active → Text → ℕ → Active
credit a source size =
    let a' : Active = record a { have = add64 a.have 1; bytes_done = add64 a.bytes_done size } in
    if source =t server_source_id
    then record a' { from_server = add64 a.from_server size }
    else record a' { from_peers = add64 a.from_peers size }

-- `*failures.entry(source).or_insert(0) += 1`
abbrev pub fails_of : Option ℕ → ℕ
fails_of none = 0
fails_of (some n) = n

unfoldable pub count_failure : List (Text × ℕ) → Text → List (Text × ℕ)
unfolding lookup insert_at
count_failure failures source =
    insert_at ◌=t◌ source (fails_of (lookup ◌=t◌ source failures) + 1) failures

abbrev pub reject_write : Progress → WriteOutcome → Progress
reject_write p out = record p { failures = count_failure p.failures out.source }

abbrev pub accept_write : Progress → WriteOutcome → Bitmap → Progress
accept_write p out bm = record {
  bitmap = bm;
  active = credit p.active out.source out.size;
  failures = erase ◌=t◌ out.source p.failures;
  window_bytes = add64 p.window_bytes out.size;
}

-- `true` if the chunk was accepted; `none` is a panic of `Bitmap::set`.
unfoldable pub account_write : Progress → WriteOutcome → Option (Bool × Progress)
unfolding set count_failure erase
account_write p out = elim out.written [
  | err e ↦ some (false, reject_write p out)
  | ok done ↦ elim (set p.bitmap out.gidx) [
    | none ↦ none
    | some bm ↦ some (true, accept_write p out bm)
  ]
]

-- The loop over the outcomes of a group; the number is what `since_persist` grows by.
unfoldable pub account_all : Progress → List WriteOutcome → Option (ℕ × Progress)
unfolding account_write
account_all p [] = some (0, p)
account_all p (out ∷ outs) = elim (account_write p out) [
  | none ↦ none
  | some (counted, p') ↦ elim (account_all p' outs) [
    | none ↦ none
    | some (n, end) ↦ some (if counted then n + 1 else n, end)
  ]
]

module _ (hash_bytes : List ℕ → Hash) where
  unfoldable pub write_group :
      PooledWriter → Fs → List WriteJob → (PooledWriter × Fs) × List WriteOutcome
  unfolding verify_and_write
  write_group w fs [] = ((w, fs), [])
  write_group w fs (j ∷ jobs) =
      elim (verify_and_write hash_bytes w fs j.loc.rel_path j.loc.offset j.bytes j.loc.hash) [
        | err e ↦ let (end, outs) = write_group w fs jobs in (end, outcome j (err e) ∷ outs)
        | ok (w', fs') ↦
            let (end, outs) = write_group w' fs' jobs in (end, outcome j (ok tt) ∷ outs)
      ]
