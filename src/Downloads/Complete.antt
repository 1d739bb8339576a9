-- ===== src/Downloads/Complete.antt =====
-- When a job completes.
use mathlib.Core.Option
use mathlib.Core.Path.{subst}
use blt.Base.{
  ℕ, All, ◌<◌, ap, sym, ◌∙◌, ◌+◌, ◌≡◌, refl, Bool, true, false, ◌||◌, Option, none, some, List, [],
  ◌∷◌, map, leb, inl, inr, Bool-cases, Option-cases,
}
use blt.Base.Result.{ok, Result-cases}
use blt.Base.Text.{Text, text}
use blt.Bitmap.{Bitmap, IsValid, has, missing}
use blt.Bitmap.Count.{missing-has}
use blt.Manifest.{Hash, Manifest, chunk_locators}
use blt.Validate.{FileCheck, finalize_layout, validate_quick, all_ok, failures}
use blt.Validate.Layout.{Cuts, finalize_layout_lem}
use blt.Validate.Sized.{HasSize, validate_quick-HasSize}
use blt.Pool.{close_all}
use blt.Downloads.Saved.{Table, save_download, load_bitmap, load_bitmap-save}
use blt.Downloads.{Job}
use blt.Downloads.Run.{
  Run, Group, Outcome, again, stopped, complete, failed, clear_failed, refetch, with_bitmap,
  validate_turn, after_batch, run_groups, turn,
}

-- The turn that completed the job.
record Finished (job : Job) (m : Manifest) (before after : Run) : Type 0 where
  none_missing : missing before.progress.bitmap ≡ some []
  laid_out : finalize_layout m before.fs ≡ ok after.fs
  validated : all_ok (validate_quick m after.fs) ≡ true
  bitmap_kept : after.progress.bitmap ≡ before.progress.bitmap
  saved :
      after.table
      ≡ save_download before.table job.title_id job.manifest_ver before.progress.bitmap
          (text "complete")
          job.dest
          none

abbrev CompleteOr : Job → Manifest → Run → Option Outcome → Type 0
CompleteOr job m before none = Unit
CompleteOr job m before (some (again r)) = Unit
CompleteOr job m before (some (stopped r)) = Unit
CompleteOr job m before (some (failed t)) = Unit
CompleteOr job m before (some (complete after)) = Finished job m before after

module _ (message : List Text → Text) (job : Job) (m : Manifest) (r : Run) where
  refetch-CompleteOr :
      (r' : Run) (t : Text) (o : Option Bitmap)
      → CompleteOr job m r (Option.map (λ bm. refetch job (with_bitmap r' bm) t) o)
  refetch-CompleteOr r' t none = tt
  refetch-CompleteOr r' t (some bm) = elim (Bool-cases (leb 3 (r'.validate_tries + 1))) [
    | inl e ↦ simp (e) tt
    | inr e ↦ simp (e) tt
  ]

  validate_turn-CompleteOr :
      missing r.progress.bitmap ≡ some [] → CompleteOr job m r (validate_turn message job m r)
  unfolding validate_turn
  validate_turn-CompleteOr h = elim (Result-cases (finalize_layout m r.fs)) [
    | inl (e, f) ↦ simp (validate_turn, f) tt
    | inr (fs, f) ↦ elim (Bool-cases (all_ok (validate_quick m fs))) [
      | inl v ↦
          simp (validate_turn, f, v)
            (record {
              none_missing = h;
              laid_out = f;
              validated = v;
              bitmap_kept = refl;
              saved = refl;
            })
      | inr v ↦
          simp (validate_turn, f, v)
            (refetch-CompleteOr (record r { writer = close_all r.writer; fs = fs })
              (message (map FileCheck.rel_path (failures (validate_quick m fs))))
              (clear_failed (map FileCheck.rel_path (failures (validate_quick m fs)))
                (chunk_locators m) r.progress.bitmap))
    ]
  ]

  after_batch-CompleteOr : (o : Option ((ℕ × Bool) × Run)) → CompleteOr job m r (after_batch job o)
  after_batch-CompleteOr none = tt
  after_batch-CompleteOr (some ((n, true), end)) = tt
  after_batch-CompleteOr (some ((n, false), end)) = tt

  module _ (hash_bytes : List ℕ → Hash) where
    turn-CompleteOr :
        (cancelled paused : Bool) (groups : List Group)
        → CompleteOr job m r (turn hash_bytes message job m r cancelled paused groups)
    unfolding turn
    turn-CompleteOr cancelled paused groups = elim (Bool-cases (cancelled || paused)) [
      | inl c ↦ simp (turn, c) tt
      | inr c ↦ elim (Option-cases (missing r.progress.bitmap)) [
        | inl o ↦ simp (turn, c, o) tt
        | inr ([], o) ↦ simp (turn, c, o) (validate_turn-CompleteOr o)
        | inr (x ∷ absent, o) ↦
            simp (turn, c, o)
              (after_batch-CompleteOr (run_groups hash_bytes job (chunk_locators m) r [] groups))
      ]
    ]

turn-Finished :
    (hash_bytes : List ℕ → Hash) (message : List Text → Text) (job : Job) (m : Manifest) (r : Run)
    (cancelled paused : Bool) (groups : List Group) (after : Run)
    → turn hash_bytes message job m r cancelled paused groups ≡ some (complete after)
    → Finished job m r after
turn-Finished hash_bytes message job m r cancelled paused groups after h =
    subst (CompleteOr job m r) h
      (turn-CompleteOr message job m r hash_bytes cancelled paused groups)

-- What a job that completes leaves.
pub record IsComplete (job : Job) (m : Manifest) (before after : Run) : Type 0 where
  pub present : (g : ℕ) → g < before.progress.bitmap.len → has after.progress.bitmap g ≡ some true
  pub cut : Cuts before.fs after.fs
  pub sized : All (HasSize after.fs) m.files
  pub resumed :
      load_bitmap after.table job.title_id job.manifest_ver
      ≡ some (after.progress.bitmap, text "complete", job.dest)

-- If a turn on a valid bitmap completes the job, then afterwards every chunk has its bit, every file of
-- the manifest is at its legal destination and has its size, the turn changed files only by creating
-- empty ones and by cutting to first bytes, and what is saved for the title and version is that bitmap
-- with the status complete.
pub turn-IsComplete :
    (hash_bytes : List ℕ → Hash) (message : List Text → Text) (job : Job) (m : Manifest) (r : Run)
    (cancelled paused : Bool) (groups : List Group) (after : Run)
    → IsValid r.progress.bitmap
    → turn hash_bytes message job m r cancelled paused groups ≡ some (complete after)
    → IsComplete job m r after
turn-IsComplete hash_bytes message job m r cancelled paused groups after v h =
    let done = turn-Finished hash_bytes message job m r cancelled paused groups after h in
    let bm : Bitmap = r.progress.bitmap in
    record {
      present = λ g lt.
          ap (λ (b : Bitmap). has b g) done.bitmap_kept ∙ missing-has bm g v done.none_missing lt;
      cut = (finalize_layout_lem m r.fs after.fs done.laid_out).0;
      sized = validate_quick-HasSize m after.fs done.validated;
      resumed =
          ap (λ (t : Table). load_bitmap t job.title_id job.manifest_ver) done.saved
          ∙ load_bitmap-save r.table
              (record {
                title_id = job.title_id;
                manifest_ver = job.manifest_ver;
                bitmap = bm;
                status = text "complete";
                dest_path = job.dest;
                error = none;
              })
              v
          ∙ ap (λ (b : Bitmap). some (b, text "complete", job.dest)) (sym done.bitmap_kept);
    }
