-- ===== src/Downloads/Saved.antt =====
-- apps/desktop/src-tauri/src/db.rs: the saved resume state of a download, written by `persist` and
-- read back at the start of a job.
use mathlib.Core.Option
use blt.Base.{
  ℕ, ◌≡◌, refl, ap, ◌∙◌, Bool, true, false, Option, none, some, List, [], ◌∷◌, All, ◌&&◌, ◌==◌,
  ==_iff, if◌then◌else◌,
}
use blt.Base.Assoc.{lookup, insert_at, lookup-insert_at}
use blt.Base.Text.{Text}
use blt.Bitmap.{Bitmap, IsValid, as_bytes, from_bytes, new}
use blt.Bitmap.Persist.{from_bytes-as_bytes}
use blt.Hub.{same_title}
use blt.Hub.Peers.{same_title_iff}

-- A row of download_state.
pub record Saved : Type 0 where
  pub chunk_count : ℕ
  pub chunk_bitmap : List ℕ
  pub status : Text
  pub dest_path : Text
  pub error : Option Text

-- By title id and manifest version.
abbrev pub Table : Type 0
Table = List ((ℕ × ℕ) × Saved)

unfoldable pub save_download : Table → ℕ → ℕ → Bitmap → Text → Text → Option Text → Table
unfolding insert_at as_bytes
save_download table title_id manifest_ver bitmap status dest_path error =
    insert_at same_title (title_id, manifest_ver)
      (record {
        chunk_count = bitmap.len;
        chunk_bitmap = as_bytes bitmap;
        status = status;
        dest_path = dest_path;
        error = error;
      })
      table

abbrev pub loaded : Saved → Bitmap × Text × Text
loaded r = (from_bytes r.chunk_count r.chunk_bitmap, r.status, r.dest_path)

unfoldable pub load_bitmap : Table → ℕ → ℕ → Option (Bitmap × Text × Text)
unfolding lookup from_bytes
load_bitmap table title_id manifest_ver =
    Option.map loaded (lookup same_title (title_id, manifest_ver) table)

abbrev pub usable : ℕ → Bool → Option (Bitmap × Text × Text) → Bitmap
usable total_chunks dest_exists none = new total_chunks
usable total_chunks dest_exists (some (bm, status, dest)) =
    if (bm.len == total_chunks) && dest_exists then bm else new total_chunks

-- The bitmap that a job starts with.
unfoldable pub start_bitmap : Table → ℕ → ℕ → ℕ → Bool → Bitmap
unfolding load_bitmap new
start_bitmap table title_id manifest_ver total_chunks dest_exists =
    usable total_chunks dest_exists (load_bitmap table title_id manifest_ver)

-- One call of `save_download`.
pub record Save : Type 0 where
  pub title_id : ℕ
  pub manifest_ver : ℕ
  pub bitmap : Bitmap
  pub status : Text
  pub dest_path : Text
  pub error : Option Text

abbrev pub save : Table → Save → Table
save table c = save_download table c.title_id c.manifest_ver c.bitmap c.status c.dest_path c.error

abbrev pub save_all : Table → List Save → Table
save_all table [] = table
save_all table (c ∷ calls) = save_all (save table c) calls

abbrev pub row : Save → Saved
row c = record {
  chunk_count = c.bitmap.len;
  chunk_bitmap = as_bytes c.bitmap;
  status = c.status;
  dest_path = c.dest_path;
  error = c.error;
}

pub lookup-save :
    (table : Table) (c : Save) (key : ℕ × ℕ)
    → lookup same_title key (save table c) ≡ (
        if same_title (c.title_id, c.manifest_ver) key
        then some (row c)
        else lookup same_title key table)
unfolding save_download
lookup-save table c key =
    lookup-insert_at same_title same_title_iff (c.title_id, c.manifest_ver) key (row c) table

-- Is the call for another title or version?
abbrev pub IsOther : ℕ × ℕ → Save → Type 0
IsOther key c = same_title (c.title_id, c.manifest_ver) key ≡ false

lookup-save_all :
    (table : Table) (calls : List Save) (key : ℕ × ℕ)
    → All (IsOther key) calls
    → lookup same_title key (save_all table calls) ≡ lookup same_title key table
lookup-save_all table [] key h = refl
lookup-save_all table (c ∷ calls) key h =
    lookup-save_all (save table c) calls key h.1 ∙ lookup-save table c key ∙ rw h.0 refl

-- The row that was saved last for the title and version.
pub load_bitmap-save :
    (table : Table) (c : Save)
    → IsValid c.bitmap
    → load_bitmap (save table c) c.title_id c.manifest_ver ≡ some (c.bitmap, c.status, c.dest_path)
unfolding load_bitmap
load_bitmap-save table c valid =
    let key : ℕ × ℕ = (c.title_id, c.manifest_ver) in
    let self : same_title key key ≡ true = (same_title_iff key key).1 refl in
    let found : lookup same_title key (save table c) ≡ some (row c) =
      lookup-save table c key
      ∙ ap (λ b. if b then some (row c) else lookup same_title key table) self in
    ap (Option.map loaded) found
    ∙ ap (λ b. some (b, c.status, c.dest_path)) (from_bytes-as_bytes c.bitmap valid)

-- A job whose folder is there starts with the bitmap that was last saved for its title and version,
-- if that is valid and has the number of chunks, whatever was saved for other titles or versions
-- afterwards, however often.
pub start_bitmap-save_download :
    (table : Table) (c : Save) (later : List Save)
    → IsValid c.bitmap
    → All (IsOther (c.title_id, c.manifest_ver)) later
    → start_bitmap (save_all (save table c) later) c.title_id c.manifest_ver c.bitmap.len true
      ≡ c.bitmap
unfolding start_bitmap load_bitmap
start_bitmap-save_download table c later valid others =
    let same : (c.bitmap.len == c.bitmap.len) ≡ true = (==_iff c.bitmap.len c.bitmap.len).1 refl in
    ap (λ o. usable c.bitmap.len true (Option.map loaded o))
      (lookup-save_all (save table c) later (c.title_id, c.manifest_ver) others)
    ∙ ap (usable c.bitmap.len true) (load_bitmap-save table c valid)
    ∙ rw same refl
