-- ===== src/Transfer.antt =====
-- crates/core/src/transfer.rs: joining a destination path, and the verified write of a chunk. A
-- destination is the list of its components below the root. The hash function is a parameter, and
-- the file system is a map from destinations to bytes that does not fail.
pub mod Dest
pub mod Join
pub mod Write
pub mod Complete
mod Examples
use blt.Base.{
  ℕ, ◌+◌, ◌-◌, Bool, true, false, not, ◌&&◌, ◌||◌, Option, none, some, List, [], ◌∷◌, ◌++◌, ◌==◌,
  length, if◌then◌else◌, take, drop, any, replicate,
}
use blt.Base.Result.{Result, ok, err, ◌>>=◌}
use blt.Base.Text.{Text, text, ◌=t◌}
use blt.Manifest.{Hash}
use blt.Pathsafe.{push_front}

pub data TransferError : Type 0 where
  hash_mismatch : (expected : Hash) → TransferError
  unsafe_path : (rel : Text) → TransferError

abbrev pub Dest : Type 0
Dest = List Text

-- `split('/')`
unfoldable pub split_slash : Text → List Text
split_slash [] = [] ∷ []
split_slash (c ∷ s) = let rest = split_slash s in if c == b'/' then [] ∷ rest else push_front c rest

abbrev pub skipped : Text → Bool
skipped [] = true
skipped (c ∷ s) = (c ∷ s) =t text "."

abbrev pub refused : Text → Bool
refused comp = (comp =t text "..") || (any (λ c. c == b'\\') comp || any (λ c. c == b':') comp)

-- The loop of `safe_join`: `none` is the early return.
unfoldable pub join_comps : List Text → Option Dest
join_comps [] = some []
join_comps (comp ∷ comps) =
    let rest = join_comps comps in
    if skipped comp
    then rest
    else if refused comp
    then none
    else elim rest [ none ↦ none | some out ↦ some (comp ∷ out) ]

abbrev pub below_root : Text → Option Dest → Result TransferError Dest
below_root rel none = err (unsafe_path rel)
below_root rel (some []) = err (unsafe_path rel)
below_root rel (some (comp ∷ out)) = ok (comp ∷ out)

unfoldable pub safe_join : Text → Result TransferError Dest
unfolding split_slash join_comps
safe_join rel = below_root rel (join_comps (split_slash rel))

-- The bytes of a file, if it is there.
abbrev pub Fs : Type 0
Fs = Dest → Option (List ℕ)

abbrev pub same_dest : Dest → Dest → Bool
same_dest [] [] = true
same_dest [] (d ∷ ds) = false
same_dest (c ∷ cs) [] = false
same_dest (c ∷ cs) (d ∷ ds) = (c =t d) && same_dest cs ds

abbrev pub or_new : Option (List ℕ) → List ℕ
or_new none = []
or_new (some bytes) = bytes

-- `seek` and `write_all` on bytes: a gap before the offset is filled with zeros.
unfoldable pub write_bytes : List ℕ → ℕ → List ℕ → List ℕ
write_bytes bytes offset chunk =
    take offset (bytes ++ replicate (offset - length bytes) 0)
    ++ (chunk ++ drop (offset + length chunk) bytes)

unfoldable pub write_at : Fs → Text → ℕ → List ℕ → Result TransferError Fs
unfolding safe_join write_bytes
write_at fs rel_path offset chunk = safe_join rel_path >>= (λ path. ok (λ dest.
    if same_dest path dest then some (write_bytes (or_new (fs path)) offset chunk) else fs dest))

module _ (hash_bytes : List ℕ → Hash) where
  unfoldable pub verify : List ℕ → Hash → Bool
  verify chunk expected = hash_bytes chunk =t expected

  unfoldable pub verify_and_write : Fs → Text → ℕ → List ℕ → Hash → Result TransferError Fs
  unfolding verify write_at
  verify_and_write fs rel_path offset chunk expected =
      if not (verify chunk expected)
      then err (hash_mismatch expected)
      else write_at fs rel_path offset chunk

pub record CompletenessReport : Type 0 where
  pub total : ℕ
  pub present : ℕ
  pub missing : List Text

abbrev pub complete : CompletenessReport → Bool
complete r = r.present == r.total

-- Is there a file at the destination of the path, and does it have the size?
unfoldable pub has_size : Fs → Text × ℕ → Bool
unfolding safe_join
has_size fs (rel, size) = elim (safe_join rel) [
  | err e ↦ false
  | ok path ↦ elim (fs path) [ none ↦ false | some bytes ↦ length bytes == size ]
]

-- The loop: `present` and `missing`
unfoldable pub check_entries : Fs → List (Text × ℕ) → ℕ × List Text
unfolding has_size
check_entries fs [] = (0, [])
check_entries fs ((rel, size) ∷ entries) =
    let (present, missing) = check_entries fs entries in
    if has_size fs (rel, size) then (present + 1, missing) else (present, rel ∷ missing)

unfoldable pub completeness_check : Fs → List (Text × ℕ) → CompletenessReport
unfolding check_entries
completeness_check fs entries =
    let (present, missing) = check_entries fs entries in
    record { total = length entries; present = present; missing = missing }
