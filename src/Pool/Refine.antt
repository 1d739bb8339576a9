-- ===== src/Pool/Refine.antt =====
-- The pooled writes are the plain ones.
use mathlib.Core.Path.{subst}
use std.Path.{fun_ext}
use blt.Base.{
  ℕ, ◌+◌, ◌<◌, ◌≤◌, ◌≡◌, refl, ap, ◌∙◌, Option, none, some, List, [], ◌∷◌, ◌++◌, arith, leb, length,
  inl, inr, Bool-cases, Option-cases, All, All-append, length-append,
}
use blt.Base.Result.{Result, ok, err, Result-cases}
use blt.Base.Text.{Text, ◌=t◌, =t_iff}
use blt.Manifest.{Hash}
use blt.Transfer.{
  TransferError, hash_mismatch, Dest, Fs, same_dest, or_new, write_bytes, safe_join, write_at,
  verify,
}
use blt.Transfer as Transfer
use blt.Transfer.Dest.{same_dest_self}
use blt.Validate.{put, create}
use blt.Pool.{PooledWriter, take_handle, drop_first, make_room, handle, verify_and_write}

-- A handle of the pool is the destination of its path, and there are at most `max_open` of them.
abbrev pub IsHandle : Text × Dest → Type 0
IsHandle (rel_path, path) = safe_join rel_path ≡ ok path

pub record IsPool (w : PooledWriter) : Type 0 where
  pub handles : All IsHandle w.handles
  pub bounded : length w.handles ≤ w.max_open
  pub some_open : 0 < w.max_open

take_handle_lem :
    (rel_path : Text) (handles : List (Text × Dest)) (path : Dest) (others : List (Text × Dest))
    → take_handle rel_path handles ≡ some (path, others)
    → All IsHandle handles
    → (safe_join rel_path ≡ ok path) × All IsHandle others × (length handles ≡ length others + 1)
unfolding take_handle
take_handle_lem rel_path [] path others h k = absurd (cc)
take_handle_lem rel_path ((p, d) ∷ more) path others h k = elim (Bool-cases (p =t rel_path)) [
  | inl e ↦
      let found : ◌≡◌ {A = Option (Dest × List (Text × Dest))} (some (d, more))
          (some (path, others)) =
        rw e at h in
      let pair : ◌≡◌ {A = Dest × List (Text × Dest)} (d, more) (path, others) =
        ap (λ o. elim o [ none ↦ (d, more) | some x ↦ x ]) found in
      let same : d ≡ path = ap (λ x. x.0) pair in
      let rest : more ≡ others = ap (λ x. x.1) pair in
      (
        subst (λ r. safe_join r ≡ ok path) ((=t_iff p rel_path).0 e)
            (subst (λ x. safe_join p ≡ ok x) same k.0),
        subst (All IsHandle) rest k.1,
        omega (arith, ap length rest),
      )
  | inr e ↦ elim (Option-cases (take_handle rel_path more)) [
    | inl o ↦ absurd (
        let no_handle : ◌≡◌ {A = Option (Dest × List (Text × Dest))} none (some (path, others)) =
          rw (e, o) at h in
        cc)
    | inr ((found, kept), o) ↦
        let eq : ◌≡◌ {A = Option (Dest × List (Text × Dest))} (some (found, (p, d) ∷ kept))
            (some (path, others)) =
          rw (e, o) at h in
        let pair : ◌≡◌ {A = Dest × List (Text × Dest)} (found, (p, d) ∷ kept) (path, others) =
          ap (λ x. elim x [ none ↦ (found, (p, d) ∷ kept) | some y ↦ y ]) eq in
        let (j, all, len) = take_handle_lem rel_path more found kept o k.1 in
        let rest : (p, d) ∷ kept ≡ others = ap (λ x. x.1) pair in
        (
          subst (λ x. safe_join rel_path ≡ ok x) (ap (λ x. x.0) pair) j,
          subst (All IsHandle) rest (k.0, all),
          omega (arith, len, ap length rest),
        )
  ]
]

create_read : (fs : Fs) (path : Dest) → or_new (create fs path path) ≡ or_new (fs path)
create_read fs path = rw (create, put, same_dest_self path) refl

put_over :
    (fs : Fs) (path : Dest) (bytes : List ℕ) → put (create fs path) path bytes ≡ put fs path bytes
put_over fs path bytes = fun_ext (λ dest. elim (Bool-cases (same_dest path dest)) [
  | inl e ↦ rw (put, e) refl
  | inr e ↦ rw (put, e) refl
])

drop_first_lem :
    (handles : List (Text × Dest)) (n : ℕ)
    → All IsHandle handles
    → length handles ≤ n
    → 0 < n
    → All IsHandle (drop_first handles) × (length (drop_first handles) < n)
drop_first_lem [] n h k p = (tt, p)
drop_first_lem (x ∷ more) n h k p = (h.1, omega arith)

make_room_lem :
    (w : PooledWriter) → IsPool w → All IsHandle (make_room w) × (length (make_room w) < w.max_open)
make_room_lem w i = elim (Bool-cases (leb w.max_open (length w.handles))) [
  | inr e ↦ rw e (i.handles, ground (arith, e))
  | inl e ↦ rw e (drop_first_lem w.handles w.max_open i.handles i.bounded i.some_open)
]

IsPool-push :
    (w : PooledWriter) (others : List (Text × Dest)) (rel_path : Text) (path : Dest)
    → All IsHandle others
    → length others < w.max_open
    → safe_join rel_path ≡ ok path
    → IsPool (record w { handles = others ++ (rel_path, path) ∷ [] })
IsPool-push w others rel_path path all few j = record {
  handles = All-append IsHandle others ((rel_path, path) ∷ []) all (j, tt);
  bounded = omega (arith, few, length-append others ((rel_path, path) ∷ []));
  some_open = omega (arith, few);
}

-- The files after a pooled write.
abbrev pub files : Result TransferError (PooledWriter × Fs) → Result TransferError Fs
files (err e) = err e
files (ok (w, fs)) = ok fs

abbrev pub PoolKept : Result TransferError (PooledWriter × Fs) → Type 0
PoolKept (err e) = Unit
PoolKept (ok (w, fs)) = IsPool w

module _ (hash_bytes : List ℕ → Hash) where
  -- A pooled write leaves the files, or the error, that the plain verified write leaves, and keeps
  -- the pool: every handle is the destination of its path, and at most `max_open` are open.
  pub verify_and_write-plain :
      (w : PooledWriter) (fs : Fs) (rel_path : Text) (offset : ℕ) (chunk : List ℕ) (expected : Hash)
      → IsPool w
      → (files (verify_and_write hash_bytes w fs rel_path offset chunk expected)
          ≡ Transfer.verify_and_write hash_bytes fs rel_path offset chunk expected)
        × PoolKept (verify_and_write hash_bytes w fs rel_path offset chunk expected)
  unfolding verify_and_write handle Transfer.verify_and_write write_at
  verify_and_write-plain w fs rel_path offset chunk expected i =
      elim (Bool-cases (verify hash_bytes chunk expected)) [
        | inr v ↦ rw (verify_and_write, Transfer.verify_and_write, v) (refl, tt)
        | inl v ↦ elim (Option-cases (take_handle rel_path w.handles)) [
          | inr ((path, others), o) ↦
              let (j, all, len) = take_handle_lem rel_path w.handles path others o i.handles in
              simp (verify_and_write, Transfer.verify_and_write, write_at, handle, v, o, j)
                (refl, IsPool-push w others rel_path path all (omega (arith, len, i.bounded)) j)
          | inl o ↦ elim (Result-cases (safe_join rel_path)) [
            | inl (e, j) ↦
                simp (verify_and_write, Transfer.verify_and_write, write_at, handle, v, o, j)
                  (refl, tt)
            | inr (path, j) ↦
                let (all, few) = make_room_lem w i in
                simp (verify_and_write, Transfer.verify_and_write, write_at, handle, v, o, j)
                  (
                    ap ok (
                        put_over fs path (write_bytes (or_new (create fs path path)) offset chunk)
                        ∙ ap (λ b. put fs path (write_bytes b offset chunk)) (create_read fs path)),
                    IsPool-push w (make_room w) rel_path path all few j,
                  )
          ]
        ]
      ]
