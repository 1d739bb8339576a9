-- ===== src/Downloads/Sound.antt =====
-- Which bits the accounting of a written group sets.
use mathlib.Core.Path.{subst}
use blt.Base.{
  ℕ, ◌+◌, ◌≡◌, ◌⊎◌, refl, sym, ◌∙◌, Bool, true, false, ◌&&◌, Option, some, List, [], ◌∷◌, ◌==◌,
  ==_iff, if◌then◌else◌, inl, inr, Bool-cases, ltb, &&_iff,
}
use blt.Base.Result.{Result, ok, err, Result-cases}
use blt.Base.Text.{Text, ◌=t◌, =t_iff}
use blt.Bitmap.{IsValid, has}
use blt.Bitmap.Access.{set-Writes}
use blt.Manifest.{Hash}
use blt.Transfer.{Fs, TransferError, hash_mismatch, verify}
use blt.Pool.{PooledWriter, verify_and_write}
use blt.Downloads.Chunks.{
  WriteJob, WriteOutcome, Progress, outcome, account_write, account_all, reject_write, accept_write,
  write_group,
}

-- What one accounted outcome, or a group of them, has done to the bitmap: `Accepted` says of an index
-- that an outcome for it was accepted.
pub record IsAccounted (before : Progress) (Accepted : ℕ → Type 0) (result : Progress)
    : Type 0 where
  pub valid : IsValid result.bitmap
  pub length_kept : result.bitmap.len ≡ before.bitmap.len
  pub kept : (g : ℕ) → has before.bitmap g ≡ some true → has result.bitmap g ≡ some true
  pub only :
      (g : ℕ) → has result.bitmap g ≡ some true → (has before.bitmap g ≡ some true) ⊎ Accepted g

abbrev pub AcceptedOut : WriteOutcome → ℕ → Type 0
AcceptedOut out g = (out.gidx ≡ g) × (out.written ≡ ok tt)

set_keeps : (b : Bool) (o : Option Bool) → o ≡ some true → (if b then some true else o) ≡ some true
set_keeps true o h = refl
set_keeps false o h = h

set_only :
    (b : Bool) (o : Option Bool)
    → (if b then some true else o) ≡ some true
    → (b ≡ true) ⊎ (o ≡ some true)
set_only true o h = inl refl
set_only false o h = inr h

account_write_lem :
    (p : Progress) (out : WriteOutcome)
    → IsValid p.bitmap
    → (accepted : Bool) × (end : Progress) × (account_write p out ≡ some (accepted, end))
      × IsAccounted p (AcceptedOut out) end
unfolding account_write
account_write_lem p out v = elim (Result-cases out.written) [
  | inl (e, w) ↦ (
    false,
    reject_write p out,
    simp (account_write, w),
    record { valid = v; length_kept = refl; kept = λ g h. h; only = λ g h. inl h },
  )
  | inr (done, w) ↦
      let (bm, s, v', len, reads) = set-Writes p.bitmap out.gidx v in
      (
        true,
        accept_write p out bm,
        simp (account_write, w, s),
        record {
          valid = v';
          length_kept = len;
          kept = λ g h.
              reads g ∙ set_keeps ((out.gidx == g) && ltb out.gidx p.bitmap.len) (has p.bitmap g) h;
          only = λ g h.
              elim (set_only ((out.gidx == g) && ltb out.gidx p.bitmap.len) (has p.bitmap g)
                (sym (reads g) ∙ h)) [
                  | inl b ↦ inr ((==_iff out.gidx g).0 ((&&_iff _ _).0 b).0, w)
                  | inr before ↦ inl before
                ];
        },
      )
]

-- An outcome of the group for the index was accepted.
abbrev pub AcceptedIn : List WriteOutcome → ℕ → Type 0
AcceptedIn [] g = ⊥
AcceptedIn (out ∷ outs) g = AcceptedOut out g ⊎ AcceptedIn outs g

pub account_all_lem :
    (p : Progress) (outs : List WriteOutcome)
    → IsValid p.bitmap
    → (n : ℕ) × (end : Progress) × (account_all p outs ≡ some (n, end))
      × IsAccounted p (AcceptedIn outs) end
unfolding account_all
account_all_lem p [] v =
    (0, p, refl, record { valid = v; length_kept = refl; kept = λ g h. h; only = λ g h. inl h })
account_all_lem p (out ∷ outs) v =
    let (counted, mid, e, first) = account_write_lem p out v in
    let (n, end, e', rest) = account_all_lem mid outs first.valid in
    (
      if counted then n + 1 else n,
      end,
      simp (account_all, e, e'),
      record {
        valid = rest.valid;
        length_kept = rest.length_kept ∙ first.length_kept;
        kept = λ g h. rest.kept g (first.kept g h);
        only = λ g h. elim (rest.only g h) [
          | inl before ↦ elim (first.only g before) [
            | inl earlier ↦ inl earlier
            | inr here ↦ inr (inl here)
          ]
          | inr later ↦ inr (inr later)
        ];
      },
    )

module _ (hash_bytes : List ℕ → Hash) where
  -- A fetched chunk of the group for the index has the hash of its locator.
  abbrev pub VerifiedIn : List WriteJob → ℕ → Type 0
  VerifiedIn [] g = ⊥
  VerifiedIn (j ∷ jobs) g =
      ((j.loc.global_idx ≡ g) × (hash_bytes j.bytes ≡ j.loc.hash)) ⊎ VerifiedIn jobs g

  verified_ok :
      (w : PooledWriter) (fs : Fs) (rel_path : Text) (offset : ℕ) (chunk : List ℕ) (expected : Hash)
      (end : PooledWriter × Fs)
      → verify_and_write hash_bytes w fs rel_path offset chunk expected ≡ ok end
      → hash_bytes chunk ≡ expected
  unfolding verify_and_write verify
  verified_ok w fs rel_path offset chunk expected end h =
      elim (Bool-cases (hash_bytes chunk =t expected)) [
        | inl e ↦ (=t_iff (hash_bytes chunk) expected).0 e
        | inr e ↦ absurd (
            let bad : ◌≡◌ {A = Result TransferError (PooledWriter × Fs)}
                (err (hash_mismatch expected)) (ok end) =
              rw (verify_and_write, verify, e) at h in
            cc)
      ]

  pub write_group-VerifiedIn :
      (w : PooledWriter) (fs : Fs) (jobs : List WriteJob) (g : ℕ)
      → AcceptedIn (write_group hash_bytes w fs jobs).1 g
      → VerifiedIn jobs g
  unfolding write_group
  write_group-VerifiedIn w fs [] g a = a
  write_group-VerifiedIn w fs (j ∷ jobs) g a =
      elim (Result-cases
        (verify_and_write hash_bytes w fs j.loc.rel_path j.loc.offset j.bytes j.loc.hash)) [
          | inl (e, h) ↦
              let outs : (write_group hash_bytes w fs (j ∷ jobs)).1
                  ≡ outcome j (err e) ∷ (write_group hash_bytes w fs jobs).1 =
                simp (write_group, h) in
              elim (subst (λ o. AcceptedIn o g) outs a) [
                | inl (i, bad) ↦ absurd (cc)
                | inr later ↦ inr (write_group-VerifiedIn w fs jobs g later)
              ]
          | inr ((w', fs'), h) ↦
              let outs : (write_group hash_bytes w fs (j ∷ jobs)).1
                  ≡ outcome j (ok tt) ∷ (write_group hash_bytes w' fs' jobs).1 =
                simp (write_group, h) in
              elim (subst (λ o. AcceptedIn o g) outs a) [
                | inl (i, done) ↦
                    inl (
                      i,
                      verified_ok w fs j.loc.rel_path j.loc.offset j.bytes j.loc.hash (w', fs') h,
                    )
                | inr later ↦ inr (write_group-VerifiedIn w' fs' jobs g later)
              ]
        ]

  -- On a valid bitmap the accounting of a written group does not panic and keeps the bitmap valid and
  -- of its length; every bit that was set stays set, and a bit that is new belongs to a chunk of the
  -- group whose bytes have the hash of its locator.
  account_all-write_group :
      (w : PooledWriter) (fs : Fs) (jobs : List WriteJob) (p : Progress)
      → IsValid p.bitmap
      → (n : ℕ) × (end : Progress) × (account_all p (write_group hash_bytes w fs jobs).1
          ≡ some (n, end))
        × IsAccounted p (VerifiedIn jobs) end
  account_all-write_group w fs jobs p v =
      let (n, end, e, i) = account_all_lem p (write_group hash_bytes w fs jobs).1 v in
      (
        n,
        end,
        e,
        record {
          valid = i.valid;
          length_kept = i.length_kept;
          kept = i.kept;
          only = λ g h. elim (i.only g h) [
            | inl before ↦ inl before
            | inr here ↦ inr (write_group-VerifiedIn w fs jobs g here)
          ];
        },
      )
