-- ===== src/Transfer/Write.antt =====
-- The verified write of a chunk.
use blt.Base.{
  ℕ, zero, suc, ◌+◌, ◌-◌, ◌≡◌, refl, sym, ap, ◌∙◌, false, some, List, [], ◌∷◌, ◌++◌, inl, inr,
  arith, Bool-cases, if◌then◌else◌, length, take, drop, replicate, length-append, length-replicate,
  length-take,
}
use blt.Base.Result.{ok, err, >>=-eq-ok, ok_inj}
use blt.Base.Text.{Text, ◌=t◌, =t_iff}
use blt.Manifest.{Hash}
use blt.Transfer.Dest.{same_dest_self}
use blt.Transfer.{
  hash_mismatch, Dest, Fs, same_dest, or_new, write_bytes, safe_join, write_at, verify,
  verify_and_write,
}

take-append_length {ℓ} :
    {A : Type ℓ} (n : ℕ) (xs ys : List A) → length xs ≡ n → take n (xs ++ ys) ≡ xs
take-append_length zero [] ys h = refl
take-append_length zero (x ∷ xs) ys h = absurd (omega arith)
take-append_length (suc n) [] ys h = absurd (omega arith)
take-append_length (suc n) (x ∷ xs) ys h = ap (◌∷◌ x) (take-append_length n xs ys (omega arith))

drop-append_length {ℓ} :
    {A : Type ℓ} (n : ℕ) (xs ys : List A) → length xs ≡ n → drop n (xs ++ ys) ≡ ys
drop-append_length zero [] ys h = refl
drop-append_length zero (x ∷ xs) ys h = absurd (omega arith)
drop-append_length (suc n) [] ys h = absurd (omega arith)
drop-append_length (suc n) (x ∷ xs) ys h = drop-append_length n xs ys (omega arith)

-- The bytes at the offset are those written.
write_bytes-read :
    (bytes : List ℕ) (offset : ℕ) (chunk : List ℕ)
    → take (length chunk) (drop offset (write_bytes bytes offset chunk)) ≡ chunk
unfolding write_bytes
write_bytes-read bytes offset chunk =
    let pad : List ℕ = replicate (offset - length bytes) 0 in
    let front : length (take offset (bytes ++ pad)) ≡ offset = omega (
      arith,
      length-take offset (bytes ++ pad),
      length-append bytes pad,
      length-replicate {A = ℕ} (offset - length bytes) 0,
    ) in
    ap (take (length chunk)) (
      drop-append_length offset (take offset (bytes ++ pad))
        (chunk ++ drop (offset + length chunk) bytes) front)
    ∙ take-append_length (length chunk) chunk (drop (offset + length chunk) bytes) refl

module _ (hash_bytes : List ℕ → Hash) where
  -- A write that succeeds had the expected hash; the chunk is read back at its offset of the
  -- destination, and every other file stays.
  pub verify_and_write-writes :
      (fs : Fs) (rel_path : Text) (offset : ℕ) (chunk : List ℕ) (expected : Hash) (fs' : Fs)
      → verify_and_write hash_bytes fs rel_path offset chunk expected ≡ ok fs'
      → (hash_bytes chunk ≡ expected)
        × (path : Dest) × (safe_join rel_path ≡ ok path)
        × (take (length chunk) (drop offset (or_new (fs' path))) ≡ chunk)
        × ((dest : Dest) → same_dest path dest ≡ false → fs' dest ≡ fs dest)
  unfolding verify_and_write verify write_at
  verify_and_write-writes fs rel_path offset chunk expected fs' h =
      elim (Bool-cases (hash_bytes chunk =t expected)) [
        | inr e ↦ absurd (let f : err (hash_mismatch expected) ≡ ok fs' = rw e at h in cc)
        | inl e ↦
            let (path, j, w) =
              >>=-eq-ok (safe_join rel_path)
                (λ path. ok (λ dest.
                  if same_dest path dest
                  then some (write_bytes (or_new (fs path)) offset chunk)
                  else fs dest))
                (rw e at h) in
            let written : (λ (dest : Dest).
              if same_dest path dest
              then some (write_bytes (or_new (fs path)) offset chunk)
              else fs dest)
                ≡ fs' =
              ok_inj _ fs' w in
            (
              (=t_iff (hash_bytes chunk) expected).0 e,
              path,
              j,
              ap (λ f. take (length chunk) (drop offset (or_new (f path)))) (sym written)
                  ∙ ap
                      (λ b. take (length chunk) (
                        drop offset (
                          or_new (
                            if b
                            then some (write_bytes (or_new (fs path)) offset chunk)
                            else fs path))))
                      (same_dest_self path)
                  ∙ write_bytes-read (or_new (fs path)) offset chunk,
              λ dest ne.
                  ap (λ f. f dest) (sym written)
                  ∙ ap
                      (λ b.
                        if b then some (write_bytes (or_new (fs path)) offset chunk) else fs dest)
                      ne,
            )
      ]
