-- ===== src/Chunking/Plan.antt =====
-- What `plan_chunks` returns, on every size of file and chunk.
use blt.Base.{
  ℕ, zero, suc, ◌+◌, ◌-◌, ◌*◌, ◌%◌, ◌^◌, ◌≤◌, ◌<◌, min, Option, none, some, List, [], ◌∷◌, ◌≡◌,
  refl, sym, ltb, inl, inr, ◌==◌, div_ceil, if◌then◌else◌, arith, length, get_elem?, Bool-cases,
  multiple_le, ◌∙◌, dec_lt, ltb→lt, multiple_unique, div_ceil_bounds,
}
use blt.Chunking.{ChunkPlan, effective_chunk_size, plan_loop, plan_chunks, chunk_count}

-- The `k`-th chunk after the offset `o`, whose index is `idx`.
abbrev pub planned : ℕ → ℕ → ℕ → ℕ → ℕ → Option ChunkPlan
planned fs cs o idx k =
    if ltb (o + k * cs) fs
    then some (record {
      idx = (idx + k) % 2 ^ 32;
      offset = o + k * cs;
      size = min cs (fs - (o + k * cs));
    })
    else none

-- The chunks lie end to end from `o` to the end of the file; each of them is whole but the last,
-- and none is empty.
abbrev pub Tiles : ℕ → ℕ → ℕ → List ChunkPlan → Type 0
Tiles fs cs o [] = o ≡ fs
Tiles fs cs o (p ∷ ps) =
    (p.offset ≡ o) × (0 < p.size) × (p.size ≡ min cs (fs - o)) × Tiles fs cs (o + p.size) ps

pub record IsPlan (fs cs o idx : ℕ) (l : List ChunkPlan) : Type 0 where
  pub at : (k : ℕ) → get_elem? l k ≡ planned fs cs o idx k
  pub tiles : Tiles fs cs o l
  pub covers : fs ≤ o + length l * cs
  pub no_more : o + length l * cs < fs + cs

module _ (fs cs : ℕ) (pos : 0 < cs) where
  -- One more chunk in front.
  module _ (o idx : ℕ) (l : List ChunkPlan) (h : o < fs) (w : idx < 2 ^ 32)
      (ih : IsPlan fs cs (o + min cs (fs - o)) ((idx + 1) % 2 ^ 32) l) where
    abbrev longer : List ChunkPlan
    longer = record { idx = idx; offset = o; size = min cs (fs - o) } ∷ l

    at_longer : (k : ℕ) → get_elem? longer k ≡ planned fs cs o idx k
    at_longer zero = ground arith
    at_longer (suc k) = ih.at k ∙ ground arith

    bounds_longer : (fs ≤ o + length longer * cs) × (o + length longer * cs < fs + cs)
    bounds_longer = elim (dec_lt (fs - o) cs) [
      | yes short ↦
          let e : length l ≤ 0 =
            multiple_le (length l) 0 0 cs (omega (arith, ih.no_more)) (omega arith) in
          let e' : length l ≡ 0 = omega arith in rw e' (omega arith)
      | no whole ↦ omega (arith, ih.covers, ih.no_more)
    ]

    longer-IsPlan : IsPlan fs cs o idx longer
    longer-IsPlan = record {
      at = at_longer;
      tiles = (refl, omega arith, refl, ih.tiles);
      covers = bounds_longer.0;
      no_more = bounds_longer.1;
    }

  plan_loop-IsPlan :
      (fuel o idx : ℕ)
      → o ≤ fs
      → idx < 2 ^ 32
      → fs - o < fuel
      → (l : List ChunkPlan) × (plan_loop fuel fs cs o idx ≡ some l) × IsPlan fs cs o idx l
  unfolding plan_loop
  plan_loop-IsPlan zero o idx h w f = absurd (omega arith)
  plan_loop-IsPlan (suc fuel) o idx h w f = elim (Bool-cases (ltb o fs)) [
    | inl more ↦
        let lt : o < fs = ltb→lt o fs more in
        let (l, e, p) =
          plan_loop-IsPlan fuel (o + min cs (fs - o)) ((idx + 1) % 2 ^ 32) (omega arith)
            (omega arith) (omega arith) in
        (longer o idx l lt w p, rw (more, plan_loop, e), longer-IsPlan o idx l lt w p)
    | inr done ↦
        let e : o ≡ fs = ground arith in
        (
          [],
          rw (done, plan_loop),
          record { at = λ k. ground arith; tiles = e; covers = omega arith; no_more = omega arith },
        )
  ]

effective-pos : (cs : ℕ) → 0 < effective_chunk_size cs
unfolding effective_chunk_size
effective-pos cs = ground arith

-- `plan_chunks` ends, on every file size and chunk size, with `chunk_count` many plans; the `k`-th,
-- while `k` chunks do not cover the file, has the offset of `k` whole chunks, the index `k` as a
-- u32, and the size of a chunk or of what is left; they lie end to end, none of them empty.
pub plan_chunks-IsPlan :
    (fs cs : ℕ)
    → (l : List ChunkPlan) × (plan_chunks fs cs ≡ some l)
      × (length l ≡ chunk_count fs cs)
      × IsPlan fs (effective_chunk_size cs) 0 0 l
unfolding plan_chunks chunk_count
plan_chunks-IsPlan fs cs = elim (Bool-cases (fs == 0)) [
  | inl e ↦
      let z : fs ≡ 0 = ground arith in
      (
        [],
        rw e,
        rw e,
        record {
          at = λ k. ground arith;
          tiles = sym z;
          covers = omega arith;
          no_more = omega (arith, effective-pos cs);
        },
      )
  | inr e ↦
      let (l, r, p) =
        plan_loop-IsPlan fs (effective_chunk_size cs) (effective-pos cs) (fs + 1) 0 0 (omega arith)
          (omega arith) (omega arith) in
      let (lo, hi) = div_ceil_bounds fs (effective_chunk_size cs) (effective-pos cs) in
      (
        l,
        rw (e, r),
        rw e (
            multiple_unique (length l) (div_ceil fs (effective_chunk_size cs)) fs
              (effective_chunk_size cs) (omega (arith, p.covers)) (omega (arith, p.no_more)) lo hi),
        p,
      )
]
