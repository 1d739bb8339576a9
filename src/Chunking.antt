-- ===== src/Chunking.antt =====
-- crates/core/src/chunking.rs: fixed-size chunk plans of a file.
pub mod Plan
use mathlib.Core.Option
use blt.Base.{
  ℕ, zero, suc, ◌+◌, ◌-◌, ◌*◌, ◌%◌, ◌^◌, min, Option, none, some, List, [], ◌∷◌, ltb, ◌==◌,
  div_ceil, if◌then◌else◌,
}

-- `DEFAULT_CHUNK_SIZE`: 4 MiB.
abbrev pub default_chunk_size : ℕ
default_chunk_size = 4 * 1024 * 1024

pub record ChunkPlan : Type 0 where
  pub idx : ℕ  -- u32
  pub offset : ℕ  -- u64
  pub size : ℕ  -- u64

-- A chunk size of 0 stands for the default.
unfoldable pub effective_chunk_size : ℕ → ℕ
effective_chunk_size chunk_size = if chunk_size == 0 then default_chunk_size else chunk_size

-- The `while offset < file_size` loop, on fuel: `none` means that the fuel ran out. `idx += 1` is
-- that of a u32; `offset` never passes `file_size`, and does not wrap.
unfoldable pub plan_loop : ℕ → ℕ → ℕ → ℕ → ℕ → Option (List ChunkPlan)
plan_loop zero file_size chunk_size offset idx = none
plan_loop (suc fuel) file_size chunk_size offset idx =
    let size = min chunk_size (file_size - offset) in
    let plan : ChunkPlan = record { idx = idx; offset = offset; size = size } in
    let rest = plan_loop fuel file_size chunk_size (offset + size) ((idx + 1) % 2 ^ 32) in
    if ltb offset file_size then Option.map (λ plans. plan ∷ plans) rest else some []

-- One round for each byte, and the last test, are fuel enough.
unfoldable pub plan_chunks : ℕ → ℕ → Option (List ChunkPlan)
unfolding plan_loop
plan_chunks file_size chunk_size =
    if file_size == 0
    then some []
    else plan_loop (file_size + 1) file_size (effective_chunk_size chunk_size) 0 0

unfoldable pub chunk_count : ℕ → ℕ → ℕ
unfolding div_ceil effective_chunk_size
chunk_count file_size chunk_size =
    if file_size == 0 then 0 else div_ceil file_size (effective_chunk_size chunk_size)
