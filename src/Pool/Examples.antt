-- ===== src/Pool/Examples.antt =====
-- A write through a pool with one open handle.
use blt.Base.{ℕ, ◌≡◌, refl, none, List, [], ◌∷◌, arith}
use blt.Base.Text.{text, ◌=t◌}
use blt.Transfer.{Fs, safe_join}
use blt.Transfer as Transfer
use blt.Pool.{PooledWriter, verify_and_write}
use blt.Pool.Refine.{IsPool, files, PoolKept, verify_and_write-plain}

abbrev hash : List ℕ → List ℕ
hash bytes = bytes

abbrev no_files : Fs
no_files dest = none

abbrev pool : PooledWriter
pool = record { handles = (text "a", text "a" ∷ []) ∷ []; max_open = 1 }

pool-IsPool : IsPool pool
unfolding safe_join ◌=t◌
pool-IsPool = record { handles = (refl, tt); bounded = omega arith; some_open = omega arith }

verify_and_write-plain_example :
    (files (verify_and_write hash pool no_files (text "b") 2 (7 ∷ []) (7 ∷ []))
      ≡ Transfer.verify_and_write hash no_files (text "b") 2 (7 ∷ []) (7 ∷ []))
    × PoolKept (verify_and_write hash pool no_files (text "b") 2 (7 ∷ []) (7 ∷ []))
verify_and_write-plain_example =
    verify_and_write-plain hash pool no_files (text "b") 2 (7 ∷ []) (7 ∷ []) pool-IsPool
