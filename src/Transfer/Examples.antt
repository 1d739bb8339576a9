-- ===== src/Transfer/Examples.antt =====
-- A chunk of two bytes, hashed by itself.
use blt.Base.{ℕ, ◌≡◌, ◌≢◌, refl, false, none, some, List, [], ◌∷◌, All, take, drop, if◌then◌else◌}
use blt.Base.Result.{ok}
use blt.Base.Text.{Text, text, ◌=t◌}
use blt.Pathsafe.{sanitize_rel_path, join}
use blt.Transfer.{Dest, Fs, same_dest, or_new, write_bytes, safe_join, verify_and_write}
use blt.Transfer.Join.{IsKept, safe_join-IsKept, safe_join-sanitize_rel_path}
use blt.Transfer.Write.{verify_and_write-writes}

abbrev no_files : Fs
no_files dest = none

abbrev hash : List ℕ → List ℕ
hash chunk = chunk

abbrev file : Dest
file = text "a" ∷ text "b" ∷ []

abbrev with_file : Fs
with_file dest = if same_dest file dest then some (write_bytes [] 1 (7 ∷ 8 ∷ [])) else none

joined : safe_join (text "a/./b") ≡ ok file
unfolding safe_join ◌=t◌
joined = refl

written : verify_and_write hash no_files (text "a/b") 1 (7 ∷ 8 ∷ []) (7 ∷ 8 ∷ []) ≡ ok with_file
unfolding verify_and_write ◌=t◌
written = refl

accepted : sanitize_rel_path (text "a\\con.txt") ≡ ok (text "a/_con.txt")
unfolding sanitize_rel_path ◌=t◌
accepted = refl

safe_join-IsKept_example : (file ≢ []) × All IsKept file
safe_join-IsKept_example = safe_join-IsKept (text "a/./b") file joined

safe_join-sanitize_rel_path_example :
    (parts : List Text) × (text "a/_con.txt" ≡ join parts)
    × (safe_join (text "a/_con.txt") ≡ ok parts)
safe_join-sanitize_rel_path_example =
    safe_join-sanitize_rel_path (text "a\\con.txt") (text "a/_con.txt") accepted

verify_and_write-writes_example :
    (hash (7 ∷ 8 ∷ []) ≡ 7 ∷ 8 ∷ [])
    × (path : Dest) × (safe_join (text "a/b") ≡ ok path)
    × (take 2 (drop 1 (or_new (with_file path))) ≡ 7 ∷ 8 ∷ [])
    × ((dest : Dest) → same_dest path dest ≡ false → with_file dest ≡ no_files dest)
verify_and_write-writes_example =
    verify_and_write-writes hash no_files (text "a/b") 1 (7 ∷ 8 ∷ []) (7 ∷ 8 ∷ []) with_file written
