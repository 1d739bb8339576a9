-- ===== src/Pathsafe/Examples.antt =====
-- A Windows path with a device name.
use blt.Base.{◌≡◌, ◌≤◌, refl, arith}
use blt.Base.Result.{ok}
use blt.Base.Text.{Text, text, ◌=t◌}
use blt.Pathsafe.{sanitize_rel_path, byte_len, cap}
use blt.Pathsafe.Length.{cap-short}
use blt.Pathsafe.Again.{sanitize_rel_path-idempotent}

escapes : sanitize_rel_path (text "a\\con.txt") ≡ ok (text "a/_con.txt")
unfolding sanitize_rel_path ◌=t◌
escapes = refl

short : byte_len (cap (text "con")) ≤ 230
unfolding cap byte_len
short = omega arith

sanitize_rel_path-idempotent_example :
    sanitize_rel_path (text "a/_con.txt") ≡ ok (text "a/_con.txt")
sanitize_rel_path-idempotent_example =
    sanitize_rel_path-idempotent (text "a\\con.txt") (text "a/_con.txt") escapes

cap-short_example : cap (text "con") ≡ text "con"
cap-short_example = cap-short (text "con") short
