-- ===== src/Admin/Examples.antt =====
-- A server whose password is its own hash.
use blt.Base.{◌+◌, ◌<◌, ◌≤◌, ◌≡◌, refl, Bool, true, false, Option, some, List, [], ◌∷◌, arith}
use blt.Base.Result.{ok}
use blt.Base.Text.{Text, text, ◌=t◌}
use blt.Admin.{Gate, session_new, session_valid, change_password, session_absolute}
use blt.Admin.Sessions.{Use, use_all, session_valid-refused, session_valid-absolute}
use blt.Admin.Throttle.{Event, arrives, finishes, run, guesses, peak}
use blt.Admin.Bound.{opened, guesses_bound}
use blt.Admin.Password.{IsChanged, change_password-IsChanged}

abbrev parses : Text → Bool
parses stored = true

abbrev verifies : Text → Text → Bool
verifies stored password = stored =t password

abbrev fresh : Gate
fresh = record { password_hash = some (text "good"); admin_sessions = []; login_throttle = [] }

abbrev uses : List Use
uses = Use.mints (text "u") 20 ∷ Use.checks (text "t") 30 ∷ []

session_valid-refused_example :
    (session_valid (use_all (session_valid fresh (text "t") 10).1 uses) (text "t") 40).0 ≡ false
unfolding ◌=t◌ session_valid session_new
session_valid-refused_example =
    session_valid-refused fresh (text "t") 10 uses 40 refl (refl, (refl, tt))

session_valid-absolute_example : 40 < 5 + session_absolute
unfolding ◌=t◌ session_valid session_new
session_valid-absolute_example =
    session_valid-absolute fresh (text "t") 5 uses 40 (refl, (refl, tt)) refl

-- Two requests are checked at the same time.
abbrev window : List Event
window =
    arrives (text "10.0.0.9") 100 (text "bad")
    ∷ arrives (text "10.0.0.9") 101 (text "bad")
    ∷ finishes 0 102
    ∷ finishes 0 103
    ∷ []

guesses_bound_example :
    guesses parses verifies (text "10.0.0.9") (run parses verifies (opened (text "good")) []) window
    ≤ 7
      + peak parses verifies
          (text "10.0.0.9")
          (run parses verifies (opened (text "good")) [])
          window
unfolding ◌=t◌
guesses_bound_example =
    guesses_bound parses verifies (text "10.0.0.9") (text "good") [] window 90 tt
      (
        (omega arith, omega arith),
        (
          (omega arith, omega arith),
          ((omega arith, omega arith), ((omega arith, omega arith), tt)),
        ),
      )
      (λ e. refl, (λ e. refl, (tt, (tt, tt))))

abbrev hashes : Text → Option Text
hashes password = some password

changed :
    (change_password parses verifies hashes fresh 50
      (text "good")
      (text "much better")
      true
      (text "t")).0
    ≡ ok (text "t")
unfolding ◌=t◌ change_password
changed = refl

change_password-IsChanged_example :
    IsChanged parses verifies hashes fresh 50
      (text "good")
      (text "much better")
      (text "t")
      (change_password parses verifies hashes fresh 50
        (text "good")
        (text "much better")
        true
        (text "t")).1
change_password-IsChanged_example =
    change_password-IsChanged parses verifies hashes fresh 50 (text "good") (text "much better")
      true (text "t") changed
