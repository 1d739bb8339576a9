-- ===== src/Admin/Bound.antt =====
-- How many wrong passwords of an address are looked at within a minute.
use mathlib.Core.Path.{subst}
use blt.Base.{
  ℕ, ◌+◌, ◌<◌, ◌≤◌, ◌≡◌, refl, sym, ap, ◌∙◌, Bool, some, List, [], ◌∷◌, arith, inl, inr, Bool-cases,
  All, leb,
}
use blt.Base.Assoc.{lookup}
use blt.Base.Text.{Text}
use blt.Admin.{LoginThrottle, count_fail, max_login_fails, login_lockout}
use blt.Admin.Throttle.{
  Door, Event, arrives, finishes, throttle, arrive, in_flight, finish, step, run, guesses, peak,
  WrongEvent, InWindow, count_fail-below,
}
use blt.Admin.Guesses.{
  Sound, away, counted, arrive-Sound, finish-Sound, step-Sound, ended, arrive_keeps, arrive_locked,
}

-- The lock that a wrong password leaves is no shorter than the one before it.
count_fail-locked :
    (now : ℕ) (t : LoginThrottle) (until limit : ℕ)
    → t.locked_until ≡ some until
    → limit ≤ until
    → limit ≤ now + login_lockout
    → (until' : ℕ) × ((count_fail now t).locked_until ≡ some until') × (limit ≤ until')
count_fail-locked now t until limit l h k = elim (Bool-cases (leb max_login_fails (t.fails + 1))) [
  | inl full ↦ (now + login_lockout, rw full refl, k)
  | inr more ↦ (until, rw more l, h)
]

module _ (parses : Text → Bool) (verifies : Text → Text → Bool) (ip stored : Text) where
  -- Once the address is locked out for the rest of the window, only what is in flight is looked at.
  guesses-locked :
      (d : Door) (window : List Event) (start until : ℕ)
      → Sound parses verifies ip stored d
      → (throttle d.gate ip).locked_until ≡ some until
      → start + login_lockout ≤ until
      → All (InWindow parses verifies start) window
      → All (WrongEvent parses verifies ip stored) window
      → guesses parses verifies ip d window ≤ in_flight ip d
  guesses-locked d [] start until i l u h w = omega arith
  guesses-locked d (arrives from now password ∷ rest) start until i l u h w =
      let next : Door = arrive d from now password in
      let rest_bound =
        guesses-locked next rest start until
          (arrive-Sound parses verifies ip stored d from now password w.0 i)
          (ap LoginThrottle.locked_until
              (arrive_keeps parses verifies ip stored d from now password)
            ∙ l)
          u h.1 w.1 in
      let same =
        arrive_locked parses verifies ip stored d from now until password l
          (omega (arith, h.0.1, u)) in
      omega (arith, rest_bound, same)
  guesses-locked d (finishes k now ∷ rest) start until i l u h w =
      let next : Door = finish parses verifies d k now in
      let sound = finish-Sound parses verifies ip stored d k now i in
      elim (ended parses verifies ip stored d k now i) [
        | away t f g ↦
            let rest_bound =
              guesses-locked next rest start until sound (ap LoginThrottle.locked_until t ∙ l) u h.1
                w.1 in
            omega (arith, rest_bound, f, g)
        | counted t f g ↦
            let (until', l', u') =
              count_fail-locked now (throttle d.gate ip) until (start + login_lockout) l u
                (omega (arith, h.0.0)) in
            let rest_bound =
              guesses-locked next rest start until' sound (ap LoginThrottle.locked_until t ∙ l') u'
                h.1 w.1 in
            omega (arith, rest_bound, f, g)
      ]

  guesses-open :
      (d : Door) (window : List Event) (start : ℕ)
      → Sound parses verifies ip stored d
      → (throttle d.gate ip).fails < max_login_fails
      → All (InWindow parses verifies start) window
      → All (WrongEvent parses verifies ip stored) window
      → guesses parses verifies ip d window + (throttle d.gate ip).fails
        ≤ 7 + peak parses verifies ip d window
  guesses-open d [] start i b h w = omega (arith, b)
  guesses-open d (arrives from now password ∷ rest) start i b h w =
      let keeps = arrive_keeps parses verifies ip stored d from now password in
      let rest_bound =
        guesses-open (arrive d from now password) rest start
          (arrive-Sound parses verifies ip stored d from now password w.0 i)
          (subst (λ (t : LoginThrottle). t.fails < max_login_fails) (sym keeps) b) h.1 w.1 in
      omega (arith, rest_bound, ap LoginThrottle.fails keeps)
  guesses-open d (finishes k now ∷ rest) start i b h w =
      let next : Door = finish parses verifies d k now in
      let sound = finish-Sound parses verifies ip stored d k now i in
      elim (ended parses verifies ip stored d k now i) [
        | away t f g ↦
            let rest_bound =
              guesses-open next rest start sound
                (subst (λ (t : LoginThrottle). t.fails < max_login_fails) (sym t) b) h.1 w.1 in
            omega (arith, rest_bound, g, ap LoginThrottle.fails t)
        | counted t f g ↦ elim (Bool-cases (leb max_login_fails ((throttle d.gate ip).fails + 1))) [
          | inl full ↦
              let shut : (throttle next.gate ip).locked_until ≡ some (now + login_lockout) =
                ap LoginThrottle.locked_until t ∙ rw full refl in
              let rest_bound =
                guesses-locked next rest start (now + login_lockout) sound shut
                  (omega (arith, h.0.0)) h.1 w.1 in
              omega (arith, rest_bound, b, f, g)
          | inr more ↦
              let count : (throttle next.gate ip).fails ≡ (throttle d.gate ip).fails + 1 =
                ap LoginThrottle.fails t ∙ rw more refl in
              let rest_bound =
                guesses-open next rest start sound
                  (subst (λ (t : LoginThrottle). t.fails < max_login_fails) (sym t)
                    (count_fail-below now (throttle d.gate ip)))
                  h.1 w.1 in
              omega (arith, rest_bound, count, g)
        ]
      ]

  step-below :
      (d : Door) (e : Event)
      → Sound parses verifies ip stored d
      → (throttle d.gate ip).fails < max_login_fails
      → (throttle (step parses verifies d e).gate ip).fails < max_login_fails
  step-below d (arrives from now password) i b =
      subst (λ (t : LoginThrottle). t.fails < max_login_fails)
        (sym (arrive_keeps parses verifies ip stored d from now password)) b
  step-below d (finishes k now) i b = elim (ended parses verifies ip stored d k now i) [
    | away t f g ↦ subst (λ (t : LoginThrottle). t.fails < max_login_fails) (sym t) b
    | counted t f g ↦
        subst (λ (t : LoginThrottle). t.fails < max_login_fails) (sym t)
          (count_fail-below now (throttle d.gate ip))
  ]

  -- What stays true while the address only sends wrong passwords.
  run-Sound :
      (d : Door) (events : List Event)
      → All (WrongEvent parses verifies ip stored) events
      → Sound parses verifies ip stored d
      → (throttle d.gate ip).fails < max_login_fails
      → Sound parses verifies ip stored (run parses verifies d events)
        × ((throttle (run parses verifies d events).gate ip).fails < max_login_fails)
  run-Sound d [] w i b = (i, b)
  run-Sound d (e ∷ events) w i b =
      run-Sound (step parses verifies d e) events w.1
        (step-Sound parses verifies ip stored d e w.0 i) (step-below d e i b)

-- A server that has started with the password's hash.
abbrev pub opened : Text → Door
opened stored = record {
  gate = record { password_hash = some stored; admin_sessions = []; login_throttle = [] };
  flights = [];
}

-- From a server that has started with a password, after any requests of login and verify_admin at all,
-- an address that only sends wrong passwords there has, within any one minute, at most seven more of
-- them looked at than the largest number of its requests that are being checked at the same time:
-- eight if it sends one after another. This holds however many it sends, however the checks interleave
-- and whatever other addresses do there.
pub guesses_bound :
    (parses : Text → Bool) (verifies : Text → Text → Bool) (ip stored : Text)
    (before window : List Event) (start : ℕ)
    → All (WrongEvent parses verifies ip stored) before
    → All (InWindow parses verifies start) window
    → All (WrongEvent parses verifies ip stored) window
    → guesses parses verifies ip (run parses verifies (opened stored) before) window
      ≤ 7 + peak parses verifies ip (run parses verifies (opened stored) before) window
unfolding lookup
guesses_bound parses verifies ip stored before window start v h w =
    let (i, b) =
      run-Sound parses verifies ip stored (opened stored) before v
        (record { hash = refl; wrongs = tt }) (omega arith) in
    omega (
      arith,
      guesses-open parses verifies ip stored (run parses verifies (opened stored) before) window
          start i b h w,
    )
