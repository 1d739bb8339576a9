-- ===== src/Admin/Throttle.antt =====
-- The throttle over the requests of login and verify_admin: each takes the lock test in one step and the
-- check of its password in another, and requests of any addresses interleave.
use mathlib.Core.Path.{subst}
use blt.Base.{
  ℕ, zero, suc, max, Option, ◌⊎◌, ◌+◌, ◌<◌, ◌≤◌, ◌≡◌, refl, ap, ◌∙◌, Bool, true, false, ◌&&◌, none,
  some, List, [], ◌∷◌, arith, if◌then◌else◌, inl, inr, Bool-cases, Option-cases, All,
}
use blt.Base.Assoc.{lookup, lookup-insert_at, lookup-erase}
use blt.Base.Result.{Result, ok, err}
use blt.Base.Text.{Text, ◌=t◌, =t_iff}
use blt.Admin.{
  LoginThrottle, Gate, ApiError, not_found, unauthorized, forbidden, conflict, bad_request,
  too_many_requests, internal, login_locked, login_fail, login_ok, is_later, throttle_of,
  count_fail, start_login, check_password, max_login_fails, login_lockout,
}

-- A request that has passed the lock test and whose password is being checked.
pub record Flight : Type 0 where
  pub ip : Text
  pub password : Text

-- The server and its requests in flight.
pub record Door : Type 0 where
  pub gate : Gate
  pub flights : List Flight

-- A request comes in, or the check of the k-th one in flight ends.
pub data Event : Type 0 where
  arrives : (ip : Text) (now : ℕ) (password : Text) → Event
  finishes : (k : ℕ) (now : ℕ) → Event

abbrev pub take_out : ℕ → List Flight → Option (Flight × List Flight)
take_out k [] = none
take_out zero (f ∷ fs) = some (f, fs)
take_out (suc k) (f ∷ fs) = elim (take_out k fs) [
  | none ↦ none
  | some (g, rest) ↦ some (g, f ∷ rest)
]

abbrev pub throttle : Gate → Text → LoginThrottle
throttle g ip = throttle_of (lookup ◌=t◌ ip g.login_throttle)

-- Was a wrong password looked at?
abbrev pub is_guess : Result ApiError (Unit {0}) → Bool
is_guess (ok done) = false
is_guess (err not_found) = false
is_guess (err unauthorized) = true
is_guess (err forbidden) = false
is_guess (err conflict) = false
is_guess (err bad_request) = false
is_guess (err too_many_requests) = false
is_guess (err internal) = false

pub count_fail-below : (now : ℕ) (e : LoginThrottle) → (count_fail now e).fails < max_login_fails
count_fail-below now e = ground arith

pub throttle-login_fail :
    (g : Gate) (a ip : Text) (now : ℕ)
    → throttle (login_fail g a now) ip
      ≡ (if a =t ip then count_fail now (throttle g a) else throttle g ip)
unfolding login_fail
throttle-login_fail g a ip now = elim (Bool-cases (a =t ip)) [
  | inl e ↦
      rw (lookup-insert_at ◌=t◌ =t_iff a ip (count_fail now (throttle g a)) g.login_throttle, e)
        refl
  | inr e ↦
      rw (lookup-insert_at ◌=t◌ =t_iff a ip (count_fail now (throttle g a)) g.login_throttle, e)
        refl
]

pub throttle-login_ok :
    (g : Gate) (a ip : Text)
    → throttle (login_ok g a) ip
      ≡ (if a =t ip then record { fails = 0; locked_until = none } else throttle g ip)
unfolding login_ok
throttle-login_ok g a ip = elim (Bool-cases (a =t ip)) [
  | inl e ↦ rw (lookup-erase ◌=t◌ =t_iff a ip g.login_throttle, e) refl
  | inr e ↦ rw (lookup-erase ◌=t◌ =t_iff a ip g.login_throttle, e) refl
]

pub locked_at-throttle :
    (g : Gate) (ip : Text) (now : ℕ)
    → login_locked g ip now ≡ is_later now (throttle g ip).locked_until
unfolding login_locked
locked_at-throttle g ip now = elim (Option-cases (lookup ◌=t◌ ip g.login_throttle)) [
  | inl o ↦ rw o refl
  | inr (e, o) ↦ rw o refl
]

abbrev pub arrive : Door → Text → ℕ → Text → Door
arrive d ip now password = elim (start_login d.gate ip now) [
  | err e ↦ d
  | ok passed ↦ record d { flights = record { ip = ip; password = password } ∷ d.flights }
]

abbrev pub one_if : Bool → ℕ
one_if b = if b then 1 else 0

abbrev pub count_ip : Text → List Flight → ℕ
count_ip ip [] = 0
count_ip ip (f ∷ fs) = one_if (f.ip =t ip) + count_ip ip fs

-- The requests of the address that are being checked.
abbrev pub in_flight : Text → Door → ℕ
in_flight ip d = count_ip ip d.flights

add_under : (a b m n : ℕ) → m ≡ b + n → a + m ≡ b + (a + n)
add_under a b m n h = omega arith

pair_inj :
    (f g : Flight) (fs gs : List Flight)
    → ◌≡◌ {A = Option (Flight × List Flight)} (some (f, fs)) (some (g, gs))
    → (f ≡ g) × (fs ≡ gs)
pair_inj f g fs gs h = (
  ap (λ o. elim o [ none ↦ f | some x ↦ x.0 ]) h,
  ap (λ o. elim o [ none ↦ fs | some x ↦ x.1 ]) h,
)

take_out-suc :
    (k : ℕ) (g : Flight) (fs : List Flight) (f : Flight) (rest : List Flight)
    → take_out (suc k) (g ∷ fs) ≡ some (f, rest)
    → (rest' : List Flight) × (take_out k fs ≡ some (f, rest')) × (g ∷ rest' ≡ rest)
take_out-suc k g fs f rest h = elim (Option-cases (take_out k fs)) [
  | inl o ↦
      absurd
        (let bad : ◌≡◌ {A = Option (Flight × List Flight)} none (some (f, rest)) = rw o at h in cc)
  | inr ((f', rest'), o) ↦
      let (same, eq) = pair_inj f' f (g ∷ rest') rest (rw o at h) in
      (rest', o ∙ ap (λ x. some (x, rest')) same, eq)
]

pub count_ip-take_out :
    (ip : Text) (k : ℕ) (fs : List Flight) (f : Flight) (rest : List Flight)
    → take_out k fs ≡ some (f, rest)
    → count_ip ip fs ≡ one_if (f.ip =t ip) + count_ip ip rest
count_ip-take_out ip k [] f rest h = absurd (cc)
count_ip-take_out ip zero (g ∷ fs) f rest h =
    let (same, eq) = pair_inj g f fs rest h in
    ap (λ (x : Flight). one_if (x.ip =t ip) + count_ip ip fs) same
    ∙ ap (λ x. one_if (f.ip =t ip) + count_ip ip x) eq
count_ip-take_out ip (suc k) (g ∷ fs) f rest h =
    let (rest', o, eq) = take_out-suc k g fs f rest h in
    add_under (one_if (g.ip =t ip)) (one_if (f.ip =t ip)) (count_ip ip fs) (count_ip ip rest')
      (count_ip-take_out ip k fs f rest' o)
    ∙ ap (λ x. one_if (f.ip =t ip) + count_ip ip x) eq

pub All-take_out :
    (P : Flight → Type 0) (k : ℕ) (fs : List Flight) (f : Flight) (rest : List Flight)
    → take_out k fs ≡ some (f, rest)
    → All P fs
    → P f × All P rest
All-take_out P k [] f rest h a = absurd (cc)
All-take_out P zero (g ∷ fs) f rest h a =
    let (same, eq) = pair_inj g f fs rest h in (subst P same a.0, subst (All P) eq a.1)
All-take_out P (suc k) (g ∷ fs) f rest h a =
    let (rest', o, eq) = take_out-suc k g fs f rest h in
    let (p, all) = All-take_out P k fs f rest' o a.1 in (p, subst (All P) eq (a.0, all))

start_login_lem :
    (g : Gate) (ip : Text) (now : ℕ)
    → start_login g ip now ≡ (if login_locked g ip now then err too_many_requests else ok tt)
unfolding start_login
start_login_lem g ip now = refl

pub arrive_lem :
    (d : Door) (ip : Text) (now : ℕ) (password : Text)
    → ((login_locked d.gate ip now ≡ true) × (arrive d ip now password ≡ d))
      ⊎ ((login_locked d.gate ip now ≡ false)
          × (arrive d ip now password
              ≡ record d { flights = record { ip = ip; password = password } ∷ d.flights }))
arrive_lem d ip now password = elim (Bool-cases (login_locked d.gate ip now)) [
  | inl l ↦
      let e : start_login d.gate ip now ≡ err too_many_requests =
        start_login_lem d.gate ip now ∙ rw l refl in
      inl (l, rw (e, arrive) refl)
  | inr l ↦
      let e : start_login d.gate ip now ≡ ok tt = start_login_lem d.gate ip now ∙ rw l refl in
      inr (l, rw (e, arrive) refl)
]

module _ (parses : Text → Bool) (verifies : Text → Text → Bool) where
  abbrev pub checked : Door → Flight → ℕ → Result ApiError (Unit {0}) × Gate
  checked d f now = check_password parses verifies d.gate f.ip now f.password

  abbrev pub finish : Door → ℕ → ℕ → Door
  finish d k now = elim (take_out k d.flights) [
    | none ↦ d
    | some (f, rest) ↦ record { gate = (checked d f now).1; flights = rest }
  ]

  abbrev pub step : Door → Event → Door
  step d (arrives ip now password) = arrive d ip now password
  step d (finishes k now) = finish d k now

  abbrev pub run : Door → List Event → Door
  run d [] = d
  run d (e ∷ events) = run (step d e) events

  -- Does the check that ends find a wrong password of the address?
  abbrev pub guess : Text → Door → Event → ℕ
  guess ip d (arrives a now password) = 0
  guess ip d (finishes k now) = elim (take_out k d.flights) [
    | none ↦ 0
    | some (f, rest) ↦ one_if ((f.ip =t ip) && is_guess (checked d f now).0)
  ]

  -- How many wrong passwords of the address are looked at.
  abbrev pub guesses : Text → Door → List Event → ℕ
  guesses ip d [] = 0
  guesses ip d (e ∷ events) = guess ip d e + guesses ip (step d e) events

  -- How many requests of the address are in flight at the same time at most.
  abbrev pub peak : Text → Door → List Event → ℕ
  peak ip d [] = in_flight ip d
  peak ip d (e ∷ events) = max (in_flight ip d) (peak ip (step d e) events)

  -- The three ways a check goes.
  pub data Went (d : Door) (f : Flight) (now : ℕ) : Type 0 where
    unset : is_guess (checked d f now).0 ≡ false → (checked d f now).1 ≡ d.gate → Went d f now
    wrong :
        is_guess (checked d f now).0 ≡ true
        → (checked d f now).1 ≡ login_fail d.gate f.ip now
        → Went d f now
    right :
        is_guess (checked d f now).0 ≡ false
        → (stored : Text) → d.gate.password_hash ≡ some stored
        → verifies stored f.password ≡ true
        → (checked d f now).1 ≡ login_ok d.gate f.ip
        → Went d f now

  pub went : (d : Door) (f : Flight) (now : ℕ) → Went d f now
  unfolding check_password
  went d f now = elim (Option-cases d.gate.password_hash) [
    | inl o ↦ unset (simp (check_password, o)) (simp (check_password, o))
    | inr (stored, o) ↦ elim (Bool-cases (parses stored)) [
      | inr p ↦ unset (simp (check_password, o, p)) (simp (check_password, o, p))
      | inl p ↦ elim (Bool-cases (verifies stored f.password)) [
        | inr v ↦ wrong (simp (check_password, o, p, v)) (simp (check_password, o, p, v))
        | inl v ↦ right (simp (check_password, o, p, v)) stored o v (simp (check_password, o, p, v))
      ]
    ]
  ]

  pub checked-password_hash :
      (d : Door) (f : Flight) (now : ℕ) → (checked d f now).1.password_hash ≡ d.gate.password_hash
  unfolding login_fail login_ok
  checked-password_hash d f now = elim (went d f now) [
    | unset n e ↦ ap Gate.password_hash e
    | wrong n e ↦ ap Gate.password_hash e
    | right n stored o v e ↦ ap Gate.password_hash e
  ]

  -- A password that the address sends is wrong.
  abbrev pub IsWrong : Text → Text → Text → Text → Type 0
  IsWrong ip stored from password = (from =t ip) ≡ true → verifies stored password ≡ false

  abbrev pub WrongEvent : Text → Text → Event → Type 0
  WrongEvent ip stored (arrives from now password) = IsWrong ip stored from password
  WrongEvent ip stored (finishes k now) = Unit

  abbrev pub InWindow : ℕ → Event → Type 0
  InWindow start (arrives ip now password) = (start ≤ now) × (now < start + login_lockout)
  InWindow start (finishes k now) = (start ≤ now) × (now < start + login_lockout)
