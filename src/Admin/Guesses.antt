-- ===== src/Admin/Guesses.antt =====
-- What one step does to the throttle and the requests in flight of an address that sends wrong passwords.
use mathlib.Core.Path.{subst}
use blt.Base.{
  ℕ, ◌+◌, ◌<◌, ◌≤◌, ◌≡◌, refl, sym, ap, ◌∙◌, Bool, true, false, ◌&&◌, none, some, List, arith, inl,
  inr, Bool-cases, Option-cases, All, lt→ltb,
}
use blt.Base.Text.{Text, ◌=t◌, =t_iff}
use blt.Admin.{login_locked, is_later, count_fail}
use blt.Admin.Throttle.{
  Flight, Door, Event, arrives, finishes, take_out, throttle, is_guess, arrive, one_if, count_ip,
  in_flight, checked, finish, step, guess, unset, wrong, right, went, checked-password_hash,
  IsWrong, WrongEvent, arrive_lem, throttle-login_fail, throttle-login_ok, locked_at-throttle,
  count_ip-take_out, All-take_out,
}

module _ (parses : Text → Bool) (verifies : Text → Text → Bool) (ip stored : Text) where
  abbrev pub IsWrongFlight : Flight → Type 0
  IsWrongFlight f = IsWrong parses verifies ip stored f.ip f.password

  -- The password is set, and the address has only wrong ones in flight.
  pub record Sound (d : Door) : Type 0 where
    pub hash : d.gate.password_hash ≡ some stored
    pub wrongs : All IsWrongFlight d.flights

  -- What the end of a check does to the address: nothing, or it counts a wrong password.
  pub data Ended (d : Door) (k now : ℕ) : Type 0 where
    away :
        throttle (finish parses verifies d k now).gate ip ≡ throttle d.gate ip
        → in_flight ip (finish parses verifies d k now) ≤ in_flight ip d
        → guess parses verifies ip d (finishes k now) ≡ 0
        → Ended d k now
    counted :
        throttle (finish parses verifies d k now).gate ip ≡ count_fail now (throttle d.gate ip)
        → in_flight ip d ≡ 1 + in_flight ip (finish parses verifies d k now)
        → guess parses verifies ip d (finishes k now) ≡ 1
        → Ended d k now

  pub arrive-Sound :
      (d : Door) (from : Text) (now : ℕ) (password : Text)
      → IsWrong parses verifies ip stored from password
      → Sound d
      → Sound (arrive d from now password)
  arrive-Sound d from now password w i = elim (arrive_lem d from now password) [
    | inl (l, e) ↦ subst Sound (sym e) i
    | inr (l, e) ↦ subst Sound (sym e) (record { hash = i.hash; wrongs = (w, i.wrongs) })
  ]

  finish-none :
      (d : Door) (k now : ℕ)
      → take_out k d.flights ≡ none
      → (finish parses verifies d k now ≡ d) × (guess parses verifies ip d (finishes k now) ≡ 0)
  finish-none d k now o = (rw (o, finish) refl, rw (o, guess) refl)

  finish-some :
      (d : Door) (k now : ℕ) (f : Flight) (rest : List Flight)
      → take_out k d.flights ≡ some (f, rest)
      → (finish parses verifies d k now
          ≡ record { gate = (checked parses verifies d f now).1; flights = rest })
        × (guess parses verifies ip d (finishes k now)
            ≡ one_if ((f.ip =t ip) && is_guess (checked parses verifies d f now).0))
  finish-some d k now f rest o = (rw (o, finish) refl, rw (o, guess) refl)

  pub finish-Sound : (d : Door) (k now : ℕ) → Sound d → Sound (finish parses verifies d k now)
  finish-Sound d k now i = elim (Option-cases (take_out k d.flights)) [
    | inl o ↦ subst Sound (sym (finish-none d k now o).0) i
    | inr ((f, rest), o) ↦ subst Sound (sym (finish-some d k now f rest o).0) (record {
      hash = checked-password_hash parses verifies d f now ∙ i.hash;
      wrongs = (All-take_out IsWrongFlight k d.flights f rest o i.wrongs).1;
    })
  ]

  fewer : (b : Bool) (m n : ℕ) → m ≡ one_if b + n → n ≤ m
  fewer b m n h = omega (arith, h)

  and_false : (a b : Bool) → b ≡ false → one_if (a && b) ≡ 0
  and_false true b h = rw h refl
  and_false false b h = refl

  -- The check of another address leaves the throttle of this one.
  checked_other :
      (d : Door) (f : Flight) (now : ℕ)
      → (f.ip =t ip) ≡ false
      → throttle (checked parses verifies d f now).1 ip ≡ throttle d.gate ip
  checked_other d f now h = elim (went parses verifies d f now) [
    | unset n e ↦ ap (λ g. throttle g ip) e
    | wrong n e ↦ ap (λ g. throttle g ip) e ∙ throttle-login_fail d.gate f.ip ip now ∙ rw h refl
    | right n stored' p v e ↦
        ap (λ g. throttle g ip) e ∙ throttle-login_ok d.gate f.ip ip ∙ rw h refl
  ]

  -- No password of the address is the right one.
  never_right :
      (d : Door) (f : Flight) (stored' : Text)
      → d.gate.password_hash ≡ some stored
      → IsWrong parses verifies ip stored f.ip f.password
      → (f.ip =t ip) ≡ true
      → d.gate.password_hash ≡ some stored'
      → verifies stored' f.password ≡ true
      → ⊥
  never_right d f stored' hash w h p v =
      let same : some stored ≡ some stored' = sym hash ∙ p in
      let eq : stored ≡ stored' = ap (λ x. elim x [ none ↦ stored | some y ↦ y ]) same in
      let yes : verifies stored f.password ≡ true = ap (λ x. verifies x f.password) eq ∙ v in
      let bad : verifies stored f.password ≡ false = w h in cc

  -- The check of the flight that is taken out.
  ended_some :
      (d : Door) (k now : ℕ) (f : Flight) (rest : List Flight)
      → take_out k d.flights ≡ some (f, rest)
      → Sound d
      → Ended d k now
  ended_some d k now f rest o i =
      let (fin, gs) = finish-some d k now f rest o in
      let left : in_flight ip (finish parses verifies d k now) ≡ count_ip ip rest =
        ap (in_flight ip) fin in
      let cnt : in_flight ip d ≡ one_if (f.ip =t ip) + count_ip ip rest =
        count_ip-take_out ip k d.flights f rest o in
      let fewer_left : in_flight ip (finish parses verifies d k now) ≤ in_flight ip d =
        subst (λ n. n ≤ in_flight ip d) (sym left)
          (fewer (f.ip =t ip) (in_flight ip d) (count_ip ip rest) cnt) in
      let gate : throttle (finish parses verifies d k now).gate ip
          ≡ throttle (checked parses verifies d f now).1 ip =
        ap (λ (x : Door). throttle x.gate ip) fin in
      elim (Bool-cases (f.ip =t ip)) [
        | inr h ↦ away (gate ∙ checked_other d f now h) fewer_left (gs ∙ rw h refl)
        | inl h ↦ elim (went parses verifies d f now) [
          | unset n e ↦
              away (gate ∙ ap (λ g. throttle g ip) e) fewer_left
                (gs ∙ and_false (f.ip =t ip) (is_guess (checked parses verifies d f now).0) n)
          | wrong n e ↦
              counted
                (gate
                  ∙ ap (λ g. throttle g ip) e
                  ∙ throttle-login_fail d.gate f.ip ip now
                  ∙ rw h (ap (λ x. count_fail now (throttle d.gate x)) ((=t_iff f.ip ip).0 h)))
                (cnt ∙ rw h (ap (λ n. 1 + n) (sym left))) (gs ∙ rw (h, n) refl)
          | right n stored' p v e ↦
              let w = (All-take_out IsWrongFlight k d.flights f rest o i.wrongs).0 in
              elim (never_right d f stored' i.hash w h p v) [ ]
        ]
      ]

  pub ended : (d : Door) (k now : ℕ) → Sound d → Ended d k now
  ended d k now i = elim (Option-cases (take_out k d.flights)) [
    | inl o ↦
        let (fin, gs) = finish-none d k now o in
        away (ap (λ (x : Door). throttle x.gate ip) fin)
          (subst (λ x. in_flight ip x ≤ in_flight ip d) (sym fin) (omega arith)) gs
    | inr ((f, rest), o) ↦ ended_some d k now f rest o i
  ]

  -- What arrives leaves the throttle, and does not leave fewer in flight.
  pub arrive_keeps :
      (d : Door) (from : Text) (now : ℕ) (password : Text)
      → throttle (arrive d from now password).gate ip ≡ throttle d.gate ip
  arrive_keeps d from now password = elim (arrive_lem d from now password) [
    | inl (l, e) ↦ ap (λ (x : Door). throttle x.gate ip) e
    | inr (l, e) ↦ ap (λ (x : Door). throttle x.gate ip) e
  ]

  -- While the address is locked out none of its requests joins those in flight.
  pub arrive_locked :
      (d : Door) (from : Text) (now until : ℕ) (password : Text)
      → (throttle d.gate ip).locked_until ≡ some until
      → now < until
      → in_flight ip (arrive d from now password) ≡ in_flight ip d
  arrive_locked d from now until password l h = elim (arrive_lem d from now password) [
    | inl (shut, e) ↦ ap (in_flight ip) e
    | inr (not_shut, e) ↦ elim (Bool-cases (from =t ip)) [
      | inr other ↦ ap (in_flight ip) e ∙ rw other (omega arith)
      | inl same ↦ absurd (
          let at_ip : (throttle d.gate from).locked_until ≡ some until =
            ap (λ x. (throttle d.gate x).locked_until) ((=t_iff from ip).0 same) ∙ l in
          let shut : login_locked d.gate from now ≡ true =
            locked_at-throttle d.gate from now ∙ ap (is_later now) at_ip ∙ lt→ltb now until h in
          let bad : true ≡ false = sym shut ∙ not_shut in cc)
    ]
  ]

  pub step-Sound :
      (d : Door) (e : Event)
      → WrongEvent parses verifies ip stored e
      → Sound d
      → Sound (step parses verifies d e)
  step-Sound d (arrives from now password) w i = arrive-Sound d from now password w i
  step-Sound d (finishes k now) w i = finish-Sound d k now i
