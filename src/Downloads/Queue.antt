-- ===== src/Downloads/Queue.antt =====
-- Whether a queued job is always taken up: the interleavings of the callers and the worker.
use mathlib.Core.Path.{subst}
use blt.Base.{
  ℕ, zero, suc, ◌<◌, ◌≡◌, ◌⊎◌, refl, sym, ap, ◌∙◌, Bool, true, false, not, ◌||◌, Option, none, some,
  List, [], ◌∷◌, arith, if◌then◌else◌, inl, inr, Bool-cases, any, filter, ◌==◌,
}
use blt.Downloads.{
  Job, Active, DownloadManager, Worker, stopped, polling, leaving, starting, working, Desk, Move,
  enqueues, pumps_now, polls, finishes, leaves, activates, pauses, cancels, enqueue, pump,
  pop_front, pause, cancel, step, job_is, is_active,
}

abbrev pub is_stopped : Worker → Bool
is_stopped stopped = true
is_stopped polling = false
is_stopped leaving = false
is_stopped (starting j) = false
is_stopped (working j) = false

abbrev pub no_jobs : List Job → Bool
no_jobs [] = true
no_jobs (j ∷ jobs) = false

-- There is a worker exactly while `running` is set, and a queued job has a worker or a caller that is
-- about to pump.
pub record Attended (d : Desk) : Type 0 where
  pub alive : is_stopped d.worker ≡ not d.manager.running
  pub served : (no_jobs d.manager.queue ≡ true) ⊎ (d.manager.running ≡ true) ⊎ (0 < d.pumps)

-- The worker leaves although a job is queued.
abbrev pub Strands : Desk → Move → Type 0
Strands d leaves = no_jobs d.manager.queue ≡ false
Strands d mv = ⊥

filter_empty :
    (p : Job → Bool) (jobs : List Job) → no_jobs jobs ≡ true → no_jobs (filter p jobs) ≡ true
filter_empty p [] h = refl
filter_empty p (j ∷ jobs) h = absurd (cc)

abbrev pub Holds : (Desk → Type 0) → Option Desk → Type 0
Holds P none = Unit
Holds P (some d) = P d

step-enqueues-Attended :
    (d : Desk) (job : Job) → Attended d → Holds Attended (step d (enqueues job))
unfolding step enqueue
step-enqueues-Attended d job i =
    elim (Bool-cases (
      any (job_is job.title_id job.manifest_ver) d.manager.queue
      || is_active d.manager.active job.title_id job.manifest_ver)) [
        | inl e ↦ simp (step, enqueue, e) (record { alive = i.alive; served = i.served })
        | inr e ↦
            simp (step, enqueue, e) (record { alive = i.alive; served = inr (inr (omega arith)) })
      ]

-- The worker that is not stopped has `running` set.
running_of : (d : Desk) → Attended d → is_stopped d.worker ≡ false → d.manager.running ≡ true
running_of d i h = let e : false ≡ not d.manager.running = sym h ∙ i.alive in ground arith

step-pumps_now-Attended :
    (dm : DownloadManager) (wk : Worker) (n : ℕ)
    → Attended (record { manager = dm; worker = wk; pumps = n })
    → Holds Attended (step (record { manager = dm; worker = wk; pumps = n }) pumps_now)
unfolding step pump
step-pumps_now-Attended dm wk zero i = tt
step-pumps_now-Attended dm wk (suc n) i = elim (Bool-cases dm.running) [
  | inl e ↦
      let alive : is_stopped wk ≡ false = i.alive ∙ ap not e in
      subst
        (λ b. Attended (record {
          manager = record dm { running = true };
          worker = if not b then polling else wk;
          pumps = n;
        }))
        (sym e) (record { alive = alive; served = inr (inl refl) })
  | inr e ↦
      subst
        (λ b. Attended (record {
          manager = record dm { running = true };
          worker = if not b then polling else wk;
          pumps = n;
        }))
        (sym e) (record { alive = refl; served = inr (inl refl) })
]

step-polls-Attended :
    (queue : List Job) (act : Option Active) (running : Bool) (n : ℕ)
    → running ≡ true
    → Holds Attended (
        step
          (record {
            manager = record { queue = queue; active = act; running = running };
            worker = polling;
            pumps = n;
          })
          polls)
unfolding step pop_front
step-polls-Attended [] act running n r = record { alive = sym (ap not r); served = inl refl }
step-polls-Attended (j ∷ jobs) act running n r = record {
  alive = sym (ap not r);
  served = inr (inl r);
}

-- Another state of the worker and of `active`, neither before nor after it stopped.
other-Attended :
    (d : Desk) (wk : Worker) (act : Option Active)
    → Attended d
    → is_stopped d.worker ≡ false
    → is_stopped wk ≡ false
    → Attended (record d { manager = record (d.manager) { active = act }; worker = wk })
other-Attended d wk act i h k =
    let r = running_of d i h in record { alive = k ∙ sym (ap not r); served = inr (inl r) }

step_keeps :
    (dm : DownloadManager) (wk : Worker) (n : ℕ) (mv : Move)
    → Attended (record { manager = dm; worker = wk; pumps = n })
    → (Strands (record { manager = dm; worker = wk; pumps = n }) mv → ⊥)
    → Holds Attended (step (record { manager = dm; worker = wk; pumps = n }) mv)
unfolding step pause cancel
step_keeps dm wk n (enqueues job) i s =
    step-enqueues-Attended (record { manager = dm; worker = wk; pumps = n }) job i
step_keeps dm wk n pumps_now i s = step-pumps_now-Attended dm wk n i
step_keeps dm polling n polls i s =
    step-polls-Attended dm.queue dm.active dm.running n
      (running_of (record { manager = dm; worker = polling; pumps = n }) i refl)
step_keeps dm stopped n polls i s = tt
step_keeps dm leaving n polls i s = tt
step_keeps dm (starting j) n polls i s = tt
step_keeps dm (working j) n polls i s = tt
step_keeps dm (starting j) n (activates a) i s =
    elim (Bool-cases (job_is a.title_id a.manifest_ver j)) [
      | inl e ↦
          simp (step, e)
            (other-Attended (record { manager = dm; worker = starting j; pumps = n }) (working j)
              (some a) i refl refl)
      | inr e ↦ simp (step, e) tt
    ]
step_keeps dm stopped n (activates a) i s = tt
step_keeps dm polling n (activates a) i s = tt
step_keeps dm leaving n (activates a) i s = tt
step_keeps dm (working j) n (activates a) i s = tt
step_keeps dm (starting j) n finishes i s =
    other-Attended (record { manager = dm; worker = starting j; pumps = n }) polling none i refl
      refl
step_keeps dm (working j) n finishes i s =
    other-Attended (record { manager = dm; worker = working j; pumps = n }) polling none i refl refl
step_keeps dm stopped n finishes i s = tt
step_keeps dm polling n finishes i s = tt
step_keeps dm leaving n finishes i s = tt
step_keeps dm leaving n leaves i s = elim (Bool-cases (no_jobs dm.queue)) [
  | inl e ↦ record { alive = refl; served = inl e }
  | inr e ↦ absurd (s e)
]
step_keeps dm stopped n leaves i s = tt
step_keeps dm polling n leaves i s = tt
step_keeps dm (starting j) n leaves i s = tt
step_keeps dm (working j) n leaves i s = tt
step_keeps dm wk n (pauses t) i s = record { alive = i.alive; served = i.served }
step_keeps dm wk n (cancels t) i s = record {
  alive = i.alive;
  served = elim i.served [
    | inl e ↦ inl (filter_empty (λ (j : Job). not (j.title_id == t)) dm.queue e)
    | inr rest ↦ inr rest
  ];
}

-- Every step of the callers and of the worker keeps the queue attended: a worker lives exactly while
-- `running` is set, and a queued job has a worker or a caller about to pump. The one exception is that
-- the worker leaves while a job is queued.
pub step-Attended :
    (d : Desk) (mv : Move) → Attended d → (Strands d mv → ⊥) → Holds Attended (step d mv)
step-Attended d mv i s = step_keeps d.manager d.worker d.pumps mv i s

abbrev pub steps : Desk → List Move → Option Desk
steps d [] = some d
steps d (mv ∷ moves) = elim (step d mv) [ none ↦ none | some d' ↦ steps d' moves ]

-- The exception occurs: if the worker has found the queue empty, then a job that is queued and pumped
-- before the worker clears `running` stays in the queue, with nobody to run it.
pub step_strands :
    (job : Job) (pumps : ℕ) (act : Option Active)
    → is_active act job.title_id job.manifest_ver ≡ false
    → steps
        (record {
          manager = record { queue = []; active = act; running = true };
          worker = leaving;
          pumps = pumps;
        })
        (enqueues job ∷ pumps_now ∷ leaves ∷ [])
      ≡ some (record {
        manager = record { queue = job ∷ []; active = act; running = false };
        worker = stopped;
        pumps = pumps;
      })
unfolding step enqueue pump
step_strands job pumps act h =
    let queued : step
          (record {
            manager = record { queue = []; active = act; running = true };
            worker = leaving;
            pumps = pumps;
          })
          (enqueues job)
        ≡ some (record {
          manager = record { queue = job ∷ []; active = act; running = true };
          worker = leaving;
          pumps = suc pumps;
        }) =
      rw (step, enqueue, h) refl in
    ap (λ o. elim o [ none ↦ none | some d ↦ steps d (pumps_now ∷ leaves ∷ []) ]) queued
