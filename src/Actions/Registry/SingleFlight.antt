-- ===== src/Actions/Registry/SingleFlight.antt =====
-- The single-flight rule of `register`, and the writes of a runner to its job.
use pademelon.Base.{
  ℕ, ◌+◌, ◌≤◌, String, ◌≡◌, refl, Bool, true, none, [], ◌∷◌, Table, Result, ok, err, insert, retain,
  arith, eq_iff, if◌then◌else◌, Option-cases, Bool-cases, inl, inr, subst, sym, ◌∙◌,
}
use pademelon.Actions.Verb.{Action, to_string}
use pademelon.Actions.Job.{Job, JobState, Error, StepName, StepState, set_step_in}
use pademelon.Actions.Runner.{begin_run, complete_run, expire_run}
use pademelon.Actions.Registry.{sweep_jobs, in_flight, find_in_flight, with_steps, enter, register}

-- How many jobs of this machine and verb have not ended.
unfoldable pub active_count : String → Action → Table Job → ℕ
active_count domain action [] = 0
active_count domain action ((id, j) ∷ rest) =
    (if in_flight domain action j then 1 else 0) + active_count domain action rest

unfoldable pub IsSingleFlight : Table Job → Type 0
IsSingleFlight jobs = (domain : String) (action : Action) → active_count domain action jobs ≤ 1

module _ (domain : String) (action : Action) where
  count-retain :
      (p : String → Job → Bool) (jobs : Table Job)
      → active_count domain action (retain p jobs) ≤ active_count domain action jobs
  unfolding active_count retain
  count-retain p [] = omega arith
  count-retain p ((id, j) ∷ rest) = ground (arith, count-retain p rest)

  count-insert :
      (k : String) (v : Job) (jobs : Table Job)
      → active_count domain action (insert k v jobs)
        ≤ (if in_flight domain action v then 1 else 0) + active_count domain action jobs
  unfolding active_count insert
  count-insert k v [] = omega arith
  count-insert k v ((id, j) ∷ rest) = ground (arith, count-insert k v rest)

  count-none :
      (jobs : Table Job)
      → find_in_flight domain action jobs ≡ none
      → active_count domain action jobs ≡ 0
  unfolding active_count find_in_flight
  count-none [] h = refl
  count-none ((id, j) ∷ rest) h = ground (arith, count-none rest)

-- A count sees the text of a verb only.
count-same :
    (domain : String) (a b : Action) (jobs : Table Job)
    → to_string a ≡ to_string b
    → active_count domain a jobs ≡ active_count domain b jobs
unfolding active_count
count-same domain a b [] h = refl
count-same domain a b ((id, j) ∷ rest) h = rw (h, count-same domain a b rest h)

pub sweep_jobs-IsSingleFlight :
    (now : ℕ) (jobs : Table Job) → IsSingleFlight jobs → IsSingleFlight (sweep_jobs now jobs)
unfolding IsSingleFlight sweep_jobs
sweep_jobs-IsSingleFlight now jobs h domain action =
    omega (arith, h domain action, count-retain domain action _ jobs)

in_flight-same :
    (domain : String) (action : Action) (j : Job)
    → in_flight domain action j ≡ true
    → (j.domain ≡ domain) × (to_string j.action ≡ to_string action)
in_flight-same domain action j h =
    ground (arith, eq_iff j.domain domain, eq_iff (to_string j.action) (to_string action))

-- What is free for a job is free for its machine and verb, however they are spelt.
free_count :
    (domain : String) (action : Action) (j : Job) (jobs : Table Job)
    → in_flight domain action j ≡ true
    → find_in_flight j.domain j.action jobs ≡ none
    → active_count domain action jobs ≡ 0
free_count domain action j jobs h free =
    let (same_domain, same_text) = in_flight-same domain action j h in
    subst (λ d. active_count d action jobs ≡ 0) same_domain
      (sym (count-same j.domain j.action action jobs same_text)
        ∙ count-none j.domain j.action jobs free)

-- Entering a job of a machine and verb of which none is active.
insert-IsSingleFlight :
    (k : String) (j : Job) (jobs : Table Job)
    → IsSingleFlight jobs
    → find_in_flight j.domain j.action jobs ≡ none
    → IsSingleFlight (insert k j jobs)
unfolding IsSingleFlight
insert-IsSingleFlight k j jobs h free domain action =
    elim (Bool-cases (in_flight domain action j)) [
      | inl same ↦ ground (
        arith,
        same,
        free_count domain action j jobs same free,
        count-insert domain action k j jobs,
      )
      | inr other ↦ ground (arith, other, h domain action, count-insert domain action k j jobs)
    ]

pub register-IsSingleFlight :
    (now : ℕ) (job : Job) (jobs : Table Job)
    → IsSingleFlight jobs
    → IsSingleFlight (register now job.domain job.action job jobs).1
unfolding register enter with_steps
register-IsSingleFlight now job jobs h =
    let swept = sweep_jobs-IsSingleFlight now jobs h in
    elim (Option-cases (find_in_flight job.domain job.action (sweep_jobs now jobs))) [
      | inl none_found ↦
          rw none_found
            (insert-IsSingleFlight job.id (with_steps job) (sweep_jobs now jobs) swept none_found)
      | inr (j, found) ↦ rw found swept
    ]

-- The writes of a runner to the job it was started for.
pub data Write : Job → Job → Type 0 where
  began : (j : Job) → j.state ≡ JobState.pending → Write j (begin_run j)
  completed :
      (j : Job) (result : Result Error String)
      → j.state ≡ JobState.running
      → Write j (complete_run j result)
  expired :
      (j : Job) (bound_text : String)
      → j.state ≡ JobState.running
      → Write j (expire_run bound_text j)
  stepped :
      (j : Job) (n : StepName) (s : StepState) (detail : String)
      → Write j (record j { steps = set_step_in n s detail j.steps })

-- A write lands in the entry of the job.
pub data Amended : Table Job → Table Job → Type 0 where
  here :
      (id : String) {j j' : Job} (rest : Table Job)
      → Write j j'
      → Amended ((id, j) ∷ rest) ((id, j') ∷ rest)
  there :
      (e : String × Job) {rest rest' : Table Job}
      → Amended rest rest'
      → Amended (e ∷ rest) (e ∷ rest')

module _ (domain : String) (action : Action) where
  Write-active :
      {j j' : Job}
      → Write j j'
      → (if in_flight domain action j' then 1 else 0) ≤ (if in_flight domain action j then 1 else 0)
  unfolding begin_run complete_run expire_run
  Write-active (Write.began j p) = ground (arith, p)
  Write-active (Write.completed j (ok r) p) = ground (arith, p)
  Write-active (Write.completed j (err e) p) = ground (arith, p)
  Write-active (Write.expired j t p) = ground (arith, p)
  Write-active (Write.stepped j n s detail) = omega arith

  count-Amended :
      {jobs jobs' : Table Job}
      → Amended jobs jobs'
      → active_count domain action jobs' ≤ active_count domain action jobs
  unfolding active_count
  count-Amended (Amended.here id rest w) = omega (arith, Write-active w)
  count-Amended (Amended.there e a) = omega (arith, count-Amended a)

pub Amended-IsSingleFlight :
    {jobs jobs' : Table Job} → Amended jobs jobs' → IsSingleFlight jobs → IsSingleFlight jobs'
unfolding IsSingleFlight
Amended-IsSingleFlight a h domain action =
    omega (arith, h domain action, count-Amended domain action a)
