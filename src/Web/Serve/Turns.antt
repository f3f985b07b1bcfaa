-- ===== src/Web/Serve/Turns.antt =====
-- internal/actions/actions.go: what a turn of the goroutine of `ShutdownAll` does to the jobs of a server.
use mathlib.Core.List
use mathlib.Core.List.{Memᴰ}
use pademelon.Base.{
  ℕ, zero, suc, ◌≡◌, ◌⊎◌, inl, inr, refl, String, Option, none, some, List, [], ◌∷◌, Table, ap, sym,
  ◌∙◌,
}
use pademelon.Actions.Job.{Job}
use pademelon.Actions.Registry.{Moment, submit}
use pademelon.Actions.Registry.Bulk.{submit_next}
use pademelon.Web.Routes.{Server, bulk_step, bulk_from, bulk_turn}
use pademelon.Web.Serve.Guarded.{SameJobs}

-- A turn of a bulk shutdown has submitted the shutdown of a machine of one of the plans.
pub record IsPlanned (m : Moment) (s s' : Server) : Type 0 where
  pub jobs : Table Job
  pub plan : List String
  pub name : String
  pub on : s.actions ≡ some jobs
  pub planned : Memᴰ plan s.bulk
  pub named : Memᴰ name plan
  pub submitted : s'.actions ≡ some (submit m name "shutdown" jobs).1

-- What a turn of the goroutine at a place does to the plans and the jobs.
turned :
    (k : ℕ) (m : Moment) (l : List (List String)) (jobs : Table Job)
    → ((bulk_turn k m l jobs).1 ≡ jobs) × ((bulk_turn k m l jobs).0 ≡ l)
      ⊎ ((plan : List String) × (name : String) × Memᴰ plan l
          × Memᴰ name plan
          × ((bulk_turn k m l jobs).1 ≡ (submit m name "shutdown" jobs).1))
unfolding bulk_turn submit_next
turned k m [] jobs = inl (refl, refl)
turned zero m ([] ∷ others) jobs = inl (refl, refl)
turned zero m ((name ∷ rest) ∷ others) jobs =
    inr (name ∷ rest, name, List.Memᴰ.head refl, List.Memᴰ.head refl, refl)
turned (suc k) m (names ∷ others) jobs = elim (turned k m others jobs) [
  | inl (same, left) ↦ inl (same, ap (λ l. names ∷ l) left)
  | inr (plan, name, planned, named, submitted) ↦
      inr (plan, name, List.Memᴰ.tail planned, named, submitted)
]

bulk_from-IsPlanned :
    (k : ℕ) (m : Moment) (o : Option (Table Job)) (s : Server)
    → s.actions ≡ o
    → SameJobs s (bulk_from k m o s) ⊎ IsPlanned m s (bulk_from k m o s)
unfolding bulk_from
bulk_from-IsPlanned k m none s h = inl (refl, refl)
bulk_from-IsPlanned k m (some jobs) s h = elim (turned k m s.bulk jobs) [
  | inl (same, left) ↦ inl (ap some same ∙ sym h, left)
  | inr (plan, name, planned, named, submitted) ↦ inr (record {
    jobs = jobs;
    plan = plan;
    name = name;
    on = h;
    planned = planned;
    named = named;
    submitted = ap some submitted;
  })
]

-- A turn of a bulk shutdown changes nothing, or submits the shutdown of a machine that was planned.
pub bulk_step-IsPlanned :
    (k : ℕ) (m : Moment) (s : Server)
    → SameJobs s (bulk_step k m s) ⊎ IsPlanned m s (bulk_step k m s)
unfolding bulk_step
bulk_step-IsPlanned k m s = bulk_from-IsPlanned k m s.actions s refl
