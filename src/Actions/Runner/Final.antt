-- ===== src/Actions/Runner/Final.antt =====
-- The end of `run` for a reboot, against the steps of the job.
use pademelon.Base.{
  ◌≡◌, refl, [], ◌∷◌, true≢false, subst, sym, String, true, false, Result, ok, err,
}
use pademelon.Actions.Verb.{Action}
use pademelon.Actions.Job.{Job, JobState, StepState, Error, Kind, steps_for, plain_error}
use pademelon.Actions.Effects.{Domain, Env, World, attempt, fail, with_connection}
use pademelon.Actions.Effects.Steps.{Shape, shape, all_settled}
use pademelon.Actions.Effects.Triples.{
  Triple, Keeps, triple_pure, triple_perform, triple_bind, triple_attempt, keeps_attempt,
  keeps_bind,
}
use pademelon.Actions.Guest.{find_domain, reboot}
use pademelon.Actions.Guest.Off.{IfOk, nudge_lem}
use pademelon.Actions.Guest.Reboot.{AgreesDone, all_done, reboot-Agrees}
use pademelon.Actions.Runner.{
  execute, on_domain, dispatch, begin_run, complete_run, failure_state, run,
}

abbrev Settled : World → Type 0
Settled w = all_settled (shape w.steps) ≡ true

abbrev Fresh : World → Type 0
Fresh w = w.steps ≡ steps_for Action.reboot "" false

all_done_settled : (s : Shape) → all_done s ≡ true → all_settled s ≡ true
unfolding all_done all_settled
all_done_settled [] h = refl
all_done_settled ((name, StepState.done) ∷ rest) h = all_done_settled rest h
all_done_settled ((name, _) ∷ rest) h = absurd (true≢false (sym h))

AgreesDone-IfOk : (r : Result Error (Unit {0})) (w : World) → AgreesDone r w → IfOk r (Settled w)
AgreesDone-IfOk (ok _) w p = all_done_settled (shape w.steps) p
AgreesDone-IfOk (err e) w p = tt

complete_run-ok :
    (P : Type 0) (job : Job) (r : Result Error String)
    → (complete_run job r).state ≡ JobState.ok
    → IfOk r P
    → P
unfolding complete_run
complete_run-ok P job (ok _) h p = p
complete_run-ok P job (err e) h p = absurd (failed_is_not_ok e.kind h)
  where
    failed_is_not_ok : (k : Kind) → ¬ (failure_state k ≡ JobState.ok)
    failed_is_not_ok Kind.guest_not_stopped h = cc
    failed_is_not_ok _ h = cc

module _ (env : Env) (job : Job) where
  find_domain-Fresh : Keeps Fresh (find_domain env job.domain)
  unfolding find_domain
  find_domain-Fresh =
      keeps_attempt {P = Fresh} (triple_perform _ _ (λ w r e p. p)) (λ e. triple_pure _ (λ w p. p))
        (λ ds. triple_pure _ (λ w p. p))

  reboot-IfOk : (d : Domain) → Triple Fresh (reboot env d job.domain) (λ r w. IfOk r (Settled w))
  reboot-IfOk d = record { at = λ w p. AgreesDone-IfOk _ _ (reboot-Agrees env d job.domain w p) }

  execute-IfOk : Triple Fresh (execute env job Action.reboot) (λ r w. IfOk r (Settled w))
  unfolding execute on_domain dispatch
  execute-IfOk =
      keeps_attempt find_domain-Fresh (λ e. triple_pure _ (λ w p. tt))
        (λ d.
          triple_attempt (reboot-IfOk d) (λ e. triple_pure _ (λ w p. tt))
            (λ _. triple_pure _ (λ w p. p)))

  worked-IfOk :
      (action : Action)
      → action ≡ Action.reboot
      → Triple Fresh
          (attempt (with_connection env) (λ e. fail (plain_error e)) (λ _. execute env job action))
          (λ r w. IfOk {E = Error} {A = String} r (Settled w))
  worked-IfOk action e =
      keeps_attempt {P = Fresh} (triple_perform _ _ (λ w r e p. p)) (λ e. triple_pure _ (λ w p. tt))
        (λ _.
          subst (λ a. Triple Fresh (execute env job a) (λ r w. IfOk r (Settled w))) (sym e)
            execute-IfOk)

module _ (env : Env) (job : Job) where
  run-Triple :
      job.action ≡ Action.reboot
      → Triple Fresh
          (run env job)
          (λ j w. j.state ≡ JobState.ok → all_settled (shape j.steps) ≡ true)
  unfolding run
  run-Triple e =
      triple_bind {Q = λ r w. IfOk r (Settled w)} (worked-IfOk env (begin_run job) job.action e)
        λ r.
          keeps_bind {P = λ w. IfOk r (Settled w)} (nudge_lem env (λ w p. p))
            λ _. record { at = λ w p h. complete_run-ok (Settled w) (begin_run job) r h p }

-- Where the run of a reboot that starts with the steps of its verb reports success, every one of
-- the job's steps is settled, whatever the outside answered.
pub run-Settled :
    (env : Env) (job : Job) (w : World)
    → w.steps ≡ steps_for Action.reboot "" false
    → job.action ≡ Action.reboot
    → (run env job w).0.state ≡ JobState.ok
    → all_settled (shape (run env job w).0.steps) ≡ true
run-Settled env job w h action success = (run-Triple env job action).at w h success
