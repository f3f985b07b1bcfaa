-- ===== src/Web/Serve/Submitted.antt =====
-- The answers to the three submissions, by their outcome.
use pademelon.Base.{◌≡◌, ◌≢◌, refl, some, Table, lookup, arith}
use pademelon.Actions.Job.{Job, Kind, Error}
use pademelon.Actions.Registry.{Answer}
use pademelon.Actions.Registry.Entered.{IsEntered}
use pademelon.Web.Answers.{
  Body, Response, submit_refused, submit_response, restore_refused, restore_response,
  delete_refused, delete_response,
}
use pademelon.Web.Routes.{Server, with_jobs}

-- The answer carries a job, and the table of jobs that is left holds it under its id.
pub record IsAccepted (r : Response × Server) : Type 0 where
  pub job : Job
  pub jobs : Table Job
  pub told : r.0.body ≡ Body.job job
  pub left : r.1.actions ≡ some jobs
  pub held : lookup job.id jobs ≡ some job

submit_not_accepted : (e : Error) (k : Kind) → (submit_refused e k).status ≢ 202
unfolding submit_refused
submit_not_accepted e Kind.unknown_domain h = omega arith
submit_not_accepted e Kind.invalid_state h = omega arith
submit_not_accepted e Kind.in_flight h = omega arith
submit_not_accepted e Kind.unknown_action h = omega arith
submit_not_accepted e Kind.guest_not_stopped h = omega arith
submit_not_accepted e Kind.middleware_off h = omega arith
submit_not_accepted e Kind.guard_unavailable h = omega arith
submit_not_accepted e Kind.unknown_snapshot h = omega arith
submit_not_accepted e Kind.bad_restore h = omega arith
submit_not_accepted e Kind.plain h = omega arith
submit_not_accepted e Kind.out_of_fuel h = omega arith

restore_not_accepted : (e : Error) (k : Kind) → (restore_refused e k).status ≢ 202
unfolding restore_refused
restore_not_accepted e Kind.unknown_domain h = omega arith
restore_not_accepted e Kind.invalid_state h = omega arith
restore_not_accepted e Kind.in_flight h = omega arith
restore_not_accepted e Kind.unknown_action h = omega arith
restore_not_accepted e Kind.guest_not_stopped h = omega arith
restore_not_accepted e Kind.middleware_off h = omega arith
restore_not_accepted e Kind.guard_unavailable h = omega arith
restore_not_accepted e Kind.unknown_snapshot h = omega arith
restore_not_accepted e Kind.bad_restore h = omega arith
restore_not_accepted e Kind.plain h = omega arith
restore_not_accepted e Kind.out_of_fuel h = omega arith

delete_not_accepted : (e : Error) (k : Kind) → (delete_refused e k).status ≢ 202
unfolding delete_refused
delete_not_accepted e Kind.unknown_domain h = omega arith
delete_not_accepted e Kind.invalid_state h = omega arith
delete_not_accepted e Kind.in_flight h = omega arith
delete_not_accepted e Kind.unknown_action h = omega arith
delete_not_accepted e Kind.guest_not_stopped h = omega arith
delete_not_accepted e Kind.middleware_off h = omega arith
delete_not_accepted e Kind.guard_unavailable h = omega arith
delete_not_accepted e Kind.unknown_snapshot h = omega arith
delete_not_accepted e Kind.bad_restore h = omega arith
delete_not_accepted e Kind.plain h = omega arith
delete_not_accepted e Kind.out_of_fuel h = omega arith

module _ (s : Server) where
  pub submit-IsAccepted :
      (p : Answer × Table Job)
      → IsEntered p
      → (with_jobs s submit_response p).0.status ≡ 202
      → IsAccepted (with_jobs s submit_response p)
  unfolding with_jobs submit_response
  submit-IsAccepted (Answer.queued j, jobs) entered h = record {
    job = j;
    jobs = jobs;
    told = refl;
    left = refl;
    held = entered;
  }
  submit-IsAccepted (Answer.busy j, jobs) entered h = absurd (omega arith)
  submit-IsAccepted (Answer.refused e, jobs) entered h = absurd (submit_not_accepted e e.kind h)

  pub restore-IsAccepted :
      (p : Answer × Table Job)
      → IsEntered p
      → (with_jobs s restore_response p).0.status ≡ 202
      → IsAccepted (with_jobs s restore_response p)
  unfolding with_jobs restore_response
  restore-IsAccepted (Answer.queued j, jobs) entered h = record {
    job = j;
    jobs = jobs;
    told = refl;
    left = refl;
    held = entered;
  }
  restore-IsAccepted (Answer.busy j, jobs) entered h = absurd (omega arith)
  restore-IsAccepted (Answer.refused e, jobs) entered h = absurd (restore_not_accepted e e.kind h)

  pub delete-IsAccepted :
      (p : Answer × Table Job)
      → IsEntered p
      → (with_jobs s delete_response p).0.status ≡ 202
      → IsAccepted (with_jobs s delete_response p)
  unfolding with_jobs delete_response
  delete-IsAccepted (Answer.queued j, jobs) entered h = record {
    job = j;
    jobs = jobs;
    told = refl;
    left = refl;
    held = entered;
  }
  delete-IsAccepted (Answer.busy j, jobs) entered h = absurd (omega arith)
  delete-IsAccepted (Answer.refused e, jobs) entered h = absurd (delete_not_accepted e e.kind h)
