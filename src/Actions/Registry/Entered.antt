-- ===== src/Actions/Registry/Entered.antt =====
-- actions.go: the job that an accepted submission answers with.
use pademelon.Base.{
  ℕ, String, ◌≡◌, refl, Option, none, some, Table, lookup, lookup-insert, eq_refl, not, ◌||◌, ◌==◌,
  if_both,
}
use pademelon.Model.{Vm}
use pademelon.Actions.Verb.{Action, parse_action, allows}
use pademelon.Actions.Job.{Job, Error, mode_staged, mode_direct}
use pademelon.Actions.Snapshot.{lookup_vm}
use pademelon.Actions.Registry.{
  Moment, Answer, RestoreOpts, with_steps, enter, register, submit, submit_restore, submit_delete,
  submit_on, submit_verb, is_off, restore_checked, restore_known, delete_checked, is_unsafe,
  validate_snapshot, find_in_flight, sweep_jobs, new_job, restore_job, delete_job,
}

-- A job that is answered as queued is in the table that is left, under its id.
abbrev pub IsEntered : Answer × Table Job → Type 0
IsEntered (Answer.queued j, jobs) = lookup j.id jobs ≡ some j
IsEntered (Answer.busy j, jobs) = Unit {0}
IsEntered (Answer.refused e, jobs) = Unit {0}

enter-IsEntered : (o : Option Job) (job : Job) (jobs : Table Job) → IsEntered (enter o job jobs)
unfolding enter with_steps
enter-IsEntered (some j) job jobs = tt
enter-IsEntered none job jobs =
    rw (lookup-insert job.id job.id (with_steps job) jobs, eq_refl job.id) refl

register-IsEntered :
    (now : ℕ) (domain : String) (action : Action) (job : Job) (jobs : Table Job)
    → IsEntered (register now domain action job jobs)
unfolding register
register-IsEntered now domain action job jobs =
    enter-IsEntered (find_in_flight domain action (sweep_jobs now jobs)) job (sweep_jobs now jobs)

submit_on-IsEntered :
    (m : Moment) (domain : String) (action : Action) (o : Option Vm) (jobs : Table Job)
    → IsEntered (submit_on m domain action o jobs)
unfolding submit_on
submit_on-IsEntered m domain action none jobs = tt
submit_on-IsEntered m domain action (some vm) jobs =
    if_both IsEntered (allows action vm.state)
      (λ allowed. register-IsEntered m.now domain action (new_job m domain action) jobs)
      λ refused. tt

submit_verb-IsEntered :
    (m : Moment) (domain : String) (o : Option Action) (jobs : Table Job)
    → IsEntered (submit_verb m domain o jobs)
unfolding submit_verb
submit_verb-IsEntered m domain none jobs = tt
submit_verb-IsEntered m domain (some action) jobs =
    if_both IsEntered (is_off m.has_truenas action) (λ off. tt)
      λ on. submit_on-IsEntered m domain action (lookup_vm m.snapshot.vms domain) jobs

pub submit-IsEntered :
    (m : Moment) (domain verb : String) (jobs : Table Job) → IsEntered (submit m domain verb jobs)
unfolding submit
submit-IsEntered m domain verb jobs = submit_verb-IsEntered m domain (parse_action verb) jobs

restore_checked-IsEntered :
    (m : Moment) (domain : String) (opts : RestoreOpts) (o : Option Error) (jobs : Table Job)
    → IsEntered (restore_checked m domain opts o jobs)
unfolding restore_checked
restore_checked-IsEntered m domain opts (some e) jobs = tt
restore_checked-IsEntered m domain opts none jobs =
    if_both IsEntered (is_unsafe opts (lookup_vm m.snapshot.vms domain)) (λ unsafe. tt)
      λ safe. register-IsEntered m.now domain Action.restore (restore_job m domain opts) jobs

pub submit_restore-IsEntered :
    (m : Moment) (domain : String) (opts : RestoreOpts) (jobs : Table Job)
    → IsEntered (submit_restore m domain opts jobs)
unfolding submit_restore restore_known
submit_restore-IsEntered m domain opts jobs =
    if_both IsEntered (not m.has_truenas) (λ off. tt)
      λ on.
        if_both IsEntered (not ((opts.mode == mode_staged) || (opts.mode == mode_direct)))
          (λ unknown. tt)
          λ known.
            restore_checked-IsEntered m domain opts
              (validate_snapshot m.guard domain opts.snapshot_id) jobs

delete_checked-IsEntered :
    (m : Moment) (domain id : String) (o : Option Error) (jobs : Table Job)
    → IsEntered (delete_checked m domain id o jobs)
unfolding delete_checked
delete_checked-IsEntered m domain id (some e) jobs = tt
delete_checked-IsEntered m domain id none jobs =
    register-IsEntered m.now domain Action.delete (delete_job m domain id) jobs

pub submit_delete-IsEntered :
    (m : Moment) (domain id : String) (jobs : Table Job)
    → IsEntered (submit_delete m domain id jobs)
unfolding submit_delete
submit_delete-IsEntered m domain id jobs =
    if_both IsEntered (not m.has_truenas) (λ off. tt)
      λ on. delete_checked-IsEntered m domain id (validate_snapshot m.guard domain id) jobs
