-- ===== src/Actions/Registry.antt =====
-- actions.go: the registry of jobs. What a submission is checked against, the entry of a job under
-- the single-flight rule, the list of jobs, and the plan of a bulk shutdown.
pub mod SingleFlight
pub mod Submission
pub mod Oldest
pub mod Bulk
pub mod Entered
use Prim.Native.String.{◌++◌}
use mathlib.Core.List
use pademelon.Base.{
  ℕ, ◌-◌, String, Bool, true, false, Option, none, some, ◌&&◌, ◌||◌, not, List, [], ◌∷◌, Result, ok,
  err, Table, insert, retain, leb, ltb, ◌==◌, if◌then◌else◌, cut_at,
}
use pademelon.Clocks.{job_retention}
use pademelon.Model.{Vm, Snapshot, AgentState}
use pademelon.Actions.Verb.{Action, to_string, parse_action, allowed_states, allows}
use pademelon.Actions.Job.{Job, JobState, Error, Kind, steps_for, mode_staged, mode_direct}
use pademelon.Actions.Snapshot.{lookup_vm, join}
use pademelon.Actions.Guest.{is_agent_ok}

-- What a submission finds: the clock, the next id, the poller's last snapshot, whether the
-- middleware is configured, and the snapshot service's answer on an id, if it is configured.
pub record Moment : Type 0 where
  pub now : ℕ
  pub new_id : String
  pub snapshot : Snapshot
  pub has_truenas : Bool
  pub guard : Option (String → String → Result String Bool)

-- The answers of the submit methods: `(job, nil)`, `(job, ErrInFlight)` and `(nil, err)`.
pub data Answer : Type 0 where
  queued busy : Job → Answer
  refused : Error → Answer

pub record RestoreOpts : Type 0 where
  pub snapshot_id : String
  pub mode : String
  pub start_after : Bool
  pub ack : Bool

-- `sweepLocked`.
unfoldable pub sweep_jobs : ℕ → Table Job → Table Job
sweep_jobs now jobs = retain (λ id j. leb (now - j.requested) job_retention) jobs

-- A job that has not ended.
abbrev pub is_active : JobState → Bool
is_active JobState.pending = true
is_active JobState.running = true
is_active _ = false

abbrev pub in_flight : String → Action → Job → Bool
in_flight domain action j =
    (j.domain == domain) && (to_string j.action == to_string action) && is_active j.state

unfoldable pub find_in_flight : String → Action → Table Job → Option Job
find_in_flight domain action [] = none
find_in_flight domain action ((id, j) ∷ rest) =
    if in_flight domain action j then some j else find_in_flight domain action rest

-- The pointer's `stepsFor(job)`.
unfoldable pub with_steps : Job → Job
with_steps j = record j { steps = steps_for j.action j.mode j.start_after }

unfoldable pub enter : Option Job → Job → Table Job → Answer × Table Job
enter (some j) job jobs = (Answer.busy j, jobs)
enter none job jobs = (Answer.queued (with_steps job), insert job.id (with_steps job) jobs)

-- `register`, up to the start of the runner.
unfoldable pub register : ℕ → String → Action → Job → Table Job → Answer × Table Job
register now domain action job jobs =
    let swept = sweep_jobs now jobs in enter (find_in_flight domain action swept) job swept

abbrev pub error : Kind → String → Error
error kind message = record { kind = kind; message = message }

abbrev new_job : Moment → String → Action → Job
new_job m domain action = record {
  id = m.new_id;
  domain = domain;
  action = action;
  state = JobState.pending;
  requested = m.now;
  detail = "";
  steps = [];
  snapshot = "";
  mode = "";
  start_after = false;
  ack = false;
}

-- `stateNames`.
state_names : List String → String
state_names names = join " or " names

-- The error of a verb that the machine's state does not allow.
unfoldable pub state_error : String → String → Action → Error
unfolding state_names
state_error domain state action = error Kind.invalid_state (
    "invalid state for action: "
    ++ domain
    ++ " is "
    ++ state
    ++ ", "
    ++ to_string action
    ++ " needs "
    ++ state_names (allowed_states action))

middleware_off : Error
middleware_off = error Kind.middleware_off "middleware integration is off"

submit_on : Moment → String → Action → Option Vm → Table Job → Answer × Table Job
submit_on m domain action none jobs =
    (Answer.refused (error Kind.unknown_domain "unknown domain"), jobs)
submit_on m domain action (some vm) jobs =
    if allows action vm.state
    then register m.now domain action (new_job m domain action) jobs
    else (Answer.refused (state_error domain vm.state action), jobs)

is_off : Bool → Action → Bool
is_off has_truenas Action.snapshot = not has_truenas
is_off has_truenas _ = false

submit_verb : Moment → String → Option Action → Table Job → Answer × Table Job
unfolding submit_on is_off middleware_off
submit_verb m domain none jobs = (Answer.refused (error Kind.unknown_action "unknown action"), jobs)
submit_verb m domain (some action) jobs =
    if is_off m.has_truenas action
    then (Answer.refused middleware_off, jobs)
    else submit_on m domain action (lookup_vm m.snapshot.vms domain) jobs

-- `Submit`, on the text of a verb.
unfoldable pub submit : Moment → String → String → Table Job → Answer × Table Job
unfolding submit_verb
submit m domain action jobs = submit_verb m domain (parse_action action) jobs

check_parts : String → Option (String × String) → Option Error
check_parts id none =
    some
      (error Kind.unknown_snapshot ("unknown snapshot for this VM: malformed id \"" ++ id ++ "\""))
check_parts id (some _) = none

check_known : String → String → Result String Bool → Option Error
check_known domain id (err e) =
    some (error Kind.guard_unavailable ("snapshot list could not be verified: " ++ id ++ ": " ++ e))
check_known domain id (ok false) =
    some (error Kind.unknown_snapshot ("unknown snapshot for this VM: " ++ id ++ " on " ++ domain))
check_known domain id (ok true) = check_parts id (cut_at id)

-- `validateSnapshot`: the error, if any.
unfoldable pub validate_snapshot :
    Option (String → String → Result String Bool) → String → String → Option Error
unfolding check_known check_parts
validate_snapshot none domain id = some (
    error Kind.guard_unavailable
      "snapshot list could not be verified: no snapshot guard is configured")
validate_snapshot (some validate_known) domain id = check_known domain id (validate_known domain id)

-- The check of a direct restore against the machine as the poller last saw it.
is_unsafe : RestoreOpts → Option Vm → Bool
is_unsafe opts none = false
is_unsafe opts (some vm) = (opts.mode == mode_direct) && vm.running && not opts.ack

unsafe_error : String → Error
unsafe_error domain = error Kind.invalid_state (
    "invalid state for action: " ++ domain
    ++ " is running — a direct rollback under a running guest can corrupt the disk; use the staged restore, stop the VM first, or pass the acknowledgement")

mode_error : String → Error
mode_error mode =
    error Kind.bad_restore
      ("bad restore request: mode \"" ++ mode ++ "\", want \"staged\" or \"direct\"")

restore_job : Moment → String → RestoreOpts → Job
restore_job m domain opts = record (new_job m domain Action.restore) {
  snapshot = opts.snapshot_id;
  mode = opts.mode;
  start_after = opts.start_after;
  ack = opts.ack;
}

restore_checked : Moment → String → RestoreOpts → Option Error → Table Job → Answer × Table Job
restore_checked m domain opts (some e) jobs = (Answer.refused e, jobs)
restore_checked m domain opts none jobs =
    if is_unsafe opts (lookup_vm m.snapshot.vms domain)
    then (Answer.refused (unsafe_error domain), jobs)
    else register m.now domain Action.restore (restore_job m domain opts) jobs

restore_known : Moment → String → RestoreOpts → Table Job → Answer × Table Job
restore_known m domain opts jobs =
    if not ((opts.mode == mode_staged) || (opts.mode == mode_direct))
    then (Answer.refused (mode_error opts.mode), jobs)
    else restore_checked m domain opts (validate_snapshot m.guard domain opts.snapshot_id) jobs

-- `SubmitRestore`.
unfoldable pub submit_restore : Moment → String → RestoreOpts → Table Job → Answer × Table Job
unfolding restore_known restore_checked is_unsafe restore_job unsafe_error mode_error middleware_off
submit_restore m domain opts jobs =
    if not m.has_truenas
    then (Answer.refused middleware_off, jobs)
    else restore_known m domain opts jobs

delete_job : Moment → String → String → Job
delete_job m domain id = record (new_job m domain Action.delete) { snapshot = id }

delete_checked : Moment → String → String → Option Error → Table Job → Answer × Table Job
delete_checked m domain id (some e) jobs = (Answer.refused e, jobs)
delete_checked m domain id none jobs =
    register m.now domain Action.delete (delete_job m domain id) jobs

-- `SubmitDelete`.
unfoldable pub submit_delete : Moment → String → String → Table Job → Answer × Table Job
unfolding delete_checked delete_job middleware_off
submit_delete m domain id jobs =
    if not m.has_truenas
    then (Answer.refused middleware_off, jobs)
    else delete_checked m domain id (validate_snapshot m.guard domain id) jobs
