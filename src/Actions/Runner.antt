-- ===== src/Actions/Runner.antt =====
-- actions.go: the dispatch of a job's verb, the bound of its run, and what its end writes.
pub mod Delete
pub mod Final
use Prim.Native.String.{◌++◌}
use pademelon.Base.{ℕ, ◌+◌, String, Bool, true, false, Result, ok, err, ◌==◌, if◌then◌else◌}
use pademelon.Clocks.{minute}
use pademelon.Actions.Verb.{Action, to_string}
use pademelon.Actions.Job.{
  Job, JobState, JobStep, Error, Kind, StepState, fail_active, plain_error, mode_staged,
}
use pademelon.Actions.Effects.{
  Domain, Env, World, M, pure, ◌>>=◌, ◌>>◌, attempt, branch, fail, succeed, domain_create,
  domain_suspend, domain_resume, domain_destroy, with_connection, nudge_poller,
}
use pademelon.Actions.Guest.{find_domain, shutdown, reboot}
use pademelon.Actions.Restore.{restore, execute_delete}
use pademelon.Actions.Snapshot.{snapshot}

-- `return "", doms.Verb(dom)`.
unfoldable pub plain_verb : M (Result String (Unit {0})) → M (Result Error String)
plain_verb m = attempt m (λ e. fail (plain_error e)) (λ _. succeed "")

module _ (env : Env) where
  -- The switch of `execute` over a domain that was found.
  unfoldable pub dispatch : Job → Action → Domain → M (Result Error String)
  dispatch job Action.start d = plain_verb (domain_create env d)
  dispatch job Action.pause d = plain_verb (domain_suspend env d)
  dispatch job Action.resume d = plain_verb (domain_resume env d)
  dispatch job Action.reboot d = attempt (reboot env d job.domain) fail (λ _. succeed "")
  dispatch job Action.force_off d = plain_verb (domain_destroy env d)
  dispatch job Action.shutdown d = plain_verb (shutdown env d job.domain)
  dispatch job Action.snapshot d = snapshot env d job.domain
  dispatch job Action.restore d = restore env d job
  dispatch job Action.delete d = fail (plain_error "unknown action \"delete\"")

  unfoldable pub on_domain : Job → Action → M (Result Error String)
  on_domain job action = attempt (find_domain env job.domain) fail (dispatch job action)

  -- `execute`; only a delete does without a domain.
  unfoldable pub execute : Job → Action → M (Result Error String)
  execute job Action.delete = execute_delete env (record { name = ""; id = 0 }) job
  execute job Action.start = on_domain job Action.start
  execute job Action.shutdown = on_domain job Action.shutdown
  execute job Action.reboot = on_domain job Action.reboot
  execute job Action.force_off = on_domain job Action.force_off
  execute job Action.pause = on_domain job Action.pause
  execute job Action.resume = on_domain job Action.resume
  execute job Action.snapshot = on_domain job Action.snapshot
  execute job Action.restore = on_domain job Action.restore

  -- The wall-clock bound of `run`.
  unfoldable pub bound_for : Action → String → ℕ
  bound_for Action.reboot mode = env.config.reboot_timeout + minute
  bound_for Action.restore mode =
      if mode == mode_staged then env.config.reboot_timeout + minute else env.config.timeout
  bound_for Action.snapshot mode = env.config.snapshot_timeout
  bound_for _ mode = env.config.timeout

-- `detailFor`.
unfoldable pub detail_for : Action → String
detail_for Action.shutdown = "shutdown requested — the guest decides how fast"
detail_for Action.reboot = "reboot complete — the guest shut down and was started again"
detail_for Action.start = "start requested"
detail_for Action.pause = "pause requested"
detail_for Action.resume = "resume requested"
detail_for Action.force_off = "force off sent"
detail_for _ = ""

-- The start of `run`.
unfoldable pub begin_run : Job → Job
begin_run job = record job { state = JobState.running }

abbrev pub failure_state : Kind → JobState
failure_state Kind.guest_not_stopped = JobState.timeout
failure_state _ = JobState.failed

-- The end of `run` where the work came first.
unfoldable pub complete_run : Job → Result Error String → Job
complete_run job (ok detail) = record job {
  state = JobState.ok;
  detail = if detail == "" then detail_for job.action else detail;
}
complete_run job (err e) = record job { state = failure_state e.kind; detail = e.message }

-- The end of `run` where the bound came first; the work goes on by itself.
unfoldable pub expire_run : String → Job → Job
expire_run bound_text job = record job {
  state = JobState.timeout;
  detail =
      "exceeded the " ++ bound_text
      ++ " action bound; the underlying call was abandoned and the next poll tells the truth";
  steps = fail_active job.steps;
}

-- `run` where the work came first: the steps of the job are those of the world.
unfoldable pub run : Env → Job → M Job
run env job = do
  result ←
      attempt (with_connection env) (λ e. fail (plain_error e))
        (λ _. execute env (begin_run job) job.action)
  nudge_poller env
  λ w. (record (complete_run (begin_run job) result) { steps = w.steps }, w)
