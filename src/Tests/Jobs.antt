-- ===== src/Tests/Jobs.antt =====
-- Runs of jobs on the host where every call works.
use pademelon.Base.{◌≤◌, ◌≡◌, refl, true, false, [], ◌∷◌, arith, lookup, cut_at}
use pademelon.Actions.Verb.{Action}
use pademelon.Actions.Job.{JobState, steps_for, mode_staged}
use pademelon.Actions.Effects.{
  Event, Trace, ◌>>=◌, attempt, perform, pure, branch, nudge_poller, on_result, set_step,
}
use pademelon.Actions.Effects.Steps.{shape, all_settled}
use pademelon.Actions.Guest.{
  wait_stopped, resend, reboot, find_domain, shutdown, agent_connected, raw_agent_call, first_reply,
  connected_in, find_named, is_agent_gone_err, is_agent_ok, resend_if_due, start_again, wait_loop,
}
use pademelon.Actions.Guest.Waiting.{IsClock, Ended, wait_stopped_ends}
use pademelon.Actions.Guest.Reboot.{Agrees, AgreesDone, reboot-Agrees}
use pademelon.Actions.Restore.{restore}
use pademelon.Actions.Restore.Safety.{Guarded, restore-Guarded}
use pademelon.Actions.Restore.Verdict.{restore-Agrees}
use pademelon.Actions.Snapshot.{snapshot}
use pademelon.Actions.Snapshot.Released.{left_frozen, left_paused, Free, snapshot-Free}
use pademelon.Actions.Snapshot.Marked.{unthawed, IsTracked, snapshot-IsTracked}
use pademelon.Actions.Runner.{
  run, execute, complete_run, begin_run, on_domain, dispatch, detail_for,
}
use pademelon.Actions.Runner.Final.{run-Settled}
use pademelon.Actions.Sweep.{sweep_tick, sweep_frozen_once}
use pademelon.Actions.Sweep.Marks.{Accounted, thaws, sweeps_account}
use pademelon.Tests.{calm, guest, staged_job, reboot_job, world, slept_time}

restore-Guarded_example : Guarded calm staged_job (restore calm guest staged_job (world [])).1.trace
restore-Guarded_example = restore-Guarded calm guest staged_job (world []) refl tt

snapshot-Free_example : Free (snapshot calm guest "vm1" (world [])).1.trace
unfolding left_frozen left_paused
snapshot-Free_example = snapshot-Free calm guest "vm1" (world []) (refl, refl)

snapshot-IsTracked_example : IsTracked "vm1" (snapshot calm guest "vm1" (world [])).1
unfolding unthawed
snapshot-IsTracked_example = snapshot-IsTracked calm guest "vm1" (world []) tt

slept_time-grows : (t : Trace) (e : Event) → slept_time t ≤ slept_time (e ∷ t)
slept_time-grows t (Event.slept d) = omega arith
slept_time-grows t _ = omega arith

calm-IsClock : IsClock calm
calm-IsClock = record { monotone = slept_time-grows; sleeps = λ t d. omega arith }

wait_stopped_ends_example :
    Ended (wait_stopped calm guest "start it" (resend calm guest "vm1") (world [])).0
wait_stopped_ends_example =
    wait_stopped_ends calm guest "vm1" "start it" (world []) calm-IsClock (omega arith)

restore-Agrees_example :
    Agrees
      (restore calm guest staged_job (world (steps_for Action.restore mode_staged true))).0
      (restore calm guest staged_job (world (steps_for Action.restore mode_staged true))).1
unfolding cut_at
restore-Agrees_example =
    restore-Agrees calm guest staged_job (world (steps_for Action.restore mode_staged true))
      ("tank/vm1", "monday") refl refl refl

reboot-Agrees_example :
    AgreesDone
      (reboot calm guest "vm1" (world (steps_for Action.reboot "" false))).0
      (reboot calm guest "vm1" (world (steps_for Action.reboot "" false))).1
reboot-Agrees_example =
    reboot-Agrees calm guest "vm1" (world (steps_for Action.reboot "" false)) refl

reboot_succeeds :
    (run calm reboot_job (world (steps_for Action.reboot "" false))).0.state ≡ JobState.ok
unfolding run ◌>>=◌ complete_run attempt perform execute on_domain find_domain pure begin_run
    dispatch reboot shutdown branch agent_connected raw_agent_call first_reply wait_stopped
    nudge_poller on_result set_step connected_in find_named is_agent_gone_err is_agent_ok
    resend_if_due start_again wait_loop detail_for
reboot_succeeds = refl

run-Settled_example :
    all_settled (shape (run calm reboot_job (world (steps_for Action.reboot "" false))).0.steps)
    ≡ true
run-Settled_example =
    run-Settled calm reboot_job (world (steps_for Action.reboot "" false)) refl refl reboot_succeeds

sweeps_account_example :
    Accounted "vm1" 0 (sweep_tick calm (world [])).1
    × Accounted "vm1" 0 (sweep_frozen_once calm (λ t. false) (world [])).1
unfolding lookup thaws
sweeps_account_example = sweeps_account calm (λ t. false) "vm1" (world []) refl
