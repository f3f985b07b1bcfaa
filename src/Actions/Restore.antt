-- ===== src/Actions/Restore.antt =====
-- actions.go: the restore of a snapshot, staged or in place, and the delete.
pub mod Verdict
pub mod Safety
use Prim.Native.String.{◌++◌}
use pademelon.Base.{
  ℕ, ◌-◌, String, Bool, true, false, Option, none, some, ◌&&◌, not, Result, ok, err, nat_eq, ◌==◌,
  if◌then◌else◌, cut_at,
}
use pademelon.Actions.Job.{
  Job, StepName, StepState, Error, Kind, wrap, plain_error, mode_staged, mode_direct,
}
use pademelon.Actions.Effects.{
  Domain, Env, M, pure, ◌>>=◌, ◌>>◌, attempt, branch, on_result, fail, succeed, set_step,
  domain_get_info, domain_create, rollback_snapshot, delete_zfs_snapshot, read_clock, nudge_poller,
}
use pademelon.Actions.Guest.{shutdown, resend, wait_stopped}

abbrev hint : String
hint = "force off, or roll back directly once it is stopped"

module _ (env : Env) (d : Domain) (job : Job) where
  -- The guest is on: ask it to stop, and wait until libvirt says that it did. The narration.
  pub stop_guest : M (Result Error String)
  stop_guest = do
    set_step StepName.stop StepState.active "shutdown request sent"
    attempt (shutdown env d job.domain)
        (λ e. do
          set_step StepName.stop StepState.failed ("shutdown request failed: " ++ e)
          fail (plain_error ("restore: shutdown phase: " ++ e)))
        (λ _. do
          set_step StepName.stop StepState.done ""
          set_step StepName.verify StepState.active
              "waiting for libvirt to confirm the guest is off"
          shut_at ← read_clock env
          attempt (wait_stopped env d hint (resend env d job.domain))
              (λ e. do
                set_step StepName.verify StepState.failed (
                    "libvirt still reports the guest on after "
                    ++ env.show_duration env.config.reboot_timeout
                    ++ " — force off, or roll back directly once it is stopped")
                fail (wrap "restore: " e))
              (λ _. do
                t ← read_clock env
                set_step StepName.verify StepState.done
                    ("libvirt confirms the guest is off (" ++ env.show_rounded (t - shut_at) ++ ")")
                nudge_poller env
                succeed "guest shut down, "))

  -- The staged path up to the rollback.
  pub confirm_off : M (Result Error String)
  confirm_off =
      attempt (domain_get_info env d)
        (λ e. do
          set_step StepName.verify StepState.failed ("could not read the guest state: " ++ e)
          fail (plain_error ("restore: read guest state: " ++ e)))
        (λ state.
          branch (nat_eq state env.domain_shutoff)
            (do
              set_step StepName.stop StepState.skipped "guest was already stopped"
              set_step StepName.verify StepState.done "libvirt confirms the guest is already off"
              succeed "")
            stop_guest)

  -- `job.Ack` adds what the rollback destroyed.
  abbrev with_ack : String → String
  with_ack detail = if job.ack then detail ++ ", newer snapshots destroyed" else detail

  -- After the rollback: the start of a staged restore that asked for it, and the closing line.
  pub finish_restore : String → M (Result Error String)
  finish_restore narration =
      branch (job.mode == mode_staged && job.start_after)
        (do
          set_step StepName.start StepState.active "starting the guest again"
          attempt (domain_create env d)
              (λ e. do
                set_step StepName.start StepState.failed e
                fail (plain_error ("restore: rolled back but start failed: " ++ e)))
              (λ _. do
                set_step StepName.start StepState.done "guest started"
                nudge_poller env
                succeed (
                    with_ack (
                      "restored \"" ++ job.snapshot ++ "\" — " ++ narration
                      ++ "rolled back, started again"))))
        (branch (job.mode == mode_staged)
          (succeed (
            with_ack (
              "restored \"" ++ job.snapshot ++ "\" — " ++ narration
              ++ "rolled back, guest left stopped")))
          (succeed (with_ack ("restored \"" ++ job.snapshot ++ "\" — rolled back in place"))))

  pub roll_back : String → String → String → M (Result Error String)
  roll_back dataset name narration = do
    set_step StepName.rollback StepState.active ("rewinding " ++ dataset)
    attempt (rollback_snapshot env dataset name job.ack)
        (λ e. do
          set_step StepName.rollback StepState.failed e
          fail (plain_error ("restore: rollback failed, the guest is left as-is: " ++ e)))
        (λ _. do
          set_step StepName.rollback StepState.done ("rolled back to " ++ job.snapshot)
          finish_restore narration)

  -- The sequence, once the id is taken apart.
  pub restore_parts : String → String → M (Result Error String)
  restore_parts dataset name =
      branch (job.mode == mode_staged)
        (attempt confirm_off fail (λ narration. roll_back dataset name narration))
        (branch (job.mode == mode_direct) (roll_back dataset name "") (
          fail (record {
            kind = Kind.bad_restore;
            message = "bad restore request: mode \"" ++ job.mode ++ "\"";
          })))

  unfoldable pub malformed : M (Result Error String)
  malformed = fail (plain_error ("malformed snapshot id \"" ++ job.snapshot ++ "\""))

  -- `restore`.
  pub restore : M (Result Error String)
  restore = elim (cut_at job.snapshot) [
    | none ↦ malformed
    | some (dataset, name) ↦ restore_parts dataset name
  ]

  -- `executeDelete`: a snapshot that is already gone is a fine answer.
  unfoldable pub execute_delete : M (Result Error String)
  execute_delete = elim (cut_at job.snapshot) [
    | none ↦ malformed
    | some (dataset, name) ↦
        attempt (delete_zfs_snapshot env dataset name) (λ e. fail (plain_error e))
          (λ deleted.
            branch deleted (succeed ("snapshot \"" ++ job.snapshot ++ "\" deleted"))
              (succeed ("snapshot \"" ++ job.snapshot ++ "\" was already gone")))
  ]
