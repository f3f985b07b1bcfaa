-- ===== src/Tests/Registry.antt =====
-- A registry in use.
use pademelon.Base.{
  ◌+◌, ◌≤◌, ◌≡◌, refl, String, Bool, true, false, some, [], ◌∷◌, Table, Result, ok, cut_at, retain,
  Perm, ◌⊎◌, map, keep, length, ◌&&◌,
}
use pademelon.Actions.Job.{Job, mode_staged, mode_direct}
use pademelon.Actions.Guest.{is_agent_ok}
use pademelon.Actions.Snapshot.{lookup_vm}
use pademelon.Actions.Registry.{
  Moment, RestoreOpts, submit, submit_restore, validate_snapshot, register, enter, find_in_flight,
  sweep_jobs,
}
use pademelon.Actions.Registry.SingleFlight.{IsSingleFlight}
use pademelon.Actions.Registry.Submission.{
  Reachable, Step, IsQueued, single_flight, submit_restore_sound, submit_restore-acked,
}
use pademelon.Actions.Registry.Oldest.{
  list_jobs, entries, IsOldestFirst, kept, list_jobs-IsOldestFirst,
}
use pademelon.Actions.Registry.Bulk.{shutdown_all, shutdown_all_plan}
use pademelon.Tests.{one_vm, running_vm, staged_job, reboot_job}

abbrev noon : Moment
noon = record {
  now = 9;
  new_id = "b2";
  snapshot = one_vm;
  has_truenas = true;
  guard = some (λ domain id. ok true);
}

abbrev busy_jobs : Table Job
busy_jobs = ("a1", staged_job) ∷ ("a2", record reboot_job { requested = 4 }) ∷ []

abbrev direct : RestoreOpts
direct = record {
  snapshot_id = "tank/vm1@monday";
  mode = mode_direct;
  start_after = false;
  ack = true;
}

single_flight_example :
    IsSingleFlight (submit noon "vm1" "reboot" (submit noon "vm1" "reboot" []).1).1
single_flight_example = single_flight (
    Reachable.next (Reachable.next Reachable.fresh (Step.submitted noon "vm1" "reboot" []))
      (Step.submitted noon "vm1" "reboot" (submit noon "vm1" "reboot" []).1))

direct-IsQueued : IsQueued (submit_restore noon "vm1" direct []).0
unfolding submit_restore lookup_vm validate_snapshot cut_at register enter find_in_flight sweep_jobs
    retain
direct-IsQueued = tt

submit_restore_sound_example :
    (noon.has_truenas ≡ true)
    × ((direct.mode ≡ mode_staged) ⊎ (direct.mode ≡ mode_direct))
    × ((check : String → String → Result String Bool) × (noon.guard ≡ some check)
        × (check "vm1" direct.snapshot_id ≡ ok true))
submit_restore_sound_example = submit_restore_sound noon "vm1" direct [] direct-IsQueued

submit_restore-acked_example : direct.ack ≡ true
unfolding lookup_vm
submit_restore-acked_example =
    submit_restore-acked noon "vm1" direct [] running_vm refl refl refl direct-IsQueued

list_jobs-IsOldestFirst_example :
    IsOldestFirst (list_jobs 9 busy_jobs).0
    × Perm (list_jobs 9 busy_jobs).0 (kept 9 (entries busy_jobs))
list_jobs-IsOldestFirst_example = list_jobs-IsOldestFirst 9 busy_jobs

shutdown_all_plan_example :
    ((shutdown_all (running_vm ∷ [])).0
      ≡ map (λ vm. vm.domain) (keep (λ vm. vm.running && is_agent_ok vm.agent) (running_vm ∷ [])))
    × (length (shutdown_all (running_vm ∷ [])).0 + length (shutdown_all (running_vm ∷ [])).1
        ≤ length (running_vm ∷ []))
shutdown_all_plan_example = shutdown_all_plan (running_vm ∷ [])
