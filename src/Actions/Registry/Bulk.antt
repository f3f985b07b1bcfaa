-- ===== src/Actions/Registry/Bulk.antt =====
-- actions.go: the bulk shutdown. Its plan, and the submissions that follow.
use Prim.Native.String.{◌++◌}
use pademelon.Base.{
  ◌+◌, ◌≤◌, String, ◌≡◌, refl, List, [], ◌∷◌, Table, arith, length, map, keep, ◌&&◌, not, ◌==◌,
  if◌then◌else◌,
}
use pademelon.Model.{Vm}
use pademelon.Actions.Job.{Job}
use pademelon.Actions.Guest.{is_agent_ok}
use pademelon.Actions.Registry.{Moment, submit}

-- What `ShutdownAll` does with one machine: plan it, skip it with a note, or nothing.
pub data Verdict : Type 0 where
  plan leave : Verdict
  skip : String → Verdict

unfoldable pub judge : Vm → Verdict
judge vm =
    if not vm.running
    then (if vm.state == "paused"
        then Verdict.skip (vm.domain ++ " (paused — left alone)")
        else Verdict.leave)
    else if not (is_agent_ok vm.agent)
    then Verdict.skip (vm.domain ++ " (no agent — shut it down individually for the ACPI path)")
    else Verdict.plan

add_verdict : Verdict → String → List String × List String → List String × List String
add_verdict Verdict.plan name (planned, skipped) = (name ∷ planned, skipped)
add_verdict (Verdict.skip note) name (planned, skipped) = (planned, note ∷ skipped)
add_verdict Verdict.leave name (planned, skipped) = (planned, skipped)

-- The plan of `ShutdownAll`: the machines to shut down, and notes on those skipped.
unfoldable pub shutdown_all : List Vm → List String × List String
unfolding add_verdict
shutdown_all [] = ([], [])
shutdown_all (vm ∷ rest) = add_verdict (judge vm) vm.domain (shutdown_all rest)

-- The next submission of the goroutine that `ShutdownAll` starts for its plan: what is left of it, and the
-- jobs.
unfoldable pub submit_next : Moment → List String → Table Job → List String × Table Job
submit_next m [] jobs = ([], jobs)
submit_next m (name ∷ rest) jobs = (rest, (submit m name "shutdown" jobs).1)

-- The plan of a bulk shutdown names, in the order of the snapshot, exactly the running machines
-- whose agent is connected, and it has at most one entry or note for each machine.
pub shutdown_all_plan :
    (vms : List Vm)
    → ((shutdown_all vms).0
        ≡ map (λ vm. vm.domain) (keep (λ vm. vm.running && is_agent_ok vm.agent) vms))
      × (length (shutdown_all vms).0 + length (shutdown_all vms).1 ≤ length vms)
unfolding shutdown_all add_verdict judge
shutdown_all_plan [] = (refl, omega arith)
shutdown_all_plan (vm ∷ rest) = ground (arith, shutdown_all_plan rest)
