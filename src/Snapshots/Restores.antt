-- ===== src/Snapshots/Restores.antt =====
-- internal/snapshots/snapshots.go with internal/actions/actions.go: a restore that the snapshot
-- service guards, as `main` joins the two.
use pademelon.Base.{
  ℕ, suc, ◌≡◌, sym, ap, ◌∙◌, subst, String, Bool, true, Option, none, some, Result, ok, Table,
  lookup,
}
use pademelon.Actions.Job.{Job}
use pademelon.Actions.Registry.{Moment, RestoreOpts, submit_restore}
use pademelon.Actions.Registry.Submission.{IsQueued, submit_restore_sound}
use pademelon.Snapshots.{State, Service}
use pademelon.Snapshots.Check.{Watched, validate_known, Reason, validate_known-Verdict}

-- A restore is queued behind the snapshot service only if the service had, in the list held at the
-- submission or at a later look, the id of the snapshot in a clean list of a finished fetch for this
-- machine, provided that the check's context ends at some look.
pub restore_verified :
    (m : Moment) (domain : String) (opts : RestoreOpts) (jobs : Table Job) (n : ℕ) (w : Watched)
    (s : Service) (check : String → String → Result String Bool)
    → m.guard ≡ some check
    → validate_known (suc n) w domain opts.snapshot_id s ≡ some (check domain opts.snapshot_id)
    → w.done n ≡ true
    → IsQueued (submit_restore m domain opts jobs).0
    → Reason w opts.snapshot_id (lookup domain s.states) (ok true)
restore_verified m domain opts jobs n w s check guarded joined ends queued =
    let id = opts.snapshot_id in
    let held = lookup domain s.states in
    let verdict = validate_known-Verdict n w domain id s ends in
    let (check', same, agrees) = (submit_restore_sound m domain opts jobs queued).2 in
    let agreed : some check ≡ some check' = sym guarded ∙ same in
    let given : some verdict.answer ≡ some (ok true) =
      sym verdict.given ∙ joined ∙ ap (asked domain id) agreed ∙ ap some agrees in
    subst (λ o. answered w id held o) given verdict.reason
  where
    asked :
        String
        → String
        → Option (String → String → Result String Bool)
        → Option (Result String Bool)
    asked domain id none = none
    asked domain id (some check) = some (check domain id)

    answered : Watched → String → Option State → Option (Result String Bool) → Type 0
    answered w id held none = Unit {0}
    answered w id held (some a) = Reason w id held a
