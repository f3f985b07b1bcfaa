-- ===== src/Cmd/Wiring/Restores.antt =====
-- main.go with internal/actions and internal/snapshots: the restores that a server of `main` queues.
use pademelon.Base.{
  ℕ, suc, ◌≡◌, ◌≢◌, refl, String, Bool, true, false, some, Result, ok, Table, lookup, ◌==◌, arith,
  eq_iff, usable,
}
use pademelon.Model.{Snapshot}
use pademelon.Actions.Job.{Job}
use pademelon.Actions.Registry.{RestoreOpts, submit_restore}
use pademelon.Actions.Registry.Submission.{IsQueued, submit_restore_sound}
use pademelon.Snapshots.{Service}
use pademelon.Snapshots.Check.{Watched, validate_known, Reason}
use pademelon.Snapshots.Restores.{restore_verified}
use pademelon.Cmd.Flags.{Outside, Level, Format}
use pademelon.Cmd.Start.{Given, Settings, Outcome, main}
use pademelon.Cmd.Start.Servable.{main-IsServable}
use pademelon.Cmd.Wiring.{wire_moment}

module _ (s : Settings) (check : String → String → Result String Bool) where
  -- Where the middleware is there, the store has the check as its guard.
  guard_wired :
      (now : ℕ) (new_id : String) (snapshot : Snapshot)
      → (s.truenas_addr == "") ≡ false
      → (wire_moment s check now new_id snapshot).guard ≡ some check
  unfolding wire_moment usable
  guard_wired now new_id snapshot set = rw set refl

  truenas_wired :
      (now : ℕ) (new_id : String) (snapshot : Snapshot)
      → (wire_moment s check now new_id snapshot).has_truenas ≡ true
      → (s.truenas_addr == "") ≡ false
  unfolding wire_moment
  truenas_wired now new_id snapshot on = ground (arith, on)

-- A server that `main` starts queues a restore only if it was given an address and a key of the
-- middleware, and the snapshot service had the id of the snapshot, in the list held at the submission
-- or at a later look, in a clean list of a finished fetch for that machine, provided that the store's
-- guard is the service's check and that the context of the check ends at some look.
pub main_restores_verified :
    (o : Outside) (probe : ℕ) (append_certs : String → Bool) (g : Given) (s : Settings)
    (log : Level × Format) (check : String → String → Result String Bool) (now : ℕ)
    (new_id : String) (snapshot : Snapshot) (domain : String) (opts : RestoreOpts)
    (jobs : Table Job) (n : ℕ) (w : Watched) (service : Service)
    → main o probe append_certs g ≡ Outcome.serving s log
    → validate_known (suc n) w domain opts.snapshot_id service
      ≡ some (check domain opts.snapshot_id)
    → w.done n ≡ true
    → IsQueued (submit_restore (wire_moment s check now new_id snapshot) domain opts jobs).0
    → (s.truenas_addr ≢ "")
      × (s.truenas_key ≢ "")
      × Reason w opts.snapshot_id (lookup domain service.states) (ok true)
main_restores_verified o probe append_certs g s log check now new_id snapshot domain opts jobs n w
      service started joined ends queued =
    let m = wire_moment s check now new_id snapshot in
    let set =
      truenas_wired s check now new_id snapshot
        (submit_restore_sound m domain opts jobs queued).0 in
    let keyed = (main-IsServable o probe append_certs g s log started).keyed in
    (
      ground (arith, set, eq_iff s.truenas_addr ""),
      ground (arith, set, keyed, eq_iff s.truenas_key ""),
      restore_verified m domain opts jobs n w service check
          (guard_wired s check now new_id snapshot set) joined ends queued,
    )
