-- ===== src/Actions/Registry/Submission.antt =====
-- What the submit methods do to the registry, and which states of it can be reached.
use pademelon.Base.{
  ℕ, String, ◌≡◌, refl, Bool, not, true, false, Option, none, some, [], Table, arith, if◌then◌else◌,
  ◌⊎◌, Result, ok, err, ◌==◌, ◌||◌, eq_iff,
}
use pademelon.Model.{Vm}
use pademelon.Actions.Verb.{Action, parse_action}
use pademelon.Actions.Job.{Job, Error, mode_direct, mode_staged}
use pademelon.Actions.Snapshot.{lookup_vm}
use pademelon.Actions.Registry.{
  Moment, Answer, RestoreOpts, register, new_job, submit_on, submit_verb, submit, restore_job,
  restore_known, restore_checked, submit_restore, delete_job, delete_checked, submit_delete,
  is_unsafe, validate_snapshot, check_known,
}
use pademelon.Actions.Registry.Oldest.{list_jobs}
use pademelon.Actions.Registry.SingleFlight.{
  IsSingleFlight, Amended, Amended-IsSingleFlight, sweep_jobs-IsSingleFlight,
  register-IsSingleFlight, active_count,
}

-- What the registry is after a submission: unchanged, or as `register` leaves it.
data Left (jobs : Table Job) : Table Job → Type 0 where
  unchanged : Left jobs jobs
  entered : (now : ℕ) (job : Job) → Left jobs (register now job.domain job.action job jobs).1

module _ {jobs : Table Job} where
  Left-if :
      (b : Bool) (x y : Answer × Table Job)
      → Left jobs x.1
      → Left jobs y.1
      → Left jobs (if b then x else y).1
  Left-if true x y hx hy = hx
  Left-if false x y hx hy = hy

module _ (m : Moment) (domain : String) (jobs : Table Job) where
  submit_on-Left :
      (action : Action) (vm : Option Vm) → Left jobs (submit_on m domain action vm jobs).1
  unfolding submit_on
  submit_on-Left action none = Left.unchanged
  submit_on-Left action (some vm) =
      Left-if _ _ _ (Left.entered m.now (new_job m domain action)) Left.unchanged

  submit_verb-Left : (o : Option Action) → Left jobs (submit_verb m domain o jobs).1
  unfolding submit_verb
  submit_verb-Left none = Left.unchanged
  submit_verb-Left (some action) = Left-if _ _ _ Left.unchanged (submit_on-Left action _)

  submit-Left : (action : String) → Left jobs (submit m domain action jobs).1
  unfolding submit
  submit-Left action = submit_verb-Left (parse_action action)

  restore_checked-Left :
      (opts : RestoreOpts) (e : Option Error) → Left jobs (restore_checked m domain opts e jobs).1
  unfolding restore_checked restore_job
  restore_checked-Left opts (some e) = Left.unchanged
  restore_checked-Left opts none =
      Left-if _ _ _ Left.unchanged (Left.entered m.now (restore_job m domain opts))

  restore_known-Left : (opts : RestoreOpts) → Left jobs (restore_known m domain opts jobs).1
  unfolding restore_known
  restore_known-Left opts = Left-if _ _ _ Left.unchanged (restore_checked-Left opts _)

  submit_restore-Left : (opts : RestoreOpts) → Left jobs (submit_restore m domain opts jobs).1
  unfolding submit_restore
  submit_restore-Left opts = Left-if _ _ _ Left.unchanged (restore_known-Left opts)

  delete_checked-Left :
      (id : String) (e : Option Error) → Left jobs (delete_checked m domain id e jobs).1
  unfolding delete_checked delete_job
  delete_checked-Left id (some e) = Left.unchanged
  delete_checked-Left id none = Left.entered m.now (delete_job m domain id)

  submit_delete-Left : (id : String) → Left jobs (submit_delete m domain id jobs).1
  unfolding submit_delete
  submit_delete-Left id = Left-if _ _ _ Left.unchanged (delete_checked-Left id _)

Left-IsSingleFlight :
    {jobs jobs' : Table Job} → Left jobs jobs' → IsSingleFlight jobs → IsSingleFlight jobs'
Left-IsSingleFlight Left.unchanged h = h
Left-IsSingleFlight {jobs} (Left.entered now job) h = register-IsSingleFlight now job jobs h

-- One operation on the registry by any goroutine.
pub data Step : Table Job → Table Job → Type 0 where
  submitted :
      (m : Moment) (domain action : String) (jobs : Table Job)
      → Step jobs (submit m domain action jobs).1
  restore_submitted :
      (m : Moment) (domain : String) (opts : RestoreOpts) (jobs : Table Job)
      → Step jobs (submit_restore m domain opts jobs).1
  delete_submitted :
      (m : Moment) (domain id : String) (jobs : Table Job)
      → Step jobs (submit_delete m domain id jobs).1
  listed : (now : ℕ) (jobs : Table Job) → Step jobs (list_jobs now jobs).1
  written : {jobs jobs' : Table Job} → Amended jobs jobs' → Step jobs jobs'

pub data Reachable : Table Job → Type 0 where
  fresh : Reachable []
  next : {jobs jobs' : Table Job} → Reachable jobs → Step jobs jobs' → Reachable jobs'

Step-IsSingleFlight :
    {jobs jobs' : Table Job} → Step jobs jobs' → IsSingleFlight jobs → IsSingleFlight jobs'
unfolding list_jobs
Step-IsSingleFlight (Step.submitted m domain action jobs) h =
    Left-IsSingleFlight (submit-Left m domain jobs action) h
Step-IsSingleFlight (Step.restore_submitted m domain opts jobs) h =
    Left-IsSingleFlight (submit_restore-Left m domain jobs opts) h
Step-IsSingleFlight (Step.delete_submitted m domain id jobs) h =
    Left-IsSingleFlight (submit_delete-Left m domain jobs id) h
Step-IsSingleFlight (Step.listed now jobs) h = sweep_jobs-IsSingleFlight now jobs h
Step-IsSingleFlight (Step.written a) h = Amended-IsSingleFlight a h

-- Whatever is submitted, listed and written by runners, in whatever order, the registry never
-- holds two jobs of one machine and one verb that are both pending or running.
pub single_flight : {jobs : Table Job} → Reachable jobs → IsSingleFlight jobs
unfolding IsSingleFlight active_count
single_flight Reachable.fresh domain action = omega arith
single_flight (Reachable.next r s) domain action =
    Step-IsSingleFlight s (single_flight r) domain action

-- What a submission must have passed to get into the queue.
abbrev pub IsQueued : Answer → Type 0
IsQueued (Answer.queued j) = Unit {0}
IsQueued (Answer.busy j) = ⊥
IsQueued (Answer.refused e) = ⊥

Queued-if :
    (b : Bool) (x y : Answer × Table Job)
    → (IsQueued x.0 → ⊥)
    → IsQueued (if b then x else y).0
    → (b ≡ false) × IsQueued y.0
Queued-if true x y bad q = absurd (bad q)
Queued-if false x y bad q = (refl, q)

check_known_sound :
    (domain id : String) (r : Result String Bool) → check_known domain id r ≡ none → r ≡ ok true
unfolding check_known
check_known_sound domain id (ok true) h = refl
check_known_sound domain id (ok false) h = cc
check_known_sound domain id (err e) h = cc

validate_snapshot_sound :
    (guard : Option (String → String → Result String Bool)) (domain id : String)
    → validate_snapshot guard domain id ≡ none
    → (check : String → String → Result String Bool) × (guard ≡ some check)
      × (check domain id ≡ ok true)
unfolding validate_snapshot
validate_snapshot_sound none domain id h = cc
validate_snapshot_sound (some check) domain id h =
    (check, refl, check_known_sound domain id (check domain id) h)

restore_checked_sound :
    (m : Moment) (domain : String) (opts : RestoreOpts) (e : Option Error) (jobs : Table Job)
    → IsQueued (restore_checked m domain opts e jobs).0
    → (e ≡ none) × (is_unsafe opts (lookup_vm m.snapshot.vms domain) ≡ false)
unfolding restore_checked
restore_checked_sound m domain opts (some e) jobs q = absurd q
restore_checked_sound m domain opts none jobs q = (refl, (Queued-if _ _ _ (λ f. f) q).0)

restore_known_sound :
    (m : Moment) (domain : String) (opts : RestoreOpts) (jobs : Table Job)
    → IsQueued (restore_known m domain opts jobs).0
    → (((opts.mode == mode_staged) || (opts.mode == mode_direct)) ≡ true)
      × (validate_snapshot m.guard domain opts.snapshot_id ≡ none)
      × (is_unsafe opts (lookup_vm m.snapshot.vms domain) ≡ false)
unfolding restore_known
restore_known_sound m domain opts jobs q =
    let (mode, rest) =
      Queued-if (not ((opts.mode == mode_staged) || (opts.mode == mode_direct))) _
        (restore_checked m domain opts (validate_snapshot m.guard domain opts.snapshot_id) jobs)
        (λ f. f) q in
    let (valid, safe) = restore_checked_sound m domain opts _ jobs rest in
    (ground (arith, mode), valid, safe)

submit_restore-known :
    (m : Moment) (domain : String) (opts : RestoreOpts) (jobs : Table Job)
    → IsQueued (submit_restore m domain opts jobs).0
    → (m.has_truenas ≡ true) × IsQueued (restore_known m domain opts jobs).0
unfolding submit_restore
submit_restore-known m domain opts jobs q =
    let (on, rest) =
      Queued-if (not m.has_truenas) _ (restore_known m domain opts jobs) (λ f. f) q in
    (ground (arith, on), rest)

is_unsafe_sound :
    (opts : RestoreOpts) (o : Option Vm) (vm : Vm)
    → is_unsafe opts o ≡ false
    → o ≡ some vm
    → opts.mode ≡ mode_direct
    → vm.running ≡ true
    → opts.ack ≡ true
unfolding is_unsafe
is_unsafe_sound opts none vm h e d r = cc
is_unsafe_sound opts (some v) vm h e d r = ground (arith, eq_iff opts.mode mode_direct)

-- A restore is queued only if the middleware is configured, the mode is one of the two, and the
-- snapshot service knows the snapshot right now as one of this machine.
pub submit_restore_sound :
    (m : Moment) (domain : String) (opts : RestoreOpts) (jobs : Table Job)
    → IsQueued (submit_restore m domain opts jobs).0
    → (m.has_truenas ≡ true)
      × ((opts.mode ≡ mode_staged) ⊎ (opts.mode ≡ mode_direct))
      × ((check : String → String → Result String Bool) × (m.guard ≡ some check)
          × (check domain opts.snapshot_id ≡ ok true))
submit_restore_sound m domain opts jobs q =
    let (on, known) = submit_restore-known m domain opts jobs q in
    let (mode, valid, safe) = restore_known_sound m domain opts jobs known in
    (
      on,
      ground (arith, mode, eq_iff opts.mode mode_staged, eq_iff opts.mode mode_direct),
      validate_snapshot_sound m.guard domain opts.snapshot_id valid,
    )

-- A direct restore of a machine that the poller last saw running is queued only if the request
-- carries the acknowledgement.
pub submit_restore-acked :
    (m : Moment) (domain : String) (opts : RestoreOpts) (jobs : Table Job) (vm : Vm)
    → lookup_vm m.snapshot.vms domain ≡ some vm
    → vm.running ≡ true
    → opts.mode ≡ mode_direct
    → IsQueued (submit_restore m domain opts jobs).0
    → opts.ack ≡ true
submit_restore-acked m domain opts jobs vm found running direct q =
    let (on, known) = submit_restore-known m domain opts jobs q in
    let (mode, valid, safe) = restore_known_sound m domain opts jobs known in
    is_unsafe_sound opts _ vm safe found direct running
