-- ===== src/Snapshots/Flight.antt =====
-- One fetch at a time for a machine, and which machines have a state.
use pademelon.Base.{
  ℕ, String, ◌≡◌, refl, ◌∙◌, Bool, true, false, Option, none, some, ◌||◌, List, [], ◌∷◌, Table,
  arith, eq_iff, eq_refl, ◌==◌, if◌then◌else◌, lookup, insert, retain, lookup-insert,
}
use pademelon.Model.{Vm}
use pademelon.Snapshots.{
  State, Service, state_or_fresh, started, request, is_known, is_skipped, queue, refresh_all,
}

abbrev pub is_some : Option State → Bool
is_some none = false
is_some (some st) = true

lookup-insert_held :
    (domain : String) (st : State) (m : Table State) → lookup domain (insert domain st m) ≡ some st
lookup-insert_held domain st m = lookup-insert domain domain st m ∙ rw (eq_refl domain) refl

request_starts :
    (floor now : ℕ) (domain : String) (s : Service)
    → (request floor now domain true s).1 ≡ true
    → lookup domain (request floor now domain true s).2.states
      ≡ some (started (state_or_fresh (lookup domain s.states)))
unfolding request
request_starts floor now domain s h = lookup-insert_held domain _ s.states ∙ rw h refl

request_busy :
    (floor now : ℕ) (domain : String) (force : Bool) (s : Service) (st : State)
    → lookup domain s.states ≡ some (started st)
    → ((request floor now domain force s).1 ≡ false)
      × ((request floor now domain force s).0.fetching ≡ true)
unfolding request
request_busy floor now domain true s st h = rw h (refl, refl)
request_busy floor now domain false s st h = rw h (refl, refl)

-- A request that starts a fetch leaves the machine being fetched: the request for it that comes
-- next, forced or not and however late, starts none and is told that a fetch is coming.
pub request_once :
    (floor now later : ℕ) (domain : String) (force : Bool) (s : Service)
    → (request floor now domain true s).1 ≡ true
    → let second = request floor later domain force (request floor now domain true s).2 in
      (second.1 ≡ false) × (second.0.fetching ≡ true)
request_once floor now later domain force s h =
    request_busy floor later domain force _ (state_or_fresh (lookup domain s.states))
      (request_starts floor now domain s h)

lookup-retain_key :
    (p : String → Bool) (domain : String) (m : Table State)
    → lookup domain (retain (λ name _. p name) m) ≡ (if p domain then lookup domain m else none)
unfolding lookup retain
lookup-retain_key p domain [] = ground arith
lookup-retain_key p domain ((name, st) ∷ rest) =
    ground (arith, eq_iff name domain, lookup-retain_key p domain rest)

-- One turn of the loop over the machines.
queue_step :
    (floor now : ℕ) (name domain : String) (later : Bool) (states : Table State)
    → (later
        || is_some (
            lookup domain (
              if is_skipped floor now (lookup name states)
              then states
              else insert name (started (state_or_fresh (lookup name states))) states)))
      ≡ (((name == domain) || later) || is_some (lookup domain states))
unfolding is_skipped
queue_step floor now name domain later states = ground (
  arith,
  eq_iff name domain,
  lookup-insert name domain (started (state_or_fresh (lookup name states))) states,
)

-- What the loop over the machines leaves: a state for each of them, and the states held before.
queue_lem :
    (floor now : ℕ) (vms : List Vm) (domain : String) (states : Table State)
    → is_some (lookup domain (queue floor now vms states).1)
      ≡ (is_known vms domain || is_some (lookup domain states))
unfolding queue is_known is_skipped
queue_lem floor now [] domain states = refl
queue_lem floor now (vm ∷ rest) domain states =
    let held = lookup vm.domain states in
    let next =
      if is_skipped floor now held
      then states
      else insert vm.domain (started (state_or_fresh held)) states in
    queue_lem floor now rest domain next
    ∙ queue_step floor now vm.domain domain (is_known rest domain) states

-- After a refresh that no running sweep turns away, exactly the machines that the poller reports
-- have a state: new ones were added and those gone were dropped.
pub refresh_all_known :
    (floor now : ℕ) (vms : List Vm) (s : Service) (domain : String)
    → s.sweeping ≡ false
    → is_some (lookup domain (refresh_all floor now vms s).1.states) ≡ is_known vms domain
unfolding refresh_all
refresh_all_known floor now vms s domain idle =
    rw (idle, refresh_all)
      (queue_lem floor now vms domain _
        ∙ rw (lookup-retain_key (is_known vms) domain s.states) (ground arith))
