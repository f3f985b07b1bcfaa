-- ===== src/Snapshots.antt =====
-- internal/snapshots/snapshots.go: the snapshot lists of the machines, fetched on demand. Each
-- function here is one stretch of the code under the service's lock, or what a fetch asks of the
-- middleware between two of them.
pub mod Shown
pub mod Flight
pub mod Check
pub mod Restores
pub mod Fetch
use mathlib.Core.List
use mathlib.Core.List.{◌++◌}
use Prim.Native.String.{◌++◌ as text_append}
use pademelon.Base.{
  ℕ, ℤ, positive_or, zero, suc, ◌-◌, String, Bool, true, false, Option, none, some, ◌&&◌, ◌||◌, not,
  List, [], ◌∷◌, Result, ok, err, Table, lookup, insert, remove, retain, any, ltb, ◌==◌,
  if◌then◌else◌,
}
use pademelon.Clocks.{snapshot_fetch_budget, snapshot_refetch_floor, snapshot_connect_grace}
use pademelon.Model.{Vm, ZfsSnapshot}
use pademelon.Actions.Snapshot.{lookup_vm, truenas_datasets}

-- The part of the middleware's status that a fetch reads.
pub record Status : Type 0 where
  pub connected : Bool
  pub error : String

-- The record of one machine; `none` is the zero time of no fetch yet.
pub record State : Type 0 where
  pub snapshots : List ZfsSnapshot
  pub status : Status
  pub fetched_at : Option ℕ
  pub err : String
  pub stale : Bool
  pub fetching : Bool

pub record Service : Type 0 where
  pub states : Table State
  pub sweeping : Bool

-- The durations of a `Config`, which default to the clocks', and what `New` makes of them.
pub record Limits {ℓ} (A : Type ℓ) : Type ℓ where
  pub budget : A
  pub floor : A
  pub grace : A

unfoldable pub limits : Limits ℤ → Limits ℕ
limits c = record {
  budget = positive_or snapshot_fetch_budget c.budget;
  floor = positive_or snapshot_refetch_floor c.floor;
  grace = positive_or snapshot_connect_grace c.grace;
}

-- The service that `New` makes: nothing is fetched yet.
abbrev pub new_service : Service
new_service = record { states = []; sweeping = false }

abbrev pub fresh_state : State
fresh_state = record {
  snapshots = [];
  status = record { connected = false; error = "" };
  fetched_at = none;
  err = "";
  stale = false;
  fetching = false;
}

abbrev pub state_or_fresh : Option State → State
state_or_fresh none = fresh_state
state_or_fresh (some st) = st

abbrev pub started : State → State
started st = record st { fetching = true }

is_recent : ℕ → ℕ → Option ℕ → Bool
is_recent floor now none = false
is_recent floor now (some t) = ltb (now - t) floor

-- A clean fetch within the floor.
unfoldable pub too_soon : ℕ → ℕ → State → Bool
unfolding is_recent
too_soon floor now st = (st.err == "") && is_recent floor now st.fetched_at

-- `Request`: the state that it answers with, whether it starts a fetch, and the service it leaves.
unfoldable pub request : ℕ → ℕ → String → Bool → Service → State × Bool × Service
request floor now domain force s =
    let st = state_or_fresh (lookup domain s.states) in
    let start = force && not st.fetching && not (too_soon floor now st) in
    let after = if start then started st else st in
    (after, start, record s { states = insert domain after s.states })

unfoldable pub is_known : List Vm → String → Bool
is_known vms domain = any (λ vm. vm.domain == domain) vms

unfoldable pub is_skipped : ℕ → ℕ → Option State → Bool
is_skipped floor now none = false
is_skipped floor now (some st) = st.fetching || too_soon floor now st

-- The loop of `RefreshAll` over the machines.
queue : ℕ → ℕ → List Vm → Table State → List String × Table State
queue floor now [] states = ([], states)
queue floor now (vm ∷ rest) states =
    let held = lookup vm.domain states in
    let skip = is_skipped floor now held in
    let next = if skip then states else insert vm.domain (started (state_or_fresh held)) states in
    let more = queue floor now rest next in (if skip then more.0 else vm.domain ∷ more.0, more.1)

is_some_queued : List String → Bool
is_some_queued [] = false
is_some_queued (_ ∷ _) = true

-- `RefreshAll`: the machines whose fetches it queued, in order, and the service it leaves.
unfoldable pub refresh_all : ℕ → ℕ → List Vm → Service → List String × Service
unfolding queue is_some_queued
refresh_all floor now vms s =
    let held = retain (λ domain _. is_known vms domain) s.states in
    if s.sweeping
    then ([], record s { states = held })
    else (let q = queue floor now vms held in
        (q.0, record { states = q.1; sweeping = is_some_queued q.0 }))

datasets_of : Option Vm → Option (List String)
datasets_of none = none
datasets_of (some vm) = some (truenas_datasets vm.disks)

begin_with : String → Option (List String) → Option State → Service → Option (List String) × Service
begin_with domain (some datasets) (some st) s = (some datasets, s)
begin_with domain _ _ s = (none, record s { states = remove domain s.states })

-- The start of `fetch`: the datasets to ask for, or the end of a machine that vanished.
unfoldable pub begin_fetch : List Vm → String → Service → Option (List String) × Service
unfolding datasets_of begin_with
begin_fetch vms domain s =
    begin_with domain (datasets_of (lookup_vm vms domain)) (lookup domain s.states) s

-- The wait for a reconnect: `status k` is the answer of poll `k`, and as many polls are made as fit
-- into the grace.
unfoldable pub await_connected : ℕ → (ℕ → Status) → ℕ → Status
await_connected zero status k = status k
await_connected (suc rounds) status k =
    let later = await_connected rounds status (suc k) in
    if (status k).connected then status k else later

or_first : String → String → String
or_first first e = if first == "" then e else first

add_answer :
    Result String (List ZfsSnapshot) → List ZfsSnapshot × String → List ZfsSnapshot × String
add_answer (ok rows) (held, first) = (held ++ rows, first)
add_answer (err e) (held, first) = (held, or_first first e)

-- The loop of `fetch` over the datasets: the rows, and the first error. `expired k` is whether the
-- budget is used up before query `k`.
unfoldable pub collect :
    (ℕ → Bool)
    → (String → Result String (List ZfsSnapshot))
    → ℕ
    → List String
    → List ZfsSnapshot × String
    → List ZfsSnapshot × String
unfolding add_answer or_first
collect expired list k [] held = held
collect expired list k (dataset ∷ rest) held =
    let more = collect expired list (suc k) rest (add_answer (list dataset) held) in
    if expired k then (held.0, or_first held.1 "snapshot fetch ran out of time") else more

pub is_nil : {A : Type 0} → List A → Bool
is_nil [] = true
is_nil (_ ∷ _) = false

-- The error that the panel shows.
unfoldable pub message : Status → List String → String → String
unfolding is_nil
message status datasets first =
    if not status.connected && not (is_nil datasets)
    then (if not (status.error == "")
        then status.error
        else if first == ""
        then "middleware not connected"
        else first)
    else first

-- The switch at the end of `fetch`.
unfoldable pub settle : ℕ → Status → List String → List ZfsSnapshot → String → State → State
unfolding is_nil
settle now status datasets list msg st =
    let done = record st { status = status; fetched_at = some now; fetching = false } in
    if is_nil datasets
    then record done { snapshots = []; err = ""; stale = false }
    else if msg == ""
    then record done { snapshots = list; err = ""; stale = false }
    else if not (is_nil list)
    then record done { snapshots = list; err = msg; stale = false }
    else if not (is_nil st.snapshots)
    then record done { err = msg; stale = true }
    else record done { snapshots = []; err = msg; stale = false }

settle_in : String → Option State → (State → State) → Service → Service
settle_in domain none f s = s
settle_in domain (some st) f s = record s { states = insert domain (f st) s.states }

-- The end of `fetch`, with the rows sorted by `sort.Slice`.
unfoldable pub end_fetch :
    ℕ → Status → List String → List ZfsSnapshot → String → String → Service → Service
unfolding settle_in
end_fetch now status datasets list msg domain s =
    settle_in domain (lookup domain s.states) (settle now status datasets list msg) s

unfoldable pub contains_id : List ZfsSnapshot → String → Bool
contains_id list id = any (λ sn. sn.id == id) list

-- The first look of `ValidateKnown`: whether the held list answers, and otherwise whether a fetch
-- is started.
unfoldable pub begin_check : String → String → Service → Bool × Bool × Service
begin_check domain id s =
    let held = lookup domain s.states in
    let st = state_or_fresh held in
    if not st.fetching && (st.err == "") && contains_id st.snapshots id
    then (true, false, s)
    else (false, not st.fetching, record s { states = insert domain (started st) s.states })

-- A later look of `ValidateKnown`; `none` is a fetch still coming.
unfoldable pub look : String → Option State → String → Option (Result String Bool)
look domain none id =
    some (err (text_append "VM " (text_append domain " is no longer known to the poller")))
look domain (some st) id =
    if st.fetching
    then none
    else if not (st.err == "")
    then some (err (text_append "cannot verify the snapshot list: " st.err))
    else some (ok (contains_id st.snapshots id))
