-- ===== src/Snapshots/Fetch.antt =====
-- internal/snapshots/snapshots.go: `fetch` as a whole, from its first stretch under the lock to its
-- last. The middleware, the clock and what other goroutines do while the lock is free are given.
use pademelon.Base.{
  ℕ, ◌≡◌, ◌≢◌, refl, ◌∙◌, ap, String, Bool, false, Option, none, some, Result, List, [], ◌&&◌, not,
  ◌==◌, if◌then◌else◌, lookup, remove, lookup-insert, lookup-remove, eq_refl, eq_iff, arith, ◌⊎◌,
  inl, inr,
}
use pademelon.Model.{Vm, ZfsSnapshot}
use pademelon.Snapshots.{
  Status, State, Service, begin_fetch, begin_with, datasets_of, await_connected, collect, message,
  settle, settle_in, end_fetch, is_nil,
}
use pademelon.Actions.Snapshot.{lookup_vm}
use pademelon.Snapshots.Shown.{settle_shows}

-- What a fetch finds: the poller's machines, the answers of `Status` and how many polls fit into the
-- grace, the middleware's lists and when the budget is used up, `sort.Slice` by the time of creation,
-- the clock, and the service that the other goroutines leave behind meanwhile.
pub record Found : Type 0 where
  pub vms : List Vm
  pub status : ℕ → Status
  pub rounds : ℕ
  pub list : String → Result String (List ZfsSnapshot)
  pub expired : ℕ → Bool
  pub sort : List ZfsSnapshot → List ZfsSnapshot
  pub now : ℕ
  pub meanwhile : Service → Service

-- The status after the wait for a reconnect, which only a machine with datasets is worth.
unfoldable pub status_for : Found → List String → Status
status_for f datasets = if is_nil datasets then f.status 0 else await_connected f.rounds f.status 0

-- The queries: the rows, newest first, and the first error.
unfoldable pub query : Found → List String → Status → List ZfsSnapshot × String
query f datasets status =
    let answers = collect f.expired f.list 0 datasets ([], "") in
    if not (is_nil datasets) && status.connected then (f.sort answers.0, answers.1) else ([], "")

run_fetch : Found → String → Option (List String) × Service → Service
run_fetch f domain (none, s) = s
run_fetch f domain (some datasets, s) =
    let status = status_for f datasets in
    let rows = query f datasets status in
    end_fetch f.now status datasets rows.0 (message status datasets rows.1) domain (f.meanwhile s)

-- `fetch`.
unfoldable pub fetch : Found → String → Service → Service
unfolding run_fetch
fetch f domain s = run_fetch f domain (begin_fetch f.vms domain s)

abbrev pub is_fetching : Option State → Bool
is_fetching none = false
is_fetching (some st) = st.fetching

-- The machine is no longer marked as being fetched, and the state of any other machine is that of
-- before or what other goroutines made of it.
pub record IsOver (f : Found) (domain : String) (s after : Service) : Type 0 where
  pub ended : is_fetching (lookup domain after.states) ≡ false
  pub others :
      (other : String)
      → other ≢ domain
      → (lookup other after.states ≡ lookup other s.states)
        ⊎ (lookup other after.states ≡ lookup other (f.meanwhile s).states)

settled_done :
    (now : ℕ) (status : Status) (datasets : List String) (list : List ZfsSnapshot) (msg : String)
    (st : State)
    → (settle now status datasets list msg st).fetching ≡ false
settled_done now status datasets list msg st = (settle_shows now status datasets list msg st).0

differs : (other domain : String) → other ≢ domain → (domain == other) ≡ false
differs other domain h = ground (arith, eq_iff domain other, h)

settle_in_ended :
    (domain : String) (o : Option State) (g : State → State) (s : Service)
    → lookup domain s.states ≡ o
    → ((st : State) → (g st).fetching ≡ false)
    → is_fetching (lookup domain (settle_in domain o g s).states) ≡ false
unfolding settle_in
settle_in_ended domain none g s h done = ap is_fetching h
settle_in_ended domain (some st) g s h done =
    ap is_fetching (lookup-insert domain domain (g st) s.states) ∙ (rw (eq_refl domain) (done st))

settle_in_others :
    (domain other : String) (o : Option State) (g : State → State) (s : Service)
    → other ≢ domain
    → lookup other (settle_in domain o g s).states ≡ lookup other s.states
unfolding settle_in
settle_in_others domain other none g s h = refl
settle_in_others domain other (some st) g s h =
    lookup-insert domain other (g st) s.states ∙ (rw (differs other domain h) refl)

vanished-IsOver :
    (f : Found) (domain : String) (s : Service)
    → IsOver f domain s (record s { states = remove domain s.states })
vanished-IsOver f domain s = record {
  ended = ap is_fetching (lookup-remove domain domain s.states) ∙ (rw (eq_refl domain) refl);
  others =
      λ other h. inl (lookup-remove domain other s.states ∙ (rw (differs other domain h) refl));
}

run_fetch-IsOver :
    (f : Found) (domain : String) (d : Option (List String)) (o : Option State) (s : Service)
    → IsOver f domain s (run_fetch f domain (begin_with domain d o s))
unfolding run_fetch begin_with end_fetch
run_fetch-IsOver f domain none none s = vanished-IsOver f domain s
run_fetch-IsOver f domain none (some st) s = vanished-IsOver f domain s
run_fetch-IsOver f domain (some datasets) none s = vanished-IsOver f domain s
run_fetch-IsOver f domain (some datasets) (some st) s =
    let after = f.meanwhile s in
    let status = status_for f datasets in
    let rows = query f datasets status in
    let msg = message status datasets rows.1 in
    record {
      ended =
          settle_in_ended domain (lookup domain after.states) _ after refl
            (settled_done f.now status datasets rows.0 msg);
      others =
          λ other h. inr (settle_in_others domain other (lookup domain after.states) _ after h);
    }

-- However a fetch goes, whatever the middleware answers and whatever other goroutines do meanwhile,
-- its machine is not left marked as being fetched, so that the next request can start one; and it
-- touches the state of no other machine.
pub fetch-IsOver :
    (f : Found) (domain : String) (s : Service) → IsOver f domain s (fetch f domain s)
unfolding fetch begin_fetch
fetch-IsOver f domain s =
    run_fetch-IsOver f domain (datasets_of (lookup_vm f.vms domain)) (lookup domain s.states) s
