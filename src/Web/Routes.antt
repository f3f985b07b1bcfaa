-- ===== src/Web/Routes.antt =====
-- internal/web/web.go, actions_routes.go and truenas_routes.go: the routes and their handlers. Which
-- pattern a request fits is `net/http`'s answer; here it comes as a `Route`, with the path's values.
use pademelon.Base.{
  ℕ, zero, suc, ℤ, quotient, String, Bool, true, false, Option, none, some, List, [], ◌∷◌, Table,
  not, any, ◌==◌, if◌then◌else◌, length,
}
use pademelon.Clocks.{millisecond}
use pademelon.Model.{Vm, Cache, get}
use pademelon.Actions.Job.{Job}
use pademelon.Actions.Registry.{Moment, Answer, submit, submit_restore, submit_delete}
use pademelon.Actions.Registry.Oldest.{list_jobs}
use pademelon.Actions.Registry.Bulk.{shutdown_all, submit_next}
use pademelon.Snapshots.{Service, State, request, refresh_all}
use pademelon.Web.Auth.{AuthState, Request}
use pademelon.Web.Page.{themed}
use pademelon.Web.Answers.{
  TruenasView, SnapshotsView, Body, Response, answer, not_found, submit_response, restore_response,
  delete_response,
}

-- The body of a restore.
pub record RestoreBody : Type 0 where
  pub mode : String
  pub start_after : Bool
  pub ack : Bool

-- The patterns of `Handler`, in its order, with what the handlers read of the request.
pub data Route : Type 0 where
  index : String → Route
  vms : Route
  vm_xml : String → Route
  refresh : Route
  healthz : Route
  capabilities : Route
  truenas_status : Route
  vm_snapshots : String → Bool → Route
  refresh_snapshots : Route
  submit_action : String → String → Route
  bulk_shutdown : Route
  list_all : Route
  restore : String → String → Option RestoreBody → Route
  delete : String → String → Route
  auth_check : Route
  auth_logout : Route

-- A request: its route, the value of the header `X-Requested-With`, and what the gate reads.
pub record Incoming : Type 0 where
  pub route : Route
  pub requested_with : String
  pub auth : Request

-- `Server`; `none` is a part that is off. The nudge is its slot, and `bulk` has, for each goroutine
-- that `ShutdownAll` started, the machines that it still has to submit.
pub record Server : Type 0 where
  pub cache : Cache
  pub theme : String
  pub auth : AuthState
  pub nudge : Option Bool
  pub actions : Option (Table Job)
  pub bulk : List (List String)
  pub truenas : Option TruenasView
  pub snaps : Option Service
  pub snap_refresh : ℤ

-- What a handler finds: the clock, the lifetime of a cookie, the floor of fetches, the moment of a
-- submission, what the mux answers on a route that is not registered, and the embedded page.
pub record Now : Type 0 where
  pub time : ℕ
  pub cookie_age : ℕ
  pub refetch_floor : ℕ
  pub moment : Moment
  pub unmatched : Route → Response
  pub index_html : String

abbrev pub text_or_xml : String → Response
text_or_xml xml = if xml == "" then not_found else answer 200 (Body.xml xml)

-- The loop of `handleVMXML`: the first machine of that name decides.
unfoldable pub find_xml : String → List Vm → Response
find_xml name [] = not_found
find_xml name (vm ∷ rest) =
    let later = find_xml name rest in if vm.domain == name then text_or_xml vm.xml else later

unfoldable pub nudge_with : Server → Option Bool → Response × Server
nudge_with s none = (answer 200 (Body.text "ok\n"), s)
nudge_with s (some true) = (answer 200 (Body.text "already nudged\n"), s)
nudge_with s (some false) = (answer 200 (Body.text "nudged\n"), record s { nudge = some true })

-- `handleIndex`.
unfoldable pub handle_index : Now → Server → String → Response
handle_index n s path =
    if path == "/" then answer 200 (Body.page (themed s.theme n.index_html)) else not_found

-- `handleVMs`.
unfoldable pub handle_vms : Server → Response
handle_vms s = answer 200 (Body.vms (get s.cache))

-- `handleRefresh`.
unfoldable pub handle_refresh : Server → Response × Server
unfolding nudge_with
handle_refresh s = nudge_with s s.nudge

-- `handleHealth`.
unfoldable pub handle_health : Server → Response
handle_health s =
    if (get s.cache).connected
    then answer 200 (Body.text "ok\n")
    else answer 503 (Body.text "libvirt disconnected\n")

unfoldable pub is_on : {A : Type 0} → Option A → Bool
is_on none = false
is_on (some a) = true

-- `handleCapabilities`.
unfoldable pub handle_capabilities : Server → Response
unfolding is_on
handle_capabilities s = answer 200 (
    Body.capabilities (is_on s.actions) (not (s.auth.token == "")) false (is_on s.truenas)
      (quotient s.snap_refresh millisecond))

view_of : State → SnapshotsView
view_of st = record {
  fetched = st.fetched_at;
  fetching = st.fetching;
  stale = st.stale;
  error = st.err;
  connected = st.status.connected;
  snapshots = st.snapshots;
}

unfoldable pub snapshots_from : Now → Server → String → Bool → Option Service → Response × Server
unfolding view_of
snapshots_from n s name force none = (answer 200 (Body.snapshots name none), s)
snapshots_from n s name force (some service) =
    let r = request n.refetch_floor n.time name force service in
    (answer 200 (Body.snapshots name (some (view_of r.0))), record s { snaps = some r.2 })

-- `handleVMSnapshots`; the fetch that a request may start runs on its own.
unfoldable pub handle_vm_snapshots : Now → Server → String → Bool → Response × Server
unfolding snapshots_from
handle_vm_snapshots n s name force =
    if any (λ (vm : Vm). vm.domain == name) (get s.cache).vms
    then snapshots_from n s name force s.snaps
    else (not_found, s)

unfoldable pub refresh_from : Now → Server → Option Service → Response × Server
refresh_from n s none = (answer 503 (Body.text "middleware integration is off\n"), s)
refresh_from n s (some service) =
    let r = refresh_all n.refetch_floor n.time (get s.cache).vms service in
    (answer 200 (Body.requested (length r.0)), record s { snaps = some r.1 })

-- `handleRefreshSnapshots`.
unfoldable pub handle_refresh_snapshots : Now → Server → Response × Server
unfolding refresh_from
handle_refresh_snapshots n s = refresh_from n s s.snaps

-- `csrfGuard`.
unfoldable pub csrf_guard : String → Server → Response × Server → Response × Server
csrf_guard requested_with s handled =
    if requested_with == ""
    then (answer 403 (Body.text "missing X-Requested-With header\n"), s)
    else handled

unfoldable pub with_jobs : Server → (Answer → Response) → Answer × Table Job → Response × Server
with_jobs s respond (a, jobs) = (respond a, record s { actions = some jobs })

-- `handleSubmitAction`, `handleRestore` and `handleDelete`, on the table of jobs.
unfoldable pub handle_submit_action : Now → Server → Table Job → String → String → Response × Server
unfolding with_jobs
handle_submit_action n s jobs name verb =
    with_jobs s submit_response (submit n.moment name verb jobs)

unfoldable pub handle_restore :
    Now → Server → Table Job → String → String → Option RestoreBody → Response × Server
unfolding with_jobs
handle_restore n s jobs name snapshot none =
    (answer 400 (Body.error "restore needs a JSON body: {mode, startAfter, ack}"), s)
handle_restore n s jobs name snapshot (some b) = with_jobs s restore_response (
    submit_restore n.moment name
      (record { snapshot_id = snapshot; mode = b.mode; start_after = b.start_after; ack = b.ack })
      jobs)

unfoldable pub handle_delete : Now → Server → Table Job → String → String → Response × Server
unfolding with_jobs
handle_delete n s jobs name snapshot =
    with_jobs s delete_response (submit_delete n.moment name snapshot jobs)

unfoldable pub start_bulk : List String → List (List String) → List (List String)
start_bulk [] bulk = bulk
start_bulk (name ∷ rest) bulk = (name ∷ rest) ∷ bulk

-- `handleShutdownAll`, with the goroutine that `ShutdownAll` starts for its plan.
unfoldable pub handle_shutdown_all : Now → Server → Response × Server
handle_shutdown_all n s =
    let p = shutdown_all n.moment.snapshot.vms in
    (answer 200 (Body.plan p.0 p.1), record s { bulk = start_bulk p.0 s.bulk })

unfoldable pub bulk_turn :
    ℕ → Moment → List (List String) → Table Job → List (List String) × Table Job
bulk_turn k m [] jobs = ([], jobs)
bulk_turn zero m (names ∷ others) jobs = let r = submit_next m names jobs in (r.0 ∷ others, r.1)
bulk_turn (suc k) m (names ∷ others) jobs = let r = bulk_turn k m others jobs in (names ∷ r.0, r.1)

unfoldable pub bulk_from : ℕ → Moment → Option (Table Job) → Server → Server
bulk_from k m none s = s
bulk_from k m (some jobs) s =
    let r = bulk_turn k m s.bulk jobs in record s { actions = some r.1; bulk = r.0 }

-- The next submission of the goroutine at place `k`, at its moment.
unfoldable pub bulk_step : ℕ → Moment → Server → Server
unfolding bulk_from
bulk_step k m s = bulk_from k m s.actions s

-- `handleJobs`.
unfoldable pub handle_jobs : Now → Server → Table Job → Response × Server
handle_jobs n s jobs =
    let l = list_jobs n.time jobs in (answer 200 (Body.jobs l.0), record s { actions = some l.1 })
