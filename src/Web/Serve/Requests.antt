-- ===== src/Web/Serve/Requests.antt =====
-- internal/web/web.go: what stays as it is over any requests and any turns of bulk shutdowns.
use pademelon.Base.{
  ℕ, ◌≡◌, refl, sym, ◌∙◌, String, Bool, true, false, Option, none, some, List, [], ◌∷◌, ap, Table,
  ◌==◌, if_both, any,
}
use pademelon.Model.{Vm, get}
use pademelon.Actions.Job.{Job}
use pademelon.Actions.Registry.{Moment}
use pademelon.Snapshots.{Service}
use pademelon.Web.Answers.{Response}
use pademelon.Web.Routes.{
  Route, Incoming, Server, Now, is_on, handle_refresh, handle_vm_snapshots,
  handle_refresh_snapshots, with_jobs, nudge_with, snapshots_from, refresh_from,
  handle_submit_action, handle_delete, handle_shutdown_all, handle_jobs, bulk_step, bulk_from,
}
use pademelon.Web.Serve.{serve_action, gate_action, gate_login, logged_out, serve_route, serve}
use pademelon.Web.Serve.Steady.{
  IsSteady, same-IsSteady, gate-IsSteady, jobs-IsSteady, guard-IsSteady, restore-IsSteady,
}

bulk-IsSteady : (s : Server) (l : List (List String)) → IsSteady s (record s { bulk = l })
bulk-IsSteady s l = record {
  token = refl;
  theme = refl;
  refresh = refl;
  truenas = refl;
  actions = refl;
  snaps = refl;
}

action-IsSteady :
    (n : Now) (i : Incoming) (jobs : Table Job) (route : Route) (s : Server)
    → is_on s.actions ≡ true
    → IsSteady s (serve_action n i jobs route s).1
unfolding serve_action handle_submit_action handle_delete handle_shutdown_all handle_jobs with_jobs
action-IsSteady n i jobs (Route.submit_action name verb) s on =
    guard-IsSteady i.requested_with s _ (jobs-IsSteady s _ on)
action-IsSteady n i jobs Route.bulk_shutdown s on =
    guard-IsSteady i.requested_with s _ (bulk-IsSteady s _)
action-IsSteady n i jobs Route.list_all s on = jobs-IsSteady s _ on
action-IsSteady n i jobs (Route.restore name snapshot body) s on =
    guard-IsSteady i.requested_with s _ (restore-IsSteady n s jobs name snapshot body on)
action-IsSteady n i jobs (Route.delete name snapshot) s on =
    guard-IsSteady i.requested_with s _ (jobs-IsSteady s _ on)
action-IsSteady n i jobs (Route.index path) s on = same-IsSteady s
action-IsSteady n i jobs Route.vms s on = same-IsSteady s
action-IsSteady n i jobs (Route.vm_xml name) s on = same-IsSteady s
action-IsSteady n i jobs Route.refresh s on = same-IsSteady s
action-IsSteady n i jobs Route.healthz s on = same-IsSteady s
action-IsSteady n i jobs Route.capabilities s on = same-IsSteady s
action-IsSteady n i jobs Route.truenas_status s on = same-IsSteady s
action-IsSteady n i jobs (Route.vm_snapshots name force) s on = same-IsSteady s
action-IsSteady n i jobs Route.refresh_snapshots s on = same-IsSteady s
action-IsSteady n i jobs Route.auth_check s on = same-IsSteady s
action-IsSteady n i jobs Route.auth_logout s on = same-IsSteady s

gate_action-IsSteady :
    (n : Now) (i : Incoming) (o : Option (Table Job)) (s : Server)
    → s.actions ≡ o
    → IsSteady s (gate_action n i o s).1
unfolding gate_action is_on
gate_action-IsSteady n i none s h = same-IsSteady s
gate_action-IsSteady n i (some jobs) s h =
    gate-IsSteady n i s (serve_action n i jobs i.route)
      λ a. action-IsSteady n i jobs i.route (record s { auth = a }) (ap is_on h)

gate_login-IsSteady :
    (n : Now) (i : Incoming) (s : Server) (handler : Server → Response × Server)
    → ((s' : Server) → IsSteady s' (handler s').1)
    → IsSteady s (gate_login n i handler s).1
unfolding gate_login
gate_login-IsSteady n i s handler h =
    if_both (λ (r : Response × Server). IsSteady s r.1) (s.auth.token == "")
      (λ off. same-IsSteady s) λ on. gate-IsSteady n i s handler λ a. h (record s { auth = a })

nudge-IsSteady : (s : Server) (o : Option Bool) → IsSteady s (nudge_with s o).1
unfolding nudge_with
nudge-IsSteady s none = same-IsSteady s
nudge-IsSteady s (some true) = same-IsSteady s
nudge-IsSteady s (some false) = record {
  token = refl;
  theme = refl;
  refresh = refl;
  truenas = refl;
  actions = refl;
  snaps = refl;
}

-- Another state of the snapshot service.
service-IsSteady :
    (s : Server) (service service' : Service)
    → s.snaps ≡ some service
    → IsSteady s (record s { snaps = some service' })
unfolding is_on
service-IsSteady s service service' on = record {
  token = refl;
  theme = refl;
  refresh = refl;
  truenas = refl;
  actions = refl;
  snaps = sym (ap is_on on);
}

snapshots-IsSteady :
    (n : Now) (s : Server) (name : String) (force : Bool) (o : Option Service)
    → s.snaps ≡ o
    → IsSteady s (snapshots_from n s name force o).1
unfolding snapshots_from
snapshots-IsSteady n s name force none h = same-IsSteady s
snapshots-IsSteady n s name force (some service) h = service-IsSteady s service _ h

refresh-IsSteady :
    (n : Now) (s : Server) (o : Option Service) → s.snaps ≡ o → IsSteady s (refresh_from n s o).1
unfolding refresh_from
refresh-IsSteady n s none h = same-IsSteady s
refresh-IsSteady n s (some service) h = service-IsSteady s service _ h

route-IsSteady :
    (n : Now) (i : Incoming) (route : Route) (s : Server) → IsSteady s (serve_route n i route s).1
unfolding serve_route handle_refresh handle_vm_snapshots handle_refresh_snapshots logged_out
route-IsSteady n i (Route.index path) s = same-IsSteady s
route-IsSteady n i Route.vms s = same-IsSteady s
route-IsSteady n i (Route.vm_xml name) s = same-IsSteady s
route-IsSteady n i Route.refresh s = nudge-IsSteady s s.nudge
route-IsSteady n i Route.healthz s = same-IsSteady s
route-IsSteady n i Route.capabilities s = same-IsSteady s
route-IsSteady n i Route.truenas_status s = same-IsSteady s
route-IsSteady n i (Route.vm_snapshots name force) s =
    if_both (λ (r : Response × Server). IsSteady s r.1)
      (any (λ (vm : Vm). vm.domain == name) (get s.cache).vms)
      (λ known. snapshots-IsSteady n s name force s.snaps refl) λ unknown. same-IsSteady s
route-IsSteady n i Route.refresh_snapshots s = refresh-IsSteady n s s.snaps refl
route-IsSteady n i Route.auth_check s = gate_login-IsSteady n i s _ same-IsSteady
route-IsSteady n i Route.auth_logout s = gate_login-IsSteady n i s (logged_out n i) same-IsSteady
route-IsSteady n i (Route.submit_action name verb) s = gate_action-IsSteady n i s.actions s refl
route-IsSteady n i Route.bulk_shutdown s = gate_action-IsSteady n i s.actions s refl
route-IsSteady n i Route.list_all s = gate_action-IsSteady n i s.actions s refl
route-IsSteady n i (Route.restore name snapshot body) s = gate_action-IsSteady n i s.actions s refl
route-IsSteady n i (Route.delete name snapshot) s = gate_action-IsSteady n i s.actions s refl

bulk_from-IsSteady :
    (k : ℕ) (m : Moment) (o : Option (Table Job)) (s : Server)
    → s.actions ≡ o
    → IsSteady s (bulk_from k m o s)
unfolding bulk_from is_on
bulk_from-IsSteady k m none s h = same-IsSteady s
bulk_from-IsSteady k m (some jobs) s h = record {
  token = refl;
  theme = refl;
  refresh = refl;
  truenas = refl;
  actions = sym (ap is_on h);
  snaps = refl;
}

-- What happens to a running server: a request, or the next submission of a bulk shutdown.
pub data Happening : Type 0 where
  request : Now → Incoming → Happening
  goes_on : ℕ → Moment → Happening

unfoldable pub happen : Happening → Server → Server
happen (Happening.request n i) s = (serve n i s).1
happen (Happening.goes_on k m) s = bulk_step k m s

-- What happens, one after the other.
unfoldable pub serve_all : List Happening → Server → Server
serve_all [] s = s
serve_all (h ∷ rest) s = serve_all rest (happen h s)

both-IsSteady : {a b c : Server} → IsSteady a b → IsSteady b c → IsSteady a c
both-IsSteady h k = record {
  token = k.token ∙ h.token;
  theme = k.theme ∙ h.theme;
  refresh = k.refresh ∙ h.refresh;
  truenas = k.truenas ∙ h.truenas;
  actions = k.actions ∙ h.actions;
  snaps = k.snaps ∙ h.snaps;
}

happen-IsSteady : (h : Happening) (s : Server) → IsSteady s (happen h s)
unfolding happen serve bulk_step
happen-IsSteady (Happening.request n i) s = route-IsSteady n i i.route s
happen-IsSteady (Happening.goes_on k m) s = bulk_from-IsSteady k m s.actions s refl

pub serve_all-IsSteady :
    (happenings : List Happening) (s : Server) → IsSteady s (serve_all happenings s)
unfolding serve_all
serve_all-IsSteady [] s = same-IsSteady s
serve_all-IsSteady (h ∷ rest) s =
    both-IsSteady (happen-IsSteady h s) (serve_all-IsSteady rest (happen h s))
