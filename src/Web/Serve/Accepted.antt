-- ===== src/Web/Serve/Accepted.antt =====
-- What an accepted request was: the answer 202 of the action routes.
use pademelon.Base.{
  ◌≡◌, ◌≢◌, String, Bool, true, false, Option, none, some, Table, ◌==◌, arith, if_both, any, List,
  [], ◌∷◌,
}
use pademelon.Model.{Vm, get}
use pademelon.Snapshots.{Service}
use pademelon.Actions.Job.{Job}
use pademelon.Actions.Registry.Entered.{
  submit-IsEntered, submit_restore-IsEntered, submit_delete-IsEntered,
}
use pademelon.Web.Answers.{Response}
use pademelon.Web.Routes.{
  Route, RestoreBody, Incoming, Server, Now, csrf_guard, handle_submit_action, handle_restore,
  handle_delete, handle_shutdown_all, handle_jobs, find_xml, handle_refresh, handle_health,
  handle_index, handle_vms, handle_capabilities, handle_vm_snapshots, handle_refresh_snapshots,
  nudge_with, snapshots_from, refresh_from,
}
use pademelon.Web.Auth.{AuthState, Cookie, Passage, served, unauthorized, require_token}
use pademelon.Web.Serve.{
  with_cookie, gate_with, gate, serve_action, gate_action, gate_login, logged_out, serve_route,
  serve,
}
use pademelon.Web.Serve.Submitted.{
  IsAccepted, submit-IsAccepted, restore-IsAccepted, delete-IsAccepted,
}

-- An answer of 202 is one of a job that was entered.
abbrev Honest : Response × Server → Type 0
Honest r = r.0.status ≡ 202 → IsAccepted r

headed-Honest :
    (header : String) (s : Server) (r : Response × Server)
    → Honest r
    → Honest (csrf_guard header s r)
unfolding csrf_guard
headed-Honest header s r f =
    if_both Honest (header == "") (λ absent h. absurd (omega arith)) λ present. f

restore-Honest :
    (n : Now) (s : Server) (jobs : Table Job) (name snapshot : String) (o : Option RestoreBody)
    → Honest (handle_restore n s jobs name snapshot o)
unfolding handle_restore
restore-Honest n s jobs name snapshot none h = absurd (omega arith)
restore-Honest n s jobs name snapshot (some b) h =
    restore-IsAccepted s _ (submit_restore-IsEntered n.moment name _ jobs) h

action-Honest :
    (n : Now) (i : Incoming) (jobs : Table Job) (route : Route) (s : Server)
    → (n.unmatched route).status ≢ 202
    → Honest (serve_action n i jobs route s)
unfolding serve_action handle_submit_action handle_delete handle_shutdown_all handle_jobs
action-Honest n i jobs (Route.submit_action name verb) s u =
    headed-Honest i.requested_with s _
      (submit-IsAccepted s _ (submit-IsEntered n.moment name verb jobs))
action-Honest n i jobs Route.bulk_shutdown s u =
    headed-Honest i.requested_with s _ (λ h. absurd (omega arith))
action-Honest n i jobs Route.list_all s u = λ h. absurd (omega arith)
action-Honest n i jobs (Route.restore name snapshot body) s u =
    headed-Honest i.requested_with s _ (restore-Honest n s jobs name snapshot body)
action-Honest n i jobs (Route.delete name snapshot) s u =
    headed-Honest i.requested_with s _
      (delete-IsAccepted s _ (submit_delete-IsEntered n.moment name snapshot jobs))
action-Honest n i jobs (Route.index path) s u = λ h. absurd (u h)
action-Honest n i jobs Route.vms s u = λ h. absurd (u h)
action-Honest n i jobs (Route.vm_xml name) s u = λ h. absurd (u h)
action-Honest n i jobs Route.refresh s u = λ h. absurd (u h)
action-Honest n i jobs Route.healthz s u = λ h. absurd (u h)
action-Honest n i jobs Route.capabilities s u = λ h. absurd (u h)
action-Honest n i jobs Route.truenas_status s u = λ h. absurd (u h)
action-Honest n i jobs (Route.vm_snapshots name force) s u = λ h. absurd (u h)
action-Honest n i jobs Route.refresh_snapshots s u = λ h. absurd (u h)
action-Honest n i jobs Route.auth_check s u = λ h. absurd (u h)
action-Honest n i jobs Route.auth_logout s u = λ h. absurd (u h)

cookie-Honest : (c : Option Cookie) (r : Response × Server) → Honest r → Honest (with_cookie c r)
unfolding with_cookie
cookie-Honest none r f = f
cookie-Honest (some c) (response, s) f = λ h.
    let a = f h in
    record { job = a.job; jobs = a.jobs; told = a.told; left = a.left; held = a.held }

gated-Honest :
    (p : Passage × AuthState) (s : Server) (handler : Server → Response × Server)
    → ((s' : Server) → Honest (handler s'))
    → Honest (gate_with p s handler)
unfolding gate_with
gated-Honest (served c, a) s handler f =
    cookie-Honest c (handler (record s { auth = a })) (f (record s { auth = a }))
gated-Honest (unauthorized delay, a) s handler f = λ h. absurd (omega arith)

gate_action-Honest :
    (n : Now) (i : Incoming) (o : Option (Table Job)) (s : Server)
    → (n.unmatched i.route).status ≢ 202
    → Honest (gate_action n i o s)
unfolding gate_action gate
gate_action-Honest n i none s u = λ h. absurd (u h)
gate_action-Honest n i (some jobs) s u =
    gated-Honest (require_token n.cookie_age n.time s.auth i.auth) s (serve_action n i jobs i.route)
      λ s'. action-Honest n i jobs i.route s' u

gate_login-Honest :
    (n : Now) (i : Incoming) (s : Server) (handler : Server → Response × Server)
    → (n.unmatched i.route).status ≢ 202
    → ((s' : Server) → Honest (handler s'))
    → Honest (gate_login n i handler s)
unfolding gate_login gate
gate_login-Honest n i s handler u f =
    if_both Honest (s.auth.token == "") (λ off h. absurd (u h))
      λ on. gated-Honest (require_token n.cookie_age n.time s.auth i.auth) s handler f

-- The routes that are open to all never answer 202.
abbrev Open : Response × Server → Type 0
Open r = r.0.status ≢ 202

xml_open : (name : String) (l : List Vm) → (find_xml name l).status ≢ 202
unfolding find_xml
xml_open name [] = λ h. omega arith
xml_open name (vm ∷ rest) =
    if_both (λ (r : Response). r.status ≢ 202) (vm.domain == name)
      (λ here.
        if_both (λ (r : Response). r.status ≢ 202) (vm.xml == "") (λ empty h. omega arith)
          λ full h. omega arith)
      λ later. xml_open name rest

nudge-Open : (s : Server) (o : Option Bool) → Open (nudge_with s o)
unfolding nudge_with
nudge-Open s none h = omega arith
nudge-Open s (some true) h = omega arith
nudge-Open s (some false) h = omega arith

snapshots-Open :
    (n : Now) (s : Server) (name : String) (force : Bool) (o : Option Service)
    → Open (snapshots_from n s name force o)
unfolding snapshots_from
snapshots-Open n s name force none h = omega arith
snapshots-Open n s name force (some service) h = omega arith

refresh-Open : (n : Now) (s : Server) (o : Option Service) → Open (refresh_from n s o)
unfolding refresh_from
refresh-Open n s none h = omega arith
refresh-Open n s (some service) h = omega arith

route-Honest :
    (n : Now) (i : Incoming) (route : Route) (s : Server)
    → (n.unmatched i.route).status ≢ 202
    → Honest (serve_route n i route s)
unfolding serve_route handle_refresh handle_vm_snapshots handle_refresh_snapshots logged_out
    handle_health handle_capabilities handle_index handle_vms
route-Honest n i (Route.index path) s u h = absurd (
    if_both (λ (r : Response). r.status ≢ 202) (path == "/") (λ e h'. omega arith)
      (λ e h'. omega arith) h)
route-Honest n i Route.vms s u h = absurd (omega arith)
route-Honest n i (Route.vm_xml name) s u h = absurd (xml_open name (get s.cache).vms h)
route-Honest n i Route.refresh s u h = absurd (nudge-Open s s.nudge h)
route-Honest n i Route.healthz s u h = absurd (
    if_both (λ (r : Response). r.status ≢ 202) (get s.cache).connected (λ e h'. omega arith)
      (λ e h'. omega arith) h)
route-Honest n i Route.capabilities s u h = absurd (omega arith)
route-Honest n i Route.truenas_status s u h = absurd (omega arith)
route-Honest n i (Route.vm_snapshots name force) s u h = absurd (
    if_both Open (any (λ (vm : Vm). vm.domain == name) (get s.cache).vms)
      (λ known. snapshots-Open n s name force s.snaps) (λ unknown h'. omega arith) h)
route-Honest n i Route.refresh_snapshots s u h = absurd (refresh-Open n s s.snaps h)
route-Honest n i Route.auth_check s u h =
    gate_login-Honest n i s _ u (λ s' h'. absurd (omega arith)) h
route-Honest n i Route.auth_logout s u h =
    gate_login-Honest n i s (logged_out n i) u (λ s' h'. absurd (omega arith)) h
route-Honest n i (Route.submit_action name verb) s u h = gate_action-Honest n i s.actions s u h
route-Honest n i Route.bulk_shutdown s u h = gate_action-Honest n i s.actions s u h
route-Honest n i Route.list_all s u h = gate_action-Honest n i s.actions s u h
route-Honest n i (Route.restore name snapshot body) s u h = gate_action-Honest n i s.actions s u h
route-Honest n i (Route.delete name snapshot) s u h = gate_action-Honest n i s.actions s u h

-- Where the mux itself does not answer 202 for a route that is not registered, an answer 202 to any
-- request carries a job, and the table of jobs that the request leaves holds that job under its id.
pub serve-IsAccepted :
    (n : Now) (i : Incoming) (s : Server)
    → (n.unmatched i.route).status ≢ 202
    → (serve n i s).0.status ≡ 202
    → IsAccepted (serve n i s)
unfolding serve
serve-IsAccepted n i s u h = route-Honest n i i.route s u h
