-- ===== src/Web/Serve.antt =====
-- internal/web/web.go: `Handler`, which route has which handler, and which of them stand behind the
-- token, the header, or both.
pub mod Guarded
pub mod Turns
pub mod Submitted
pub mod Accepted
pub mod Steady
pub mod Requests
use pademelon.Base.{
  ℕ, String, Bool, true, false, Option, none, some, List, [], ◌∷◌, Table, ◌==◌, if◌then◌else◌,
}
use pademelon.Model.{get}
use pademelon.Actions.Job.{Job}
use pademelon.Web.Auth.{
  AuthState, Request, Cookie, Passage, served, unauthorized, require_token, clear_session_cookie,
}
use pademelon.Web.Answers.{Body, Response, answer, not_found}
use pademelon.Web.Routes.{
  Route, Incoming, Server, Now, RestoreBody, find_xml, handle_index, handle_vms, handle_refresh,
  handle_health, handle_capabilities, handle_vm_snapshots, handle_refresh_snapshots, csrf_guard,
  handle_submit_action, handle_restore, handle_delete, handle_shutdown_all, handle_jobs,
}

with_cookie : Option Cookie → Response × Server → Response × Server
with_cookie none r = r
with_cookie (some c) (response, s) = (record response { cookies = c ∷ response.cookies }, s)

gate_with : Passage × AuthState → Server → (Server → Response × Server) → Response × Server
unfolding with_cookie
gate_with (served c, a) s handler = with_cookie c (handler (record s { auth = a }))
gate_with (unauthorized delay, a) s handler =
    (answer 401 (Body.text "unauthorized\n"), record s { auth = a })

-- `s.requireToken(handler)`.
unfoldable pub gate : Now → Incoming → Server → (Server → Response × Server) → Response × Server
unfolding gate_with
gate n i s handler = gate_with (require_token n.cookie_age n.time s.auth i.auth) s handler

-- The routes that are there only with actions, on the table of jobs.
unfoldable pub serve_action : Now → Incoming → Table Job → Route → Server → Response × Server
serve_action n i jobs (Route.submit_action name verb) s =
    csrf_guard i.requested_with s (handle_submit_action n s jobs name verb)
serve_action n i jobs Route.bulk_shutdown s =
    csrf_guard i.requested_with s (handle_shutdown_all n s)
serve_action n i jobs Route.list_all s = handle_jobs n s jobs
serve_action n i jobs (Route.restore name snapshot body) s =
    csrf_guard i.requested_with s (handle_restore n s jobs name snapshot body)
serve_action n i jobs (Route.delete name snapshot) s =
    csrf_guard i.requested_with s (handle_delete n s jobs name snapshot)
serve_action n i jobs route s = (n.unmatched route, s)

gate_action : Now → Incoming → Option (Table Job) → Server → Response × Server
gate_action n i none s = (n.unmatched i.route, s)
gate_action n i (some jobs) s = gate n i s (serve_action n i jobs i.route)

-- The routes that are there only with a token.
gate_login : Now → Incoming → (Server → Response × Server) → Server → Response × Server
gate_login n i handler s =
    if s.auth.token == "" then (n.unmatched i.route, s) else gate n i s handler

logged_out : Now → Incoming → Server → Response × Server
logged_out n i s = (
  record {
    status = 200;
    body = Body.logged_out;
    cookies = clear_session_cookie n.cookie_age s.auth i.auth ∷ [];
  },
  s,
)

serve_route : Now → Incoming → Route → Server → Response × Server
unfolding gate_action gate_login logged_out
serve_route n i (Route.index path) s = (handle_index n s path, s)
serve_route n i Route.vms s = (handle_vms s, s)
serve_route n i (Route.vm_xml name) s = (find_xml name (get s.cache).vms, s)
serve_route n i Route.refresh s = handle_refresh s
serve_route n i Route.healthz s = (handle_health s, s)
serve_route n i Route.capabilities s = (handle_capabilities s, s)
serve_route n i Route.truenas_status s = (answer 200 (Body.truenas s.truenas), s)
serve_route n i (Route.vm_snapshots name force) s = handle_vm_snapshots n s name force
serve_route n i Route.refresh_snapshots s = handle_refresh_snapshots n s
serve_route n i Route.auth_check s = gate_login n i (λ s'. (answer 200 Body.authenticated, s')) s
serve_route n i Route.auth_logout s = gate_login n i (logged_out n i) s
serve_route n i route s = gate_action n i s.actions s

-- `Handler`, on one request.
unfoldable pub serve : Now → Incoming → Server → Response × Server
unfolding serve_route
serve n i s = serve_route n i i.route s
