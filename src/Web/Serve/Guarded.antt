-- ===== src/Web/Serve/Guarded.antt =====
-- Who can change the jobs, and what bulk shutdowns have still to submit, over HTTP.
use pademelon.Base.{
  ap, ◌≡◌, ◌⊎◌, inl, inr, refl, String, Bool, true, false, Option, none, some, Table, ◌==◌,
  Bool-cases, any, if_both,
}
use pademelon.Model.{Vm, get}
use pademelon.Actions.Job.{Job}
use pademelon.Snapshots.{Service}
use pademelon.Web.Auth.{AuthState, Cookie, Passage, served, unauthorized, require_token}
use pademelon.Web.Auth.Gate.{IsServed}
use pademelon.Web.Answers.{Response}
use pademelon.Web.Routes.{
  Route, Incoming, Server, Now, is_on, handle_refresh, handle_vm_snapshots,
  handle_refresh_snapshots, csrf_guard, nudge_with, snapshots_from, refresh_from,
}
use pademelon.Web.Serve.{
  with_cookie, gate_with, gate, serve_action, gate_action, gate_login, logged_out, serve_route,
  serve,
}

-- Actions are on, and the request passes the gate and has the header or only asks for the list.
pub record IsEntitled (n : Now) (i : Incoming) (s : Server) : Type 0 where
  pub on : is_on s.actions ≡ true
  pub token : IsServed (require_token n.cookie_age n.time s.auth i.auth).0
  pub header : ((i.requested_with == "") ≡ false) ⊎ (i.route ≡ Route.list_all)

-- The same table of jobs, and the same machines that bulk shutdowns have still to submit.
abbrev pub SameJobs : Server → Server → Type 0
SameJobs s s' = (s'.actions ≡ s.actions) × (s'.bulk ≡ s.bulk)

abbrev Keeps : Server → Response × Server → Type 0
Keeps s r = SameJobs s r.1

cookie-Keeps :
    (c : Option Cookie) (s : Server) (r : Response × Server) → Keeps s r → Keeps s (with_cookie c r)
unfolding with_cookie
cookie-Keeps none s r h = h
cookie-Keeps (some c) s (response, s') h = h

gated :
    (p : Passage × AuthState) (s : Server) (handler : Server → Response × Server) (Q : Type 0)
    → ((a : AuthState) → Keeps s (handler (record s { auth = a })) ⊎ Q)
    → Keeps s (gate_with p s handler) ⊎ (IsServed p.0 × Q)
unfolding gate_with
gated (served c, a) s handler Q h = elim (h a) [
  | inl kept ↦ inl (cookie-Keeps c s (handler (record s { auth = a })) kept)
  | inr q ↦ inr (tt, q)
]
gated (unauthorized delay, a) s handler Q h = inl (refl, refl)

-- A handler behind the header keeps the jobs unless the header is there.
headed :
    (header : String) (s s' : Server) (handled : Response × Server)
    → SameJobs s s'
    → Keeps s (csrf_guard header s' handled) ⊎ ((header == "") ≡ false)
unfolding csrf_guard
headed header s s' handled same = elim (Bool-cases (header == "")) [
  | inl absent ↦ inl (rw absent same)
  | inr present ↦ inr present
]

abbrev Header : Incoming → Route → Type 0
Header i route = ((i.requested_with == "") ≡ false) ⊎ (route ≡ Route.list_all)

weaken : {A B C : Type 0} → (B → C) → A ⊎ B → A ⊎ C
weaken f (inl a) = inl a
weaken f (inr b) = inr (f b)

action-Keeps :
    (n : Now) (i : Incoming) (jobs : Table Job) (route : Route) (s : Server) (a : AuthState)
    → Keeps s (serve_action n i jobs route (record s { auth = a })) ⊎ Header i route
unfolding serve_action
action-Keeps n i jobs (Route.submit_action name verb) s a =
    weaken inl (headed i.requested_with s (record s { auth = a }) _ (refl, refl))
action-Keeps n i jobs Route.bulk_shutdown s a =
    weaken inl (headed i.requested_with s (record s { auth = a }) _ (refl, refl))
action-Keeps n i jobs Route.list_all s a = inr (inr refl)
action-Keeps n i jobs (Route.restore name snapshot body) s a =
    weaken inl (headed i.requested_with s (record s { auth = a }) _ (refl, refl))
action-Keeps n i jobs (Route.delete name snapshot) s a =
    weaken inl (headed i.requested_with s (record s { auth = a }) _ (refl, refl))
action-Keeps n i jobs (Route.index path) s a = inl (refl, refl)
action-Keeps n i jobs Route.vms s a = inl (refl, refl)
action-Keeps n i jobs (Route.vm_xml name) s a = inl (refl, refl)
action-Keeps n i jobs Route.refresh s a = inl (refl, refl)
action-Keeps n i jobs Route.healthz s a = inl (refl, refl)
action-Keeps n i jobs Route.capabilities s a = inl (refl, refl)
action-Keeps n i jobs Route.truenas_status s a = inl (refl, refl)
action-Keeps n i jobs (Route.vm_snapshots name force) s a = inl (refl, refl)
action-Keeps n i jobs Route.refresh_snapshots s a = inl (refl, refl)
action-Keeps n i jobs Route.auth_check s a = inl (refl, refl)
action-Keeps n i jobs Route.auth_logout s a = inl (refl, refl)

gate_action-Keeps :
    (n : Now) (i : Incoming) (o : Option (Table Job)) (s : Server)
    → s.actions ≡ o
    → Keeps s (gate_action n i o s) ⊎ IsEntitled n i s
unfolding gate_action gate is_on
gate_action-Keeps n i none s h = inl (refl, refl)
gate_action-Keeps n i (some jobs) s h =
    weaken
      (λ (q : IsServed (require_token n.cookie_age n.time s.auth i.auth).0 × Header i i.route).
        record { on = ap is_on h; token = q.0; header = q.1 })
      (gated (require_token n.cookie_age n.time s.auth i.auth) s (serve_action n i jobs i.route)
        (Header i i.route) (action-Keeps n i jobs i.route s))

gate_login-Keeps :
    (n : Now) (i : Incoming) (s : Server) (handler : Server → Response × Server)
    → ((s' : Server) → SameJobs s' (handler s').1)
    → Keeps s (gate_login n i handler s)
unfolding gate_login gate
gate_login-Keeps n i s handler h =
    if_both (λ (r : Response × Server). Keeps s r) (s.auth.token == "") (λ off. (refl, refl))
      λ on. left_only (
        gated (require_token n.cookie_age n.time s.auth i.auth) s handler ⊥
          (λ a. inl (h (record s { auth = a }))))
  where
    left_only : {A B : Type 0} → A ⊎ (B × ⊥) → A
    left_only (inl a) = a
    left_only (inr x) = absurd x.1

nudge-Keeps : (s : Server) (o : Option Bool) → Keeps s (nudge_with s o)
unfolding nudge_with
nudge-Keeps s none = (refl, refl)
nudge-Keeps s (some true) = (refl, refl)
nudge-Keeps s (some false) = (refl, refl)

snapshots_keep :
    (n : Now) (s : Server) (name : String) (force : Bool) (o : Option Service)
    → Keeps s (snapshots_from n s name force o)
unfolding snapshots_from
snapshots_keep n s name force none = (refl, refl)
snapshots_keep n s name force (some service) = (refl, refl)

refresh-Keeps : (n : Now) (s : Server) (o : Option Service) → Keeps s (refresh_from n s o)
unfolding refresh_from
refresh-Keeps n s none = (refl, refl)
refresh-Keeps n s (some service) = (refl, refl)

route-Keeps :
    (n : Now) (i : Incoming) (route : Route) (s : Server)
    → Keeps s (serve_route n i route s) ⊎ IsEntitled n i s
unfolding serve_route handle_refresh handle_vm_snapshots handle_refresh_snapshots logged_out
route-Keeps n i (Route.index path) s = inl (refl, refl)
route-Keeps n i Route.vms s = inl (refl, refl)
route-Keeps n i (Route.vm_xml name) s = inl (refl, refl)
route-Keeps n i Route.refresh s = inl (nudge-Keeps s s.nudge)
route-Keeps n i Route.healthz s = inl (refl, refl)
route-Keeps n i Route.capabilities s = inl (refl, refl)
route-Keeps n i Route.truenas_status s = inl (refl, refl)
route-Keeps n i (Route.vm_snapshots name force) s = inl (
    if_both (Keeps s) (any (λ (vm : Vm). vm.domain == name) (get s.cache).vms)
      (λ known. snapshots_keep n s name force s.snaps) λ unknown. (refl, refl))
route-Keeps n i Route.refresh_snapshots s = inl (refresh-Keeps n s s.snaps)
route-Keeps n i Route.auth_check s = inl (gate_login-Keeps n i s _ λ s'. (refl, refl))
route-Keeps n i Route.auth_logout s =
    inl (gate_login-Keeps n i s (logged_out n i) λ s'. (refl, refl))
route-Keeps n i (Route.submit_action name verb) s = gate_action-Keeps n i s.actions s refl
route-Keeps n i Route.bulk_shutdown s = gate_action-Keeps n i s.actions s refl
route-Keeps n i Route.list_all s = gate_action-Keeps n i s.actions s refl
route-Keeps n i (Route.restore name snapshot body) s = gate_action-Keeps n i s.actions s refl
route-Keeps n i (Route.delete name snapshot) s = gate_action-Keeps n i s.actions s refl

-- Whatever the route, a request leaves the table of jobs and what bulk shutdowns have still to submit
-- as they are, unless actions are on and it passes the token gate and either has the header `X-Requested-With` or only
-- asks for the list of jobs, which sweeps it.
pub jobs_guarded :
    (n : Now) (i : Incoming) (s : Server) → SameJobs s (serve n i s).1 ⊎ IsEntitled n i s
unfolding serve
jobs_guarded n i s = route-Keeps n i i.route s
