-- ===== src/Web/Serve/Steady.antt =====
-- internal/web/web.go: what no request changes.
use pademelon.Base.{◌≡◌, refl, sym, ◌∙◌, String, true, Option, none, some, Table, ◌==◌, if_both}
use pademelon.Actions.Job.{Job}
use pademelon.Web.Auth.{AuthState, Cookie, Passage, served, unauthorized, require_token}
use pademelon.Web.Auth.Gate.{require_token_keeps}
use pademelon.Web.Answers.{Response}
use pademelon.Web.Routes.{
  RestoreBody, Incoming, Server, Now, is_on, csrf_guard, with_jobs, handle_restore,
}
use pademelon.Web.Serve.{with_cookie, gate_with, gate}

-- The token, the theme, the interval that the page is told, the status it reads, and which of the
-- other parts are on.
pub record IsSteady (s s' : Server) : Type 0 where
  pub token : s'.auth.token ≡ s.auth.token
  pub theme : s'.theme ≡ s.theme
  pub refresh : s'.snap_refresh ≡ s.snap_refresh
  pub truenas : s'.truenas ≡ s.truenas
  pub actions : is_on s'.actions ≡ is_on s.actions
  pub snaps : is_on s'.snaps ≡ is_on s.snaps

pub same-IsSteady : (s : Server) → IsSteady s s
same-IsSteady s = record {
  token = refl;
  theme = refl;
  refresh = refl;
  truenas = refl;
  actions = refl;
  snaps = refl;
}

cookie-IsSteady :
    (c : Option Cookie) (s : Server) (r : Response × Server)
    → IsSteady s r.1
    → IsSteady s (with_cookie c r).1
unfolding with_cookie
cookie-IsSteady none s r h = h
cookie-IsSteady (some c) s (response, s') h = h

-- What a handler behind the gate keeps, the gate with it keeps too.
gate_with-IsSteady :
    (p : Passage × AuthState) (s : Server) (handler : Server → Response × Server)
    → p.1.token ≡ s.auth.token
    → ((a : AuthState) → IsSteady (record s { auth = a }) (handler (record s { auth = a })).1)
    → IsSteady s (gate_with p s handler).1
unfolding gate_with
gate_with-IsSteady (served c, a) s handler e h =
    let k = h a in
    cookie-IsSteady c s (handler (record s { auth = a })) (record {
      token = k.token ∙ e;
      theme = k.theme;
      refresh = k.refresh;
      truenas = k.truenas;
      actions = k.actions;
      snaps = k.snaps;
    })
gate_with-IsSteady (unauthorized delay, a) s handler e h = record {
  token = e;
  theme = refl;
  refresh = refl;
  truenas = refl;
  actions = refl;
  snaps = refl;
}

pub gate-IsSteady :
    (n : Now) (i : Incoming) (s : Server) (handler : Server → Response × Server)
    → ((a : AuthState) → IsSteady (record s { auth = a }) (handler (record s { auth = a })).1)
    → IsSteady s (gate n i s handler).1
unfolding gate
gate-IsSteady n i s handler h =
    gate_with-IsSteady (require_token n.cookie_age n.time s.auth i.auth) s handler
      (require_token_keeps n.cookie_age n.time s.auth i.auth) h

-- New jobs in place of old ones.
pub jobs-IsSteady :
    (s : Server) (jobs : Table Job)
    → is_on s.actions ≡ true
    → IsSteady s (record s { actions = some jobs })
unfolding is_on
jobs-IsSteady s jobs on = record {
  token = refl;
  theme = refl;
  refresh = refl;
  truenas = refl;
  actions = sym on;
  snaps = refl;
}

pub guard-IsSteady :
    (header : String) (s : Server) (handled : Response × Server)
    → IsSteady s handled.1
    → IsSteady s (csrf_guard header s handled).1
unfolding csrf_guard
guard-IsSteady header s handled h =
    if_both (λ (r : Response × Server). IsSteady s r.1) (header == "") (λ absent. same-IsSteady s)
      λ there. h

pub restore-IsSteady :
    (n : Now) (s : Server) (jobs : Table Job) (name snapshot : String) (b : Option RestoreBody)
    → is_on s.actions ≡ true
    → IsSteady s (handle_restore n s jobs name snapshot b).1
unfolding handle_restore with_jobs
restore-IsSteady n s jobs name snapshot none on = same-IsSteady s
restore-IsSteady n s jobs name snapshot (some b) on = jobs-IsSteady s _ on
