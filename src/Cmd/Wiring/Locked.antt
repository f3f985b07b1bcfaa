-- ===== src/Cmd/Wiring/Locked.antt =====
-- main.go with internal/web: what the flags of a server decide for as long as it runs.
use pademelon.Base.{ℕ, ◌≡◌, ◌≢◌, ◌⊎◌, false, not, ◌==◌, quotient}
use pademelon.Web.Auth.Gate.{HasToken}
use pademelon.Web.Routes.{Incoming, Server, Now, is_on, bulk_step, handle_capabilities}
use pademelon.Web.Answers.{Body, answer}
use pademelon.Clocks.{millisecond}
use pademelon.Actions.Registry.{Moment}
use pademelon.Web.Serve.{serve}
use pademelon.Web.Serve.Guarded.{SameJobs}
use pademelon.Web.Serve.Turns.{IsPlanned}
use pademelon.Cmd.Start.{Settings}

-- The server has what its settings say and tells the page so; the one request `i` changes the jobs, and
-- what bulk shutdowns have still to submit, only with the token; and a turn of a bulk shutdown
-- submits only what was planned.
pub record IsLocked (s : Settings) (n : Now) (i : Incoming) (r : Server) : Type 0 where
  pub token : r.auth.token ≡ s.token
  pub actions : is_on r.actions ≡ s.actions_on
  pub truenas : is_on r.truenas ≡ not (s.truenas_addr == "")
  pub snaps : is_on r.snaps ≡ not (s.truenas_addr == "")
  pub told :
      handle_capabilities r
      ≡ answer 200 (
          Body.capabilities s.actions_on
            (not (s.token == ""))
            false
            (not (s.truenas_addr == ""))
            (quotient s.snapshot_refresh millisecond))
  pub jobs : SameJobs r (serve n i r).1 ⊎ ((s.token ≢ "") × HasToken r.auth i.auth)
  pub turn : (k : ℕ) (m : Moment) → SameJobs r (bulk_step k m r) ⊎ IsPlanned m r (bulk_step k m r)
