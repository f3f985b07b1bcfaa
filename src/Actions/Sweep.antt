-- ===== src/Actions/Sweep.antt =====
-- actions.go: the sweeps that thaw guests left frozen, at the start and as a loop.
pub mod Marks
use pademelon.Base.{
  ℕ, zero, suc, ◌-◌, ◌*◌, String, Bool, true, false, Option, none, some, ◌&&◌, List, [], ◌∷◌,
  Result, ok, err, Table, ltb, ◌==◌, if◌then◌else◌,
}
use pademelon.Clocks.{second, freeze_hold_bound}
use pademelon.Model.{Vm, Snapshot}
use pademelon.Actions.Job.{Error, plain_error}
use pademelon.Actions.Effects.{
  Domain, Env, Trace, M, fsfreeze_status, pure, ◌>>=◌, ◌>>◌, attempt, branch, fail, with_connection,
  read_snapshot, read_clock, sleep,
}
use pademelon.Actions.Guest.{find_domain, raw_agent_call, is_agent_ok}
use pademelon.Actions.Snapshot.{frozen_mark, thaw}

-- The marks that outlived the bound on a freeze.
unfoldable pub expired_marks : ℕ → Table ℕ → List String
expired_marks now [] = []
expired_marks now ((domain, since) ∷ rest) =
    let others = expired_marks now rest in
    if ltb freeze_hold_bound (now - since) then domain ∷ others else others

is_frozen : Option String → Bool
is_frozen none = false
is_frozen (some state) = state == "frozen"

-- `ctx.Done()`, as far as the past tells.
is_done : (Trace → Bool) → M Bool
is_done done w = (done w.trace, w)

read_marks : M (Table ℕ)
read_marks w = (w.frozen, w)

module _ (env : Env) where
  -- `forceThaw`. What it returns is only logged.
  force_thaw : String → M (Result Error (Unit {0}))
  force_thaw domain =
      attempt (with_connection env) (λ e. fail (plain_error e))
        (λ _.
          attempt (find_domain env domain) fail
            (λ d. attempt (thaw env d domain) (λ e. fail (plain_error e)) (λ _. pure (ok tt))))

  force_thaw_all : List String → M (Unit {0})
  force_thaw_all [] = pure tt
  force_thaw_all (domain ∷ rest) = force_thaw domain >>= λ _. force_thaw_all rest

  -- One tick of `SweepLoop`.
  pub sweep_tick : M (Unit {0})
  sweep_tick = do now ← read_clock env; marks ← read_marks; force_thaw_all (expired_marks now marks)

  thaw_frozen : Vm → Domain → String → M (Unit {0})
  thaw_frozen vm d raw =
      branch (is_frozen (env.decode_return raw))
        (do frozen_mark env vm.domain; thaw env d vm.domain >>= λ _. pure tt) (pure tt)

  -- The body of the loop of `sweepAgents`.
  sweep_agent : Vm → M (Unit {0})
  sweep_agent vm =
      branch ((vm.state == "running") && is_agent_ok vm.agent)
        (attempt (find_domain env vm.domain) (λ _. pure tt)
          (λ d. attempt (raw_agent_call env d fsfreeze_status) (λ _. pure tt) (thaw_frozen vm d)))
        (pure tt)

  sweep_each : List Vm → M (Unit {0})
  sweep_each [] = pure tt
  sweep_each (vm ∷ rest) = sweep_agent vm >>= λ _. sweep_each rest

  -- `sweepAgents` without a filter, the only way it is called.
  sweep_agents : M (Unit {0})
  sweep_agents = do
    snap ← read_snapshot env
    attempt (with_connection env) (λ _. pure tt) (λ _. sweep_each snap.vms)

  -- The wait for the first poll: whether to go on.
  first_poll : (Trace → Bool) → ℕ → M Bool
  first_poll done zero = pure true
  first_poll done (suc rounds) = do
    snap ← read_snapshot env
    branch (has_vms snap.vms) (pure true) (
        is_done done >>= λ over.
        branch over (pure false) (sleep (5 * second) >>= λ _. first_poll done rounds))
    where
      has_vms : List Vm → Bool
      has_vms [] = false
      has_vms (_ ∷ _) = true

  -- `SweepFrozenOnce`.
  pub sweep_frozen_once : (Trace → Bool) → M (Unit {0})
  sweep_frozen_once done = first_poll done 12 >>= λ go_on. branch go_on sweep_agents (pure tt)
