-- ===== src/Actions/Sweep/Marks.antt =====
-- What the sweeps do to the marks of frozen guests.
use pademelon.Base.{
  ℕ, zero, suc, ◌+◌, ◌≤◌, ◌<◌, ◌≡◌, refl, subst, String, Bool, true, false, List, [], ◌∷◌, Result,
  ok, err, Option, none, some, ◌⊎◌, inl, lookup, lookup-insert, lookup-remove, arith, eq_iff, ◌==◌,
  if◌then◌else◌,
}
use pademelon.Model.{Vm}
use pademelon.Actions.Effects.{
  Domain, Env, Event, Trace, World, pure, ◌>>=◌, fsfreeze_thaw, fsfreeze_status,
}
use pademelon.Actions.Effects.Triples.{
  Triple, Keeps, triple_pure, triple_perform, triple_branch, triple_bind, triple_attempt,
  triple_given, keeps_attempt, keeps_bind, Either,
}
use pademelon.Actions.Guest.{raw_agent_call, find_domain, find_named}
use pademelon.Actions.Guest.Off.{raw_agent_call-Either}
use pademelon.Actions.Snapshot.{frozen_mark, frozen_clear, thaw}
use pademelon.Actions.Sweep.{
  force_thaw, force_thaw_all, read_marks, is_done, sweep_tick, thaw_frozen, sweep_agent, sweep_each,
  sweep_agents, first_poll, sweep_frozen_once,
}

-- How often the agent of a machine answered a thaw.
unfoldable pub thaws : String → Trace → ℕ
thaws domain [] = 0
thaws domain (Event.agent_answered d fsfreeze_thaw (ok _) ∷ t) =
    (if d.name == domain then 1 else 0) + thaws domain t
thaws domain (_ ∷ t) = thaws domain t

abbrev pub is_marked : Option ℕ → Bool
is_marked none = false
is_marked (some since) = true

-- Still marked, or thawed more often than `n` times.
unfoldable pub Accounted : String → ℕ → World → Type 0
Accounted domain n w =
    ((is_marked (lookup domain w.frozen) ≡ true) × (n ≤ thaws domain w.trace))
    ⊎ (n < thaws domain w.trace)

marked_before :
    (domain : String) (w : World)
    → is_marked (lookup domain w.frozen) ≡ true
    → Accounted domain (thaws domain w.trace) w
unfolding Accounted
marked_before domain w h = inl (h, omega arith)

module _ (env : Env) (name : String) (n : ℕ) where
  abbrev Safe : World → Type 0
  Safe = Accounted name n

  abbrev Thawed : String → World → Type 0
  Thawed target w = Safe w × ((target ≡ name) → n < thaws name w.trace)

  named_sound :
      (target : String) (ds : List Domain) (d : Domain)
      → find_named target ds ≡ ok d
      → d.name ≡ target
  unfolding find_named
  named_sound target [] d h = cc
  named_sound target (x ∷ ds) d h = ground (arith, eq_iff x.name target, named_sound target ds d)

  thaw_call :
      (d : Domain) → Triple Safe (raw_agent_call env d fsfreeze_thaw) (Either (Thawed d.name) Safe)
  unfolding Accounted thaws
  thaw_call d =
      raw_agent_call-Either env d fsfreeze_thaw
        (λ w replies p. ground (arith, p, eq_iff d.name name)) (λ w e p. p)

  clear_Safe : (target : String) → Triple (Thawed target) (frozen_clear target) (λ _. Safe)
  unfolding frozen_clear Accounted
  clear_Safe target = record {
    at = λ w p. ground (arith, p.0, p.1, lookup-remove target name w.frozen, eq_iff target name);
  }

  Safe-Either : (r : Result String String) (w : World) → Either Safe Safe r w → Safe w
  Safe-Either (ok _) w p = p
  Safe-Either (err _) w p = p

  status_call : (d : Domain) → Keeps Safe (raw_agent_call env d fsfreeze_status)
  unfolding Accounted thaws
  status_call d = record {
    at = λ w p. Safe-Either _ _ (
        (raw_agent_call-Either {P = Safe} {Good = Safe} {Bad = Safe} env d fsfreeze_status
            (λ w replies p. p) (λ w e p. p)).at
          w p);
  }

  mark_Safe : (target : String) → Keeps Safe (frozen_mark env target)
  unfolding frozen_mark Accounted thaws
  mark_Safe target =
      keeps_bind {P = Safe} (triple_perform _ _ (λ w r e p. p))
        λ t. record { at = λ w p. ground (arith, p, lookup-insert target name t w.frozen) }

  cleared :
      (d : Domain) (target : String)
      → d.name ≡ target
      → Triple {A = Result String (Unit {0})}
          (Thawed d.name)
          (frozen_clear target >>= λ _. pure (ok tt))
          (λ _. Safe)
  unfolding Accounted thaws
  cleared d target same =
      triple_bind {Q = λ _. Safe} (thawed_clear same) λ _. triple_pure _ (λ w p. p)
    where
      thawed_clear : d.name ≡ target → Triple (Thawed d.name) (frozen_clear target) (λ _. Safe)
      thawed_clear e =
          subst (λ t. Triple (Thawed d.name) (frozen_clear t) (λ _. Safe)) e (clear_Safe d.name)

  thaw-Safe : (d : Domain) (target : String) → d.name ≡ target → Keeps Safe (thaw env d target)
  unfolding thaw Accounted thaws
  thaw-Safe d target same =
      triple_attempt (thaw_call d)
        (λ _. keeps_bind {P = Safe} (triple_perform _ _ (λ w r e p. p)) λ _.
          triple_attempt (thaw_call d) (λ e. triple_pure _ (λ w p. p)) (λ _. cleared d target same))
        (λ _. cleared d target same)

  found :
      (target : String)
      → Triple Safe
          (find_domain env target)
          (λ r w. ((d : Domain) → r ≡ ok d → d.name ≡ target) × Safe w)
  unfolding find_domain Accounted thaws
  found target =
      keeps_attempt {P = Safe} (triple_perform _ _ (λ w r e p. p))
        (λ e. triple_pure _ (λ w p. (λ d h. cc, p)))
        (λ ds. triple_pure _ (λ w p. (λ d h. named_sound target ds d h, p)))

  force_thaw-Safe : (target : String) → Keeps Safe (force_thaw env target)
  unfolding force_thaw Accounted thaws
  force_thaw-Safe target =
      keeps_attempt {P = Safe} (triple_perform _ _ (λ w r e p. p)) (λ e. triple_pure _ (λ w p. p))
        (λ _.
          triple_attempt (found target) (λ e. triple_pure _ (λ w p. p.1))
            (λ d. triple_given λ named.
              keeps_attempt (thaw-Safe d target (named d refl)) (λ e. triple_pure _ (λ w p. p))
                (λ _. triple_pure _ (λ w p. p))))

  force_thaw_all-Safe : (targets : List String) → Keeps Safe (force_thaw_all env targets)
  unfolding force_thaw_all
  force_thaw_all-Safe [] = triple_pure _ (λ w p. p)
  force_thaw_all-Safe (target ∷ rest) =
      keeps_bind (force_thaw-Safe target) λ _. force_thaw_all-Safe rest

  sweep_tick-Safe : Keeps Safe (sweep_tick env)
  unfolding sweep_tick read_marks Accounted thaws
  sweep_tick-Safe =
      keeps_bind {P = Safe} (triple_perform _ _ (λ w r e p. p))
        λ now. keeps_bind {P = Safe} (record { at = λ w p. p }) λ marks. force_thaw_all-Safe _

  thaw_frozen-Safe :
      (vm : Vm) (d : Domain) (raw : String)
      → d.name ≡ vm.domain
      → Keeps Safe (thaw_frozen env vm d raw)
  unfolding thaw_frozen
  thaw_frozen-Safe vm d raw same =
      triple_branch _ _ _
        (λ _.
          keeps_bind (mark_Safe vm.domain)
            λ _. keeps_bind (thaw-Safe d vm.domain same) λ _. triple_pure _ (λ w p. p))
        (λ _. triple_pure _ (λ w p. p))

  sweep_agent-Safe : (vm : Vm) → Keeps Safe (sweep_agent env vm)
  unfolding sweep_agent Accounted thaws
  sweep_agent-Safe vm =
      triple_branch _ _ _
        (λ _.
          triple_attempt (found vm.domain) (λ e. triple_pure _ (λ w p. p.1))
            (λ d. triple_given λ named.
              triple_attempt {Q = λ _. Safe} (status_call d) (λ e. triple_pure _ (λ w p. p))
                (λ raw. thaw_frozen-Safe vm d raw (named d refl))))
        (λ _. triple_pure _ (λ w p. p))

  sweep_each-Safe : (vms : List Vm) → Keeps Safe (sweep_each env vms)
  unfolding sweep_each
  sweep_each-Safe [] = triple_pure _ (λ w p. p)
  sweep_each-Safe (vm ∷ rest) = keeps_bind (sweep_agent-Safe vm) λ _. sweep_each-Safe rest

  first_poll-Safe : (done : Trace → Bool) (rounds : ℕ) → Keeps Safe (first_poll env done rounds)
  unfolding first_poll is_done Accounted thaws
  first_poll-Safe done zero = triple_pure _ (λ w p. p)
  first_poll-Safe done (suc rounds) =
      keeps_bind {P = Safe} (triple_perform _ _ (λ w r e p. p)) λ snap.
        triple_branch _ _ _ (λ _. triple_pure _ (λ w p. p))
          (λ _.
            keeps_bind {P = Safe} (record { at = λ w p. p })
              λ over.
                triple_branch _ _ _ (λ _. triple_pure _ (λ w p. p))
                  (λ _.
                    keeps_bind {P = Safe} (triple_perform _ _ (λ w r e p. p))
                      λ _. first_poll-Safe done rounds))

  sweep_frozen_once-Safe : (done : Trace → Bool) → Keeps Safe (sweep_frozen_once env done)
  unfolding sweep_frozen_once sweep_agents Accounted thaws
  sweep_frozen_once-Safe done = keeps_bind (first_poll-Safe done 12) λ go_on.
      triple_branch _ _ _
        (λ _. keeps_bind {P = Safe} (triple_perform _ _ (λ w r e p. p)) λ snap.
          keeps_attempt {P = Safe} (triple_perform _ _ (λ w r e p. p))
            (λ _. triple_pure _ (λ w p. p)) (λ _. sweep_each-Safe snap.vms))
        (λ _. triple_pure _ (λ w p. p))

-- A machine that is marked as frozen when a sweep begins, the one at the start or a tick of the
-- loop, is marked still when it ends, unless its own agent answered a thaw in between: no sweep
-- forgets a guest that may be frozen.
pub sweeps_account :
    (env : Env) (done : Trace → Bool) (domain : String) (w : World)
    → is_marked (lookup domain w.frozen) ≡ true
    → Accounted domain (thaws domain w.trace) (sweep_tick env w).1
      × Accounted domain (thaws domain w.trace) (sweep_frozen_once env done w).1
sweeps_account env done domain w marked =
    let before = marked_before domain w marked in
    (
      (sweep_tick-Safe env domain (thaws domain w.trace)).at w before,
      (sweep_frozen_once-Safe env domain (thaws domain w.trace) done).at w before,
    )
