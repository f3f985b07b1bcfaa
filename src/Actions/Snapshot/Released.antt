-- ===== src/Actions/Snapshot/Released.antt =====
-- The holds of a `snapshot` job and the calls that let the guest go.
use pademelon.Base.{
  ◌≡◌, refl, ◌∙◌, String, Bool, true, false, List, [], ◌∷◌, Result, ok, err, Option, none, some,
}
use pademelon.Model.{Vm}
use pademelon.Actions.Job.{Error}
use pademelon.Actions.Effects.{Domain, Env, Event, Trace, World, fsfreeze_freeze, fsfreeze_thaw}
use pademelon.Actions.Effects.Triples.{
  Triple, Keeps, triple_pure, triple_perform, triple_branch, triple_bind, triple_attempt,
  keeps_bind, set_step-Keeps, Either,
}
use pademelon.Actions.Guest.{raw_agent_call}
use pademelon.Actions.Guest.Off.{raw_agent_call-Either}
use pademelon.Actions.Snapshot.{
  Hold, froze, suspended, no_hold, frozen_mark, frozen_clear, thaw, pause_guest, hold_guest,
  release_guest, create_all, create_phase, snapshot_phases, snapshot_datasets, snapshot_vm,
  snapshot, truenas_datasets, lookup_vm,
}

-- A freeze was answered, and no thaw was asked for since.
unfoldable pub left_frozen : Trace → Bool
left_frozen [] = false
left_frozen (Event.agent_answered _ fsfreeze_freeze (ok _) ∷ t) = true
left_frozen (Event.agent_answered _ fsfreeze_thaw _ ∷ t) = false
left_frozen (_ ∷ t) = left_frozen t

-- A pause succeeded, and no resume was asked for since.
unfoldable pub left_paused : Trace → Bool
left_paused [] = false
left_paused (Event.suspended _ (ok _) ∷ t) = true
left_paused (Event.resumed _ _ ∷ t) = false
left_paused (_ ∷ t) = left_paused t

abbrev pub Free : Trace → Type 0
Free t = (left_frozen t ≡ false) × (left_paused t ≡ false)

-- Held at most in the way that the job remembers.
abbrev HeldBy : Hold → Trace → Type 0
HeldBy froze t = left_paused t ≡ false
HeldBy suspended t = left_frozen t ≡ false
HeldBy no_hold t = Free t

abbrev Held : Result Error Hold → Trace → Type 0
Held (ok hold) t = HeldBy hold t
Held (err _) t = Free t

abbrev FreeW : World → Type 0
FreeW w = Free w.trace

-- An event that holds nothing and lets nothing go.
abbrev IsNeutral : Event → Type 0
IsNeutral e =
    (t : Trace) → (left_frozen (e ∷ t) ≡ left_frozen t) × (left_paused (e ∷ t) ≡ left_paused t)

HeldBy-neutral :
    (hold : Hold) (e : Event) (t : Trace) → IsNeutral e → HeldBy hold t → HeldBy hold (e ∷ t)
HeldBy-neutral froze e t n p = (n t).1 ∙ p
HeldBy-neutral suspended e t n p = (n t).0 ∙ p
HeldBy-neutral no_hold e t n p = ((n t).0 ∙ p.0, (n t).1 ∙ p.1)

module _ (env : Env) (d : Domain) (domain : String) where
  freeze-Either :
      Triple FreeW (raw_agent_call env d fsfreeze_freeze) (Either (λ w. HeldBy froze w.trace) FreeW)
  unfolding left_frozen left_paused
  freeze-Either = raw_agent_call-Either env d fsfreeze_freeze (λ w replies p. p.1) (λ w e p. p)

  pause_guest-Held :
      (freeze_err : String)
      → Triple FreeW (pause_guest env d domain freeze_err) (λ r w. Held r w.trace)
  unfolding pause_guest left_frozen left_paused
  pause_guest-Held freeze_err =
      triple_attempt {Q = Either (λ w. HeldBy suspended w.trace) FreeW}
        (triple_perform _ _ (λ w r e p. asked r w p))
        (λ e. keeps_bind (set_step-Keeps Free _ _ _) λ _. triple_pure _ (λ w p. p))
        (λ _. keeps_bind (set_step-Keeps (HeldBy suspended) _ _ _) λ _. triple_pure _ (λ w p. p))
    where
      asked :
          (r : Result String (Unit {0})) (w : World)
          → FreeW w
          → Either
              (λ w. HeldBy suspended w.trace)
              FreeW
              r
              (record w { trace = Event.suspended d r ∷ w.trace })
      asked (ok _) w p = p.0
      asked (err _) w p = p

  frozen_mark-Keeps : (hold : Hold) → Keeps (λ w. HeldBy hold w.trace) (frozen_mark env domain)
  unfolding frozen_mark left_frozen left_paused
  frozen_mark-Keeps hold =
      keeps_bind
        (triple_perform _ _ (λ w r e p. HeldBy-neutral hold _ w.trace (λ t. (refl, refl)) p))
        λ t. record { at = λ w p. p }

  hold_guest-Held : (vm : Vm) → Triple FreeW (hold_guest env d domain vm) (λ r w. Held r w.trace)
  unfolding hold_guest
  hold_guest-Held vm =
      triple_branch _ _ _
        (λ _.
          triple_branch _ _ _
            (λ _. keeps_bind (set_step-Keeps Free _ _ _) λ _.
              triple_attempt freeze-Either
                (λ e. keeps_bind (set_step-Keeps Free _ _ _) λ _. pause_guest-Held e)
                (λ _. keeps_bind (frozen_mark-Keeps froze) λ _.
                  keeps_bind (set_step-Keeps (HeldBy froze) _ _ _) λ _. triple_pure _ (λ w p. p)))
            (λ _. keeps_bind (set_step-Keeps Free _ _ _) λ _. pause_guest-Held _))
        (λ _. keeps_bind (set_step-Keeps Free _ _ _) λ _. triple_pure _ (λ w p. p))

  create_all-Keeps :
      (hold : Hold) (name : String) (datasets : List String)
      → Keeps (λ w. HeldBy hold w.trace) (create_all env name datasets)
  unfolding create_all left_frozen left_paused
  create_all-Keeps hold name [] = triple_pure _ (λ w p. p)
  create_all-Keeps hold name (ds ∷ rest) =
      keeps_bind
        (triple_perform _ _ (λ w r e p. HeldBy-neutral hold _ w.trace (λ t. (refl, refl)) p))
        λ r. keeps_bind (create_all-Keeps hold name rest) λ more. triple_pure _ (λ w p. p)

  create_phase-Keeps :
      (hold : Hold) (name : String) (datasets : List String)
      → Keeps (λ w. HeldBy hold w.trace) (create_phase env d domain name datasets)
  unfolding create_phase
  create_phase-Keeps hold name datasets = keeps_bind (set_step-Keeps (HeldBy hold) _ _ _) λ _.
      keeps_bind (create_all-Keeps hold name datasets) λ o.
        keeps_bind
          (triple_branch _ _ _ (λ _. set_step-Keeps (HeldBy hold) _ _ _)
            (λ _. set_step-Keeps (HeldBy hold) _ _ _))
          λ _. triple_pure _ (λ w p. p)

  clear-Free : Keeps FreeW (frozen_clear domain)
  unfolding frozen_clear
  clear-Free = record { at = λ w p. p }

  -- Both attempts count as asking.
  thaw-Free : Triple (λ w. HeldBy froze w.trace) (thaw env d domain) (λ _. FreeW)
  unfolding thaw left_frozen left_paused
  thaw-Free =
      triple_attempt {Q = Either FreeW FreeW}
        (raw_agent_call-Either env d fsfreeze_thaw (λ w _ p. (refl, p)) (λ w _ p. (refl, p)))
        (λ _. keeps_bind (triple_perform _ _ (λ w r e p. p)) λ _.
          triple_attempt {Q = Either FreeW FreeW}
            (raw_agent_call-Either env d fsfreeze_thaw (λ w _ p. (refl, p.1))
              (λ w _ p. (refl, p.1)))
            (λ e. triple_pure _ (λ w p. p))
            (λ _. keeps_bind clear-Free λ _. triple_pure _ (λ w p. p)))
        (λ _. keeps_bind clear-Free λ _. triple_pure _ (λ w p. p))

  release_guest-Free :
      (hold : Hold)
      → Triple (λ w. HeldBy hold w.trace) (release_guest env d domain hold) (λ _. FreeW)
  unfolding release_guest left_frozen left_paused
  release_guest-Free froze = keeps_bind (set_step-Keeps (HeldBy froze) _ _ _) λ _.
      triple_attempt {Q = λ _. FreeW} thaw-Free
        (λ e. keeps_bind (set_step-Keeps Free _ _ _) λ _. triple_pure _ (λ w p. p))
        (λ _. keeps_bind (set_step-Keeps Free _ _ _) λ _. triple_pure _ (λ w p. p))
  release_guest-Free suspended = keeps_bind (set_step-Keeps (HeldBy suspended) _ _ _) λ _.
      triple_attempt {Q = λ _. FreeW} (triple_perform _ _ (λ w r e p. (p, refl)))
        (λ e. keeps_bind (set_step-Keeps Free _ _ _) λ _. triple_pure _ (λ w p. p))
        (λ _. keeps_bind (set_step-Keeps Free _ _ _) λ _. triple_pure _ (λ w p. p))
  release_guest-Free no_hold = keeps_bind (set_step-Keeps Free _ _ _) λ _. triple_pure _ (λ w p. p)

  snapshot_phases-Free :
      (vm : Vm) (name : String) (datasets : List String)
      → Keeps FreeW (snapshot_phases env d domain vm name datasets)
  unfolding snapshot_phases
  snapshot_phases-Free vm name datasets =
      triple_attempt (hold_guest-Held vm) (λ e. triple_pure _ (λ w p. p))
        (λ hold.
          keeps_bind (create_phase-Keeps hold name datasets)
            λ o. triple_bind (release_guest-Free hold) λ warnings. triple_pure _ (λ w p. p))

  snapshot_vm-Free : (vm : Option Vm) → Keeps FreeW (snapshot_vm env d domain vm)
  unfolding snapshot_vm
  snapshot_vm-Free none = triple_pure _ (λ w p. p)
  snapshot_vm-Free (some vm) = datasets_Free vm (truenas_datasets vm.disks)
    where
      datasets_Free :
          (vm : Vm) (datasets : List String)
          → Keeps FreeW (snapshot_datasets env d domain vm datasets)
      datasets_Free vm [] = unfold snapshot_datasets in triple_pure _ (λ w p. p)
      datasets_Free vm (ds ∷ rest) =
          unfold snapshot_datasets left_frozen left_paused in
          keeps_bind (triple_perform _ _ (λ w r e p. p)) λ t. snapshot_phases-Free vm _ _

  snapshot-Triple : Keeps FreeW (snapshot env d domain)
  unfolding snapshot left_frozen left_paused
  snapshot-Triple =
      triple_branch _ _ _
        (λ _.
          keeps_bind (triple_perform _ _ (λ w r e p. p))
            λ snap. snapshot_vm-Free (lookup_vm snap.vms domain))
        (λ _. triple_pure _ (λ w p. p))

-- A snapshot job that starts with the guest neither frozen nor paused by the package ends so too,
-- on every path, errors of the agent, of libvirt and of the middleware included: each freeze that
-- was answered is followed by a request to thaw, and each pause that succeeded by a resume.
pub snapshot-Free :
    (env : Env) (d : Domain) (domain : String) (w : World)
    → Free w.trace
    → Free (snapshot env d domain w).1.trace
snapshot-Free env d domain w p = (snapshot-Triple env d domain).at w p
