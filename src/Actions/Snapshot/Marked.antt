-- ===== src/Actions/Snapshot/Marked.antt =====
-- The marks of frozen guests during a `snapshot` job.
use pademelon.Base.{
  ℕ, ◌≡◌, refl, ◌∙◌, String, Bool, true, false, List, [], ◌∷◌, ok, Option, none, some, Table,
  lookup, insert, lookup-insert, eq_refl,
}
use pademelon.Model.{Vm}
use pademelon.Actions.Job.{StepName, StepState}
use pademelon.Actions.Effects.{
  Domain, Env, Event, Trace, World, set_step, fsfreeze_freeze, fsfreeze_thaw,
}
use pademelon.Actions.Effects.Triples.{
  Triple, Keeps, triple_pure, triple_perform, triple_branch, triple_bind, triple_attempt,
  triple_set_step, keeps_attempt, keeps_bind, Either,
}
use pademelon.Actions.Guest.{raw_agent_call}
use pademelon.Actions.Guest.Off.{raw_agent_call-Either}
use pademelon.Actions.Snapshot.{
  Hold, froze, suspended, no_hold, frozen_mark, frozen_clear, thaw, pause_guest, hold_guest,
  release_guest, create_all, create_phase, snapshot_phases, snapshot_datasets, snapshot_vm,
  snapshot, truenas_datasets, lookup_vm,
}

-- A freeze was answered, and no thaw was answered since.
unfoldable pub unthawed : Trace → Bool
unthawed [] = false
unthawed (Event.agent_answered _ fsfreeze_freeze (ok _) ∷ t) = true
unthawed (Event.agent_answered _ fsfreeze_thaw (ok _) ∷ t) = false
unthawed (_ ∷ t) = unthawed t

-- Where a thaw is owed there is a mark.
abbrev pub Covers : Option ℕ → Bool → Type 0
Covers mark false = Unit {0}
Covers none true = ⊥
Covers (some since) true = Unit {0}

abbrev pub IsTracked : String → World → Type 0
IsTracked domain w = Covers (lookup domain w.frozen) (unthawed w.trace)

Covers-some : (since : ℕ) (owed : Bool) → Covers (some since) owed
Covers-some since true = tt
Covers-some since false = tt

Covers-thawed : (mark : Option ℕ) {owed : Bool} → owed ≡ false → Covers mark owed
Covers-thawed mark e = rw e tt

lookup-insert_same :
    (domain : String) (t : ℕ) (m : Table ℕ) → lookup domain (insert domain t m) ≡ some t
lookup-insert_same domain t m = lookup-insert domain domain t m ∙ rw (eq_refl domain)

module _ (env : Env) (d : Domain) (domain : String) where
  abbrev Tracked : World → Type 0
  Tracked = IsTracked domain

  abbrev Thawed : World → Type 0
  Thawed w = unthawed w.trace ≡ false

  abbrev Anything : World → Type 0
  Anything _ = Unit {0}

  step : (n : StepName) (s : StepState) (detail : String) → Keeps Tracked (set_step n s detail)
  step n s detail = triple_set_step n s detail (λ w p. p)

  freeze-Either : Triple Tracked (raw_agent_call env d fsfreeze_freeze) (Either Anything Tracked)
  unfolding unthawed
  freeze-Either = raw_agent_call-Either env d fsfreeze_freeze (λ w replies p. tt) (λ w e p. p)

  thaw_call : Triple Tracked (raw_agent_call env d fsfreeze_thaw) (Either Thawed Tracked)
  unfolding unthawed
  thaw_call = raw_agent_call-Either env d fsfreeze_thaw (λ w replies p. refl) (λ w e p. p)

  mark-Tracked : Triple Anything (frozen_mark env domain) (λ _. Tracked)
  unfolding frozen_mark
  mark-Tracked = keeps_bind {P = Anything} (triple_perform _ _ (λ w r e p. tt)) λ t. record {
    at = λ w p. rw (lookup-insert_same domain t w.frozen) (Covers-some t (unthawed w.trace));
  }

  clear-Tracked : Triple Thawed (frozen_clear domain) (λ _. Tracked)
  unfolding frozen_clear
  clear-Tracked = record { at = λ w p. Covers-thawed _ p }

  pause_guest-Tracked : (freeze_err : String) → Keeps Tracked (pause_guest env d domain freeze_err)
  unfolding pause_guest unthawed
  pause_guest-Tracked freeze_err =
      keeps_attempt (triple_perform _ _ (λ w r e p. p))
        (λ e. keeps_bind (step _ _ _) λ _. triple_pure _ (λ w p. p))
        (λ _. keeps_bind (step _ _ _) λ _. triple_pure _ (λ w p. p))

  hold_guest-Tracked : (vm : Vm) → Keeps Tracked (hold_guest env d domain vm)
  unfolding hold_guest
  hold_guest-Tracked vm =
      triple_branch _ _ _
        (λ _.
          triple_branch _ _ _
            (λ _. keeps_bind (step _ _ _) λ _.
              triple_attempt freeze-Either (λ e. keeps_bind (step _ _ _) λ _. pause_guest-Tracked e)
                (λ _.
                  triple_bind mark-Tracked
                    λ _. keeps_bind (step _ _ _) λ _. triple_pure _ (λ w p. p)))
            (λ _. keeps_bind (step _ _ _) λ _. pause_guest-Tracked _))
        (λ _. keeps_bind (step _ _ _) λ _. triple_pure _ (λ w p. p))

  create_all-Tracked :
      (name : String) (datasets : List String) → Keeps Tracked (create_all env name datasets)
  unfolding create_all unthawed
  create_all-Tracked name [] = triple_pure _ (λ w p. p)
  create_all-Tracked name (ds ∷ rest) =
      keeps_bind (triple_perform _ _ (λ w r e p. p))
        λ r. keeps_bind (create_all-Tracked name rest) λ more. triple_pure _ (λ w p. p)

  create_phase-Tracked :
      (name : String) (datasets : List String)
      → Keeps Tracked (create_phase env d domain name datasets)
  unfolding create_phase
  create_phase-Tracked name datasets = keeps_bind (step _ _ _) λ _.
      keeps_bind (create_all-Tracked name datasets) λ o.
        keeps_bind (triple_branch _ _ _ (λ _. step _ _ _) (λ _. step _ _ _))
          λ _. triple_pure _ (λ w p. p)

  -- What the sweep relies on too: the mark goes only after an answered thaw.
  pub thaw-Tracked : Keeps Tracked (thaw env d domain)
  unfolding thaw unthawed
  thaw-Tracked =
      triple_attempt thaw_call
        (λ _. keeps_bind (triple_perform _ _ (λ w r e p. p)) λ _.
          triple_attempt thaw_call (λ e. triple_pure _ (λ w p. p))
            (λ _. triple_bind clear-Tracked λ _. triple_pure _ (λ w p. p)))
        (λ _. triple_bind clear-Tracked λ _. triple_pure _ (λ w p. p))

  release_guest-Tracked : (hold : Hold) → Keeps Tracked (release_guest env d domain hold)
  unfolding release_guest unthawed
  release_guest-Tracked froze = keeps_bind (step _ _ _) λ _.
      keeps_attempt thaw-Tracked (λ e. keeps_bind (step _ _ _) λ _. triple_pure _ (λ w p. p))
        (λ _. keeps_bind (step _ _ _) λ _. triple_pure _ (λ w p. p))
  release_guest-Tracked suspended = keeps_bind (step _ _ _) λ _.
      keeps_attempt (triple_perform _ _ (λ w r e p. p))
        (λ e. keeps_bind (step _ _ _) λ _. triple_pure _ (λ w p. p))
        (λ _. keeps_bind (step _ _ _) λ _. triple_pure _ (λ w p. p))
  release_guest-Tracked no_hold = keeps_bind (step _ _ _) λ _. triple_pure _ (λ w p. p)

  datasets_Tracked :
      (vm : Vm) (datasets : List String)
      → Keeps Tracked (snapshot_datasets env d domain vm datasets)
  unfolding snapshot_datasets snapshot_phases unthawed
  datasets_Tracked vm [] = triple_pure _ (λ w p. p)
  datasets_Tracked vm (ds ∷ rest) = keeps_bind (triple_perform _ _ (λ w r e p. p)) λ t.
      keeps_attempt (hold_guest-Tracked vm) (λ e. triple_pure _ (λ w p. p))
        (λ hold.
          keeps_bind (create_phase-Tracked _ (ds ∷ rest))
            λ o. keeps_bind (release_guest-Tracked hold) λ warnings. triple_pure _ (λ w p. p))

  snapshot_vm-Tracked : (vm : Option Vm) → Keeps Tracked (snapshot_vm env d domain vm)
  unfolding snapshot_vm
  snapshot_vm-Tracked none = triple_pure _ (λ w p. p)
  snapshot_vm-Tracked (some vm) = datasets_Tracked vm (truenas_datasets vm.disks)

-- If every owed thaw has its mark when a snapshot job starts, so it is when the job ends, whatever
-- the agent answers: a guest whose freeze was answered and no thaw since is still in the table
-- that the sweep goes through.
pub snapshot-IsTracked :
    (env : Env) (d : Domain) (domain : String) (w : World)
    → IsTracked domain w
    → IsTracked domain (snapshot env d domain w).1
unfolding snapshot unthawed
snapshot-IsTracked env d domain w p =
    (triple_branch _ _ _
        (λ _.
          keeps_bind (triple_perform _ _ (λ w r e p. p))
            λ snap. snapshot_vm-Tracked env d domain (lookup_vm snap.vms domain))
        (λ _. triple_pure _ (λ w p. p))).at
      w p
