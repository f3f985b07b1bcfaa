-- ===== src/Actions/Restore/Safety.antt =====
-- The rollbacks of a staged `restore`, and the state of the guest when they are asked for.
use Prim.Native.String.{◌++◌}
use pademelon.Base.{
  ℕ, ◌≡◌, refl, sym, ◌∙◌, String, true, [], ◌∷◌, ok, cut_at, cut_at-append, eq_iff, false≢true,
  Option-cases, inl, inr, nat_eq,
}
use pademelon.Actions.Job.{Job, mode_staged, StepName, StepState}
use pademelon.Actions.Effects.{Domain, Env, Event, Trace, World, pure, set_step}
use pademelon.Actions.Effects.Triples.{
  Triple, Keeps, triple_pure, triple_perform, triple_branch, triple_bind, triple_attempt,
  triple_set_step, keeps_attempt, keeps_bind, triple_left,
}
use pademelon.Actions.Guest.{resend}
use pademelon.Actions.Guest.Off.{
  IsQuiet, IsStable, quiet, shutdown-Keeps, nudge_lem, guest_off, IfOk, resend-Keeps,
  wait_stopped-IfOk,
}
use pademelon.Actions.Restore.{
  stop_guest, confirm_off, finish_restore, roll_back, restore_parts, malformed, restore,
}

-- Every rollback of the trace came when the last word on the guest was that it is off, rewound
-- the snapshot of the job, and destroyed newer ones only as far as the job was acknowledged.
abbrev pub Guarded : Env → Job → Trace → Type 0
Guarded env job [] = Unit {0}
Guarded env job (Event.rolled_back dataset name recursive _ ∷ t) =
    (guest_off env t ≡ true)
    × (dataset ++ "@" ++ name ≡ job.snapshot)
    × (recursive ≡ job.ack)
    × Guarded env job t
Guarded env job (_ ∷ t) = Guarded env job t

module _ (env : Env) (d : Domain) (job : Job) where
  Guarded-quiet : (e : Event) (t : Trace) → IsQuiet e → Guarded env job t → Guarded env job (e ∷ t)
  Guarded-quiet (Event.rolled_back dataset name recursive r) t q p = absurd q
  Guarded-quiet _ t q p = p

  abbrev Safe : World → Type 0
  Safe w = Guarded env job w.trace

  abbrev SafeOff : World → Type 0
  SafeOff w = Safe w × (guest_off env w.trace ≡ true)

  Safe-IsStable : IsStable Safe
  Safe-IsStable = record { grows = λ w e q p. Guarded-quiet e w.trace q p }

  step-Keeps : (n : StepName) (s : StepState) (detail : String) → Keeps Safe (set_step n s detail)
  step-Keeps n s detail = triple_set_step n s detail (λ w p. p)

  step-Keeps_off :
      (n : StepName) (s : StepState) (detail : String) → Keeps SafeOff (set_step n s detail)
  step-Keeps_off n s detail = triple_set_step n s detail (λ w p. p)

  resend-Safe : (n : ℕ) → Keeps Safe (resend env d job.domain n)
  resend-Safe n = resend-Keeps Safe-IsStable env d job.domain n (step-Keeps _ _)

  stop_guest-Off :
      Triple Safe (stop_guest env d job) (λ r w. Safe w × IfOk r (guest_off env w.trace ≡ true))
  unfolding stop_guest guest_off
  stop_guest-Off = keeps_bind (step-Keeps _ _ _) λ _.
      keeps_attempt (shutdown-Keeps Safe-IsStable env d job.domain)
        (λ e. keeps_bind (step-Keeps _ _ _) λ _. triple_pure _ (λ w p. (p, tt)))
        (λ _. keeps_bind (step-Keeps _ _ _) λ _. keeps_bind (step-Keeps _ _ _) λ _.
          keeps_bind (quiet Safe-IsStable _ _ (λ _. tt)) λ shut_at.
            triple_attempt (wait_stopped-IfOk Safe-IsStable env d _ _ resend-Safe)
              (λ e. triple_left (keeps_bind (step-Keeps _ _ _) λ _. triple_pure _ (λ w p. (p, tt))))
              (λ _. keeps_bind {P = SafeOff} (triple_perform _ _ (λ w r e p. p)) λ t.
                keeps_bind (step-Keeps_off _ _ _) λ _.
                  keeps_bind {P = SafeOff} (nudge_lem env (λ w p. p))
                    λ _. triple_pure _ (λ w p. p)))

  confirm_off-Off :
      Triple Safe (confirm_off env d job) (λ r w. Safe w × IfOk r (guest_off env w.trace ≡ true))
  unfolding confirm_off guest_off
  confirm_off-Off =
      triple_attempt
        {Q = λ r w.
          Safe w × ((s : ℕ) → r ≡ ok s → guest_off env w.trace ≡ nat_eq s env.domain_shutoff)}
        (triple_perform _ _ (λ w r e p. (p, λ s h. rw h)))
        (λ e. triple_left (keeps_bind (step-Keeps _ _ _) λ _. triple_pure _ (λ w p. (p, tt))))
        (λ s.
          triple_branch _ _ _
            (λ off.
              triple_bind {Q = λ _. SafeOff}
                (triple_set_step _ _ _ (λ w p. (p.0, p.1 s refl ∙ off)))
                λ _. keeps_bind (step-Keeps_off _ _ _) λ _. triple_pure _ (λ w p. p))
            (λ _. triple_left stop_guest-Off))

  finish_restore-Safe : (narration : String) → Keeps Safe (finish_restore env d job narration)
  unfolding finish_restore
  finish_restore-Safe narration =
      triple_branch _ _ _
        (λ _. keeps_bind (step-Keeps _ _ _) λ _.
          keeps_attempt (triple_perform _ _ (λ w r e p. p))
            (λ e. keeps_bind (step-Keeps _ _ _) λ _. triple_pure _ (λ w p. p))
            (λ _.
              keeps_bind (step-Keeps _ _ _)
                λ _. keeps_bind (nudge_lem env (λ w p. p)) λ _. triple_pure _ (λ w p. p)))
        (λ _. triple_branch _ _ _ (λ _. triple_pure _ (λ w p. p)) (λ _. triple_pure _ (λ w p. p)))

  roll_back-Safe :
      (dataset name narration : String)
      → dataset ++ "@" ++ name ≡ job.snapshot
      → Triple SafeOff (roll_back env d job dataset name narration) (λ _. Safe)
  unfolding roll_back
  roll_back-Safe dataset name narration id = keeps_bind (step-Keeps_off _ _ _) λ _.
      triple_attempt {Q = λ _. Safe} (triple_perform _ _ (λ w r e p. (p.1, id, refl, p.0)))
        (λ e. keeps_bind (step-Keeps _ _ _) λ _. triple_pure _ (λ w p. p))
        (λ _. keeps_bind (step-Keeps _ _ _) λ _. finish_restore-Safe narration)

  restore_parts-Safe :
      (dataset name : String)
      → job.mode ≡ mode_staged
      → dataset ++ "@" ++ name ≡ job.snapshot
      → Keeps Safe (restore_parts env d job dataset name)
  unfolding restore_parts
  restore_parts-Safe dataset name staged id =
      triple_branch _ _ _
        (λ _.
          triple_attempt confirm_off-Off (λ e. triple_pure _ (λ w p. p.0))
            (λ narration. roll_back-Safe dataset name narration id))
        (λ other. absurd (false≢true (sym other ∙ (eq_iff job.mode mode_staged).1 staged)))

-- However libvirt, the agent, the middleware and the clock answer, a staged restore asks the
-- middleware for a rollback only right after libvirt reported the guest off, with no start or
-- resume of it in between; it rewinds the snapshot that the job names and no other, and lets newer
-- snapshots be destroyed exactly when the job carries the acknowledgement.
pub restore-Guarded :
    (env : Env) (d : Domain) (job : Job) (w : World)
    → job.mode ≡ mode_staged
    → Guarded env job w.trace
    → Guarded env job (restore env d job w).1.trace
unfolding restore malformed pure
restore-Guarded env d job w staged p = elim (Option-cases (cut_at job.snapshot)) [
  | inl e ↦ rw (e, restore) p
  | inr (parts, e) ↦
      rw (e, restore)
        ((restore_parts-Safe env d job parts.0 parts.1 staged (cut_at-append job.snapshot e)).at w
          p)
]
