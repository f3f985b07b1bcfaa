-- ===== src/Actions/Guest/Reboot.antt =====
-- What the steps of a reboot say when it is over.
use pademelon.Base.{◌≡◌, refl, ◌∙◌, String, true, false, ap, [], ◌∷◌, Bool, Result, ok, err, ℕ}
use pademelon.Actions.Verb.{Action}
use pademelon.Actions.Job.{StepName, StepState, steps_for}
use pademelon.Actions.Effects.{Domain, Env, World}
use pademelon.Actions.Effects.Steps.{
  Shape, shape, set_shape, HasShape, set_step-HasShape, perform-HasShape, all_settled, some_failed,
}
use pademelon.Actions.Effects.Triples.{
  Triple, Keeps, triple_pure, triple_bind, triple_attempt, keeps_attempt, keeps_bind, triple_left,
}
use pademelon.Actions.Guest.{resend, start_again, reboot}
use pademelon.Actions.Guest.Off.{IsStable, shutdown-Keeps, nudge-Keeps, wait_stopped-IfOk}

-- The steps agree with the result: all settled on success, one failed on an error.
abbrev pub Agrees : {E A : Type 0} → Result E A → World → Type 0
Agrees (ok _) w = all_settled (shape w.steps) ≡ true
Agrees (err _) w = some_failed (shape w.steps) ≡ true

-- Every step is done, none skipped.
unfoldable pub all_done : Shape → Bool
all_done [] = true
all_done ((name, StepState.done) ∷ rest) = all_done rest
all_done ((name, _) ∷ rest) = false

-- The same, with every step done on success.
abbrev pub AgreesDone : {E A : Type 0} → Result E A → World → Type 0
AgreesDone (ok _) w = all_done (shape w.steps) ≡ true
AgreesDone (err _) w = some_failed (shape w.steps) ≡ true

pub HasShape-IsStable : (s : Shape) → IsStable (HasShape s)
HasShape-IsStable s = record { grows = λ w e q p. p }

pub resend-HasShape :
    (env : Env) (d : Domain) (domain : String) (s : Shape) (n : ℕ)
    → set_shape StepName.stop StepState.done s ≡ s
    → Keeps (HasShape s) (resend env d domain n)
unfolding resend
resend-HasShape env d domain s n same =
    triple_bind (shutdown-Keeps (HasShape-IsStable s) env d domain)
      λ sent. record { at = λ w p. (set_step-HasShape s _ _ _).at w p ∙ same }

module _ (env : Env) (d : Domain) (domain : String) where
  abbrev fresh : Shape
  fresh =
      (StepName.stop, StepState.pending)
      ∷ (StepName.verify, StepState.pending)
      ∷ (StepName.start, StepState.pending)
      ∷ []

  abbrev off : Shape
  off =
      (StepName.stop, StepState.done)
      ∷ (StepName.verify, StepState.active)
      ∷ (StepName.start, StepState.pending)
      ∷ []

  start_again-Agrees : Triple (HasShape off) (start_again env d) AgreesDone
  unfolding start_again set_shape all_done some_failed
  start_again-Agrees = triple_bind (set_step-HasShape off _ _ _) λ _.
      keeps_bind (nudge-Keeps (HasShape-IsStable _) env) λ _.
        triple_bind (set_step-HasShape _ _ _ _) λ _.
          keeps_attempt (perform-HasShape _ _ _)
            (λ e. triple_bind (set_step-HasShape _ _ _ _) λ _. triple_pure _ (λ w p. rw p))
            (λ _. triple_bind (set_step-HasShape _ _ _ _) λ _.
              keeps_bind (nudge-Keeps (HasShape-IsStable _) env) λ _. triple_pure _ (λ w p. rw p))

  reboot-Triple : Triple (HasShape fresh) (reboot env d domain) AgreesDone
  unfolding reboot set_shape some_failed
  reboot-Triple = triple_bind (set_step-HasShape fresh _ _ _) λ _.
      keeps_attempt (shutdown-Keeps (HasShape-IsStable _) env d domain)
        (λ e. triple_bind (set_step-HasShape _ _ _ _) λ _. triple_pure _ (λ w p. rw p))
        (λ _. triple_bind (set_step-HasShape _ _ _ _) λ _.
          triple_bind (set_step-HasShape _ _ _ _) λ _.
            triple_attempt
              (wait_stopped-IfOk (HasShape-IsStable _) env d _ _
                (λ n. resend-HasShape env d domain off n refl))
              (λ e.
                triple_left
                  (triple_bind (set_step-HasShape _ _ _ _) λ _. triple_pure _ (λ w p. rw p)))
              (λ _. triple_left start_again-Agrees))

-- A reboot that starts with the steps of its verb ends with steps that agree with its result,
-- whatever libvirt, the agent and the clock answer: on success every phase is done, none
-- skipped, and on an error some phase is marked failed.
pub reboot-Agrees :
    (env : Env) (d : Domain) (domain : String) (w : World)
    → w.steps ≡ steps_for Action.reboot "" false
    → AgreesDone (reboot env d domain w).0 (reboot env d domain w).1
unfolding steps_for
reboot-Agrees env d domain w h = (reboot-Triple env d domain).at w (ap shape h)
