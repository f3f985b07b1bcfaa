-- ===== src/Actions/Restore/Verdict.antt =====
-- What the steps of a restore say when it is over.
use pademelon.Base.{
  ◌≡◌, refl, ap, sym, ◌∙◌, arith, String, Bool, true, false, some, [], ◌∷◌, Result, ok, err, cut_at,
  ◌==◌, eq_iff, false≢true, if◌then◌else◌,
}
use pademelon.Actions.Verb.{Action}
use pademelon.Actions.Job.{Error, Job, mode_staged, StepName, StepState, steps_for}
use pademelon.Actions.Effects.{Domain, Env, World}
use pademelon.Actions.Effects.Steps.{
  Shape, shape, set_shape, HasShape, set_step-HasShape, perform-HasShape, is_settled, all_settled,
  some_failed,
}
use pademelon.Actions.Effects.Triples.{
  Triple, triple_pure, triple_branch, triple_bind, triple_attempt, keeps_attempt, keeps_bind,
  triple_left,
}
use pademelon.Actions.Guest.Off.{shutdown-Keeps, nudge-Keeps, wait_stopped-IfOk}
use pademelon.Actions.Guest.Reboot.{Agrees, HasShape-IsStable, resend-HasShape}
use pademelon.Actions.Restore.{
  stop_guest, confirm_off, finish_restore, roll_back, restore_parts, restore,
}

-- The steps of a staged restore, from the states of its phases.
abbrev tail_shape : Bool → StepState → Shape
tail_shape start_after start = if start_after then (StepName.start, start) ∷ [] else []

abbrev staged_shape : StepState → StepState → StepState → Shape → Shape
staged_shape stop verify rollback rest =
    (StepName.stop, stop) ∷ (StepName.verify, verify) ∷ (StepName.rollback, rollback) ∷ rest

abbrev fresh : Shape → Shape
fresh rest = staged_shape StepState.pending StepState.pending StepState.pending rest

module _ (env : Env) (d : Domain) (job : Job) (staged : job.mode ≡ mode_staged) where
  -- Before the rollback the guest was stopped, or was off already.
  abbrev IsReady : Shape → World → Type 0
  IsReady rest w =
      (s : StepState) × (is_settled s ≡ true)
      × HasShape (staged_shape s StepState.done StepState.pending rest) w

  abbrev ReadyOrFailed : Shape → Result Error String → World → Type 0
  ReadyOrFailed rest (ok _) w = IsReady rest w
  ReadyOrFailed rest (err _) w = some_failed (shape w.steps) ≡ true

  module _ (rest : Shape) where
    stop_guest-Ready : Triple (HasShape (fresh rest)) (stop_guest env d job) (ReadyOrFailed rest)
    unfolding stop_guest set_shape some_failed
    stop_guest-Ready = triple_bind (set_step-HasShape (fresh rest) _ _ _) λ _.
        keeps_attempt (shutdown-Keeps (HasShape-IsStable _) env d job.domain)
          (λ e. triple_bind (set_step-HasShape _ _ _ _) λ _. triple_pure _ (λ w p. rw p))
          (λ _. triple_bind (set_step-HasShape _ _ _ _) λ _.
            triple_bind (set_step-HasShape _ _ _ _) λ _.
              keeps_bind (perform-HasShape _ _ _) λ shut_at.
                triple_attempt
                  (wait_stopped-IfOk (HasShape-IsStable _) env d _ _ (λ n.
                    resend-HasShape env d job.domain
                      (staged_shape StepState.done StepState.active StepState.pending rest) n refl))
                  (λ e.
                    triple_left
                      (triple_bind (set_step-HasShape _ _ _ _) λ _. triple_pure _ (λ w p. rw p)))
                  (λ _. triple_left (
                    keeps_bind (perform-HasShape _ _ _) λ t.
                      triple_bind (set_step-HasShape _ _ _ _) λ _.
                        keeps_bind (nudge-Keeps (HasShape-IsStable _) env)
                          λ _. triple_pure _ (λ w p. (StepState.done, refl, p)))))

    confirm_off-Ready : Triple (HasShape (fresh rest)) (confirm_off env d job) (ReadyOrFailed rest)
    unfolding confirm_off set_shape some_failed
    confirm_off-Ready =
        keeps_attempt (perform-HasShape _ _ _)
          (λ e. triple_bind (set_step-HasShape _ _ _ _) λ _. triple_pure _ (λ w p. rw p))
          (λ state.
            triple_branch _ _ _
              (λ off. triple_bind (set_step-HasShape _ _ _ _) λ _.
                triple_bind (set_step-HasShape _ _ _ _)
                  λ _. triple_pure _ (λ w p. (StepState.skipped, refl, p)))
              (λ _. stop_guest-Ready))

  is_staged : (job.mode == mode_staged) ≡ true
  is_staged = (eq_iff job.mode mode_staged).1 staged

  not_direct : (job.mode == mode_staged) ≡ false → ⊥
  not_direct other = false≢true (sym other ∙ is_staged)

  rolled : StepState → Shape → Shape
  rolled s rest = staged_shape s StepState.done StepState.done rest

  finish_restore-Agrees :
      (start_after : Bool) (s : StepState) (narration : String)
      → job.start_after ≡ start_after
      → is_settled s ≡ true
      → Triple
          (HasShape (rolled s (tail_shape start_after StepState.pending)))
          (finish_restore env d job narration)
          Agrees
  unfolding finish_restore rolled set_shape all_settled some_failed
  finish_restore-Agrees true s narration asked settled =
      triple_branch _ _ _
        (λ _. triple_bind (set_step-HasShape _ _ _ _) λ _.
          keeps_attempt (perform-HasShape _ _ _)
            (λ e.
              triple_bind (set_step-HasShape _ _ _ _)
                λ _. triple_pure _ (λ w p. rw p (ground arith)))
            (λ _. triple_bind (set_step-HasShape _ _ _ _) λ _.
              keeps_bind (nudge-Keeps (HasShape-IsStable _) env)
                λ _. triple_pure _ (λ w p. rw p (ground arith))))
        (λ no. absurd (ground (arith, is_staged)))
  finish_restore-Agrees false s narration asked settled =
      triple_branch _ _ _ (λ e. absurd (ground arith))
        (λ _.
          triple_branch _ _ _ (λ _. triple_pure _ (λ w p. rw p (ground arith)))
            (λ other. absurd (not_direct other)))

  roll_back-Agrees :
      (start_after : Bool) (s : StepState) (dataset name narration : String)
      → job.start_after ≡ start_after
      → is_settled s ≡ true
      → Triple
          (HasShape (
            staged_shape s StepState.done StepState.pending
              (tail_shape start_after StepState.pending)))
          (roll_back env d job dataset name narration)
          Agrees
  unfolding roll_back rolled set_shape some_failed
  roll_back-Agrees start_after s dataset name narration asked settled =
      triple_bind (set_step-HasShape _ _ _ _) λ _.
        keeps_attempt (perform-HasShape _ _ _)
          (λ e.
            triple_bind (set_step-HasShape _ _ _ _) λ _. triple_pure _ (λ w p. rw p (ground arith)))
          (λ _.
            triple_bind (set_step-HasShape _ _ _ _)
              λ _. finish_restore-Agrees start_after s narration asked settled)

  restore_parts-Agrees :
      (dataset name : String)
      → Triple
          (HasShape (fresh (tail_shape job.start_after StepState.pending)))
          (restore_parts env d job dataset name)
          Agrees
  unfolding restore_parts
  restore_parts-Agrees dataset name =
      triple_branch _ _ _
        (λ _.
          triple_attempt (confirm_off-Ready (tail_shape job.start_after StepState.pending))
            (λ e. triple_pure _ (λ w p. p))
            (λ narration. record {
              at = λ w p.
                  (roll_back-Agrees job.start_after p.0 dataset name narration refl p.1).at w p.2;
            }))
        (λ other. absurd (not_direct other))

staged_steps :
    (mode : String) (start_after : Bool)
    → mode ≡ mode_staged
    → shape (steps_for Action.restore mode start_after)
      ≡ fresh (tail_shape start_after StepState.pending)
unfolding steps_for
staged_steps mode true h = rw ((eq_iff mode mode_staged).1 h)
staged_steps mode false h = rw ((eq_iff mode mode_staged).1 h)

-- A staged restore of a well-formed snapshot id that starts with the steps of its verb ends with
-- steps that agree with its result, whatever the outside answers: on success each phase is done or
-- did not apply, and on an error some phase is marked failed.
pub restore-Agrees :
    (env : Env) (d : Domain) (job : Job) (w : World) (parts : String × String)
    → job.mode ≡ mode_staged
    → cut_at job.snapshot ≡ some parts
    → w.steps ≡ steps_for Action.restore job.mode job.start_after
    → Agrees (restore env d job w).0 (restore env d job w).1
unfolding restore
restore-Agrees env d job w parts staged id h =
    rw (id, restore)
      ((restore_parts-Agrees env d job staged parts.0 parts.1).at w
        (ap shape h ∙ staged_steps job.mode job.start_after staged))
