-- ===== src/Actions/Effects/Steps.antt =====
-- The names and states of a job's steps, with their wording left out.
use pademelon.Base.{
  ◌≡◌, refl, ap, ◌∙◌, Bool, true, false, List, [], ◌∷◌, arith, String, if◌then◌else◌, any, all,
}
use pademelon.Actions.Job.{JobStep, StepName, StepState, same_name, set_step_in}
use pademelon.Actions.Effects.{World, Trace, Event, perform, set_step}
use pademelon.Actions.Effects.Triples.{Triple, Keeps, triple_perform, triple_set_step}

abbrev pub Shape : Type 0
Shape = List (StepName × StepState)

abbrev pub shape : List JobStep → Shape
shape [] = []
shape (x ∷ xs) = (x.name, x.state) ∷ shape xs

unfoldable pub set_shape : StepName → StepState → Shape → Shape
set_shape n state [] = (n, state) ∷ []
set_shape n state ((m, old) ∷ s) =
    if same_name m n then (m, state) ∷ s else (m, old) ∷ set_shape n state s

pub shape-set_step_in :
    (n : StepName) (state : StepState) (detail : String) (xs : List JobStep)
    → shape (set_step_in n state detail xs) ≡ set_shape n state (shape xs)
unfolding set_step_in set_shape
shape-set_step_in n state detail [] = refl
shape-set_step_in n state detail (x ∷ xs) = ground (arith, shape-set_step_in n state detail xs)

abbrev pub HasShape : Shape → World → Type 0
HasShape s w = shape w.steps ≡ s

pub set_step-HasShape :
    (s : Shape) (n : StepName) (state : StepState) (detail : String)
    → Triple (HasShape s) (set_step n state detail) (λ _. HasShape (set_shape n state s))
set_step-HasShape s n state detail =
    triple_set_step n state detail
      (λ w p. shape-set_step_in n state detail w.steps ∙ ap (set_shape n state) p)

-- No call to the outside touches the steps.
pub perform-HasShape :
    {A : Type 0} (s : Shape) (ask : Trace → A) (event : A → Event)
    → Keeps (HasShape s) (perform ask event)
perform-HasShape s ask event = triple_perform ask event (λ w r e p. p)

abbrev pub is_settled : StepState → Bool
is_settled StepState.done = true
is_settled StepState.skipped = true
is_settled _ = false

abbrev pub is_failed : StepState → Bool
is_failed StepState.failed = true
is_failed _ = false

-- Every phase was done or did not apply; some phase broke the job.
unfoldable pub all_settled : Shape → Bool
all_settled = all (λ p. is_settled p.1)

unfoldable pub some_failed : Shape → Bool
some_failed = any (λ p. is_failed p.1)
