-- ===== src/Actions/Job.antt =====
-- actions.go: a job, its steps, and the errors that the package names.

use Prim.Native.String.{◌++◌}
use pademelon.Base.{ℕ, String, Bool, nat_eq, List, [], ◌∷◌, ◌==◌, if◌then◌else◌}
use pademelon.Actions.Verb.{Action}

abbrev pub mode_staged : String
mode_staged = "staged"

abbrev pub mode_direct : String
mode_direct = "direct"

pub data JobState : Type 0 where
  pending running ok failed timeout : JobState

pub data StepState : Type 0 where
  pending active done skipped failed : StepState

pub data StepName : Type 0 where
  stop verify rollback start prepare snapshot resume : StepName

pub record JobStep : Type 0 where
  pub name : StepName
  pub state : StepState
  pub detail : String

-- `steps` is kept beside the job while it runs; see Actions/Effects.
pub record Job : Type 0 where
  pub id : String
  pub domain : String
  pub action : Action
  pub state : JobState
  pub requested : ℕ
  pub detail : String
  pub steps : List JobStep
  pub snapshot : String
  pub mode : String
  pub start_after : Bool
  pub ack : Bool

-- The sentinel that `errors.Is` finds in an error; `plain` if there is none.
pub data Kind : Type 0 where
  unknown_domain invalid_state in_flight unknown_action guest_not_stopped middleware_off : Kind
  guard_unavailable unknown_snapshot bad_restore plain out_of_fuel : Kind

pub record Error : Type 0 where
  pub kind : Kind
  pub message : String

-- `fmt.Errorf("…%w", err)`: the wrapped error keeps its sentinel.
abbrev pub wrap : String → Error → Error
wrap prefix e = record e { message = prefix ++ e.message }

abbrev pub plain_error : String → Error
plain_error m = record { kind = Kind.plain; message = m }

abbrev pub pending_step : StepName → JobStep
pending_step n = record { name = n; state = StepState.pending; detail = "" }

-- `stepsFor`: the steps that a job of this verb and mode starts with, in order of execution.
unfoldable pub steps_for : Action → String → Bool → List JobStep
steps_for Action.restore mode start_after =
    if mode == mode_staged
    then pending_step StepName.stop
      ∷ pending_step StepName.verify
      ∷ pending_step StepName.rollback
      ∷ (if start_after then pending_step StepName.start ∷ [] else [])
    else pending_step StepName.rollback ∷ []
steps_for Action.snapshot mode start_after =
    pending_step StepName.prepare
    ∷ pending_step StepName.snapshot
    ∷ pending_step StepName.resume
    ∷ []
steps_for Action.reboot mode start_after =
    pending_step StepName.stop ∷ pending_step StepName.verify ∷ pending_step StepName.start ∷ []
steps_for _ mode start_after = []

abbrev pub rank : StepName → ℕ
rank StepName.stop = 0
rank StepName.verify = 1
rank StepName.rollback = 2
rank StepName.start = 3
rank StepName.prepare = 4
rank StepName.snapshot = 5
rank StepName.resume = 6

-- The comparison of two step names, whose texts differ.
abbrev pub same_name : StepName → StepName → Bool
same_name a b = nat_eq (rank a) (rank b)

-- The write of `setStep`, under its lock: the first step of that name moves, an empty detail
-- leaves its wording alone, and an unknown name is added at the end.
unfoldable pub set_step_in : StepName → StepState → String → List JobStep → List JobStep
set_step_in n state detail [] = record { name = n; state = state; detail = detail } ∷ []
set_step_in n state detail (x ∷ xs) =
    if same_name x.name n
    then record x { state = state; detail = if detail == "" then x.detail else detail } ∷ xs
    else x ∷ set_step_in n state detail xs

-- What the expired bound does to the steps: the phase it was in did not land.
unfoldable pub fail_active : List JobStep → List JobStep
fail_active [] = []
fail_active (x ∷ xs) =
    elim x.state [ StepState.active ↦ record x { state = StepState.failed } | _ ↦ x ]
    ∷ fail_active xs
