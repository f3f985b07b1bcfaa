-- ===== src/Actions/Verb.antt =====
-- actions.go: the verbs, the reviewed list, and the table of states in which a verb is allowed.
pub mod Reviewed
use pademelon.Base.{
  String, ◌≡◌, Bool, true, false, Option, none, some, List, [], ◌∷◌, ◌==◌, if◌then◌else◌, any,
}

pub data Action : Type 0 where
  start shutdown reboot force_off pause resume snapshot restore delete : Action

pub Action-discrete : Discrete Action
Action-discrete = hlevel

-- The string form, in addresses and in the job list.
abbrev pub to_string : Action → String
to_string Action.start = "start"
to_string Action.shutdown = "shutdown"
to_string Action.reboot = "reboot"
to_string Action.force_off = "force-off"
to_string Action.pause = "pause"
to_string Action.resume = "resume"
to_string Action.snapshot = "snapshot"
to_string Action.restore = "restore"
to_string Action.delete = "delete"

abbrev pub all_actions : List Action
all_actions =
    Action.start ∷ Action.shutdown ∷ Action.reboot ∷ Action.force_off ∷ Action.pause ∷ Action.resume
    ∷ Action.snapshot ∷ []

-- `Actions()`: a copy of the list.
pub actions : List Action
actions = all_actions

find_action : List Action → String → Option Action
find_action [] s = none
find_action (a ∷ rest) s = if to_string a == s then some a else find_action rest s

-- `none` is the error "unknown action".
unfoldable pub parse_action : String → Option Action
unfolding find_action
parse_action s = find_action all_actions s

-- The map from state names to `true`, as the list of its keys.
unfoldable pub allowed_states : Action → List String
allowed_states Action.start = "stopped" ∷ []
allowed_states Action.pause = "running" ∷ []
allowed_states Action.resume = "paused" ∷ []
allowed_states Action.shutdown = "running" ∷ []
allowed_states Action.reboot = "running" ∷ []
allowed_states Action.force_off = "running" ∷ "paused" ∷ []
allowed_states Action.snapshot = "running" ∷ "paused" ∷ "stopped" ∷ []
allowed_states Action.restore = []
allowed_states Action.delete = []

-- The lookup `allowedStates(a)[state]`.
unfoldable pub allows : Action → String → Bool
unfolding allowed_states
allows a state = any (λ name. name == state) (allowed_states a)
