-- ===== src/Actions/Effects.antt =====
-- The calls that leave the package: libvirt through `libvirtsrc.Domains`, guest agents, the
-- middleware client, the poller's last snapshot, the clock, and the poller's nudge channel.
-- Their answers come from an `Env`, which may answer each call by all that happened before it, so
-- a theorem about every `Env` is about every behaviour of the outside and of other goroutines.
pub mod Triples
pub mod Steps
use Prim.Native.String.{◌++◌}
use mathlib.Core.List
use pademelon.Base.{
  ℕ, ◌*◌, nat_eq, String, Bool, true, false, Option, none, some, List, [], ◌∷◌, Result, ok, err,
  Table, insert, remove, if◌then◌else◌,
}
use pademelon.Clocks.{
  second, default_agent_timeout, action_timeout, reboot_timeout, snapshot_action_timeout,
  shutdown_retry_interval,
}
use pademelon.Model.{Snapshot}
use pademelon.Actions.Job.{JobStep, StepName, StepState, Error, Kind, Job, plain_error, set_step_in}

-- A libvirt domain handle: its name and its runtime id.
pub record Domain : Type 0 where
  pub name : String
  pub id : ℕ

-- The guest-agent commands that the package sends.
pub data Command : Type 0 where
  guest_shutdown fsfreeze_freeze fsfreeze_thaw fsfreeze_status : Command

-- One call with its answer.
pub data Event : Type 0 where
  connected : Result String (Unit {0}) → Event
  listed : Result String (List Domain) → Event
  info_read : Domain → Result String ℕ → Event
  created suspended resumed destroyed acpi_sent : Domain → Result String (Unit {0}) → Event
  agent_answered : Domain → Command → Result String (List String) → Event
  rolled_back : String → String → Bool → Result String (Unit {0}) → Event
  snapshot_created : String → String → Result String String → Event
  snapshot_deleted : String → String → Result String Bool → Event
  snapshot_read : Snapshot → Event
  clock_read : ℕ → Event
  slept : ℕ → Event
  nudged : Event

-- What happened so far, the newest first.
abbrev pub Trace : Type 0
Trace = List Event

-- The part of `Config` that is plain data, after `New` filled in the defaults.
pub record Config : Type 0 where
  pub agent_timeout : ℕ
  pub timeout : ℕ
  pub reboot_timeout : ℕ
  pub snapshot_timeout : ℕ
  pub wait_poll : ℕ
  pub shutdown_retry : ℕ
  pub has_nudge : Bool
  pub has_truenas : Bool

abbrev pub or_default : ℕ → ℕ → ℕ
or_default given fallback = if nat_eq given 0 then fallback else given

-- `New` on the durations; one that is zero or negative in Go is 0 here.
unfoldable pub with_defaults : Config → Config
with_defaults c = record c {
  agent_timeout = or_default c.agent_timeout default_agent_timeout;
  timeout = or_default c.timeout action_timeout;
  reboot_timeout = or_default c.reboot_timeout reboot_timeout;
  snapshot_timeout = or_default c.snapshot_timeout snapshot_action_timeout;
  wait_poll = or_default c.wait_poll (2 * second);
  shutdown_retry = or_default c.shutdown_retry shutdown_retry_interval;
}

-- The outside. `domain_shutoff` is libvirt's number for a machine that is off. The last fields
-- are printing of Go's `fmt` and `time` packages (`show_rounded` rounds to seconds), and the
-- decoding of an agent's answer by `encoding/json`.
pub record Env : Type 0 where
  pub config : Config
  pub connect : Trace → Result String (Unit {0})
  pub list_domains : Trace → Result String (List Domain)
  pub get_info : Trace → Domain → Result String ℕ
  pub create : Trace → Domain → Result String (Unit {0})
  pub suspend : Trace → Domain → Result String (Unit {0})
  pub resume : Trace → Domain → Result String (Unit {0})
  pub destroy : Trace → Domain → Result String (Unit {0})
  pub acpi_shutdown : Trace → Domain → Result String (Unit {0})
  pub agent : Trace → Domain → Command → Result String (List String)
  pub rollback : Trace → String → String → Bool → Result String (Unit {0})
  pub create_snapshot : Trace → String → String → Result String String
  pub delete_snapshot : Trace → String → String → Result String Bool
  pub last_snapshot : Trace → Snapshot
  pub now : Trace → ℕ
  pub domain_shutoff : ℕ
  pub show_nat : ℕ → String
  pub show_duration : ℕ → String
  pub show_rounded : ℕ → String
  pub show_time : ℕ → String
  pub decode_return : String → Option String

-- What a running job can change: the outside, its own steps, and the marks of frozen guests.
pub record World : Type 0 where
  pub trace : Trace
  pub steps : List JobStep
  pub frozen : Table ℕ

abbrev pub M : Type 0 → Type 0
M A = World → A × World

unfoldable pub pure : {A : Type 0} → A → M A
pure a w = (a, w)

infixl 5 ◌>>=◌ ◌>>◌
unfoldable pub ◌>>=◌ : {A B : Type 0} → M A → (A → M B) → M B
◌>>=◌ m f w = let (a, w') = m w in f a w'

abbrev pub ◌>>◌ : {A B : Type 0} → M A → M B → M B
m >> k = m >>= λ _. k

-- `if a, err := m; err != nil { on_error } else { rest }`.
unfoldable pub on_result : {E A B : Type 0} → Result E A → (E → M B) → (A → M B) → M B
on_result (ok a) on_error rest = rest a
on_result (err e) on_error rest = on_error e

unfoldable pub attempt : {E A B : Type 0} → M (Result E A) → (E → M B) → (A → M B) → M B
unfolding on_result
attempt m on_error rest w = let (r, w') = m w in on_result r on_error rest w'

-- `if b { m } else { n }`.
unfoldable pub branch : {A : Type 0} → Bool → M A → M A → M A
branch true m n = m
branch false m n = n

-- `return "", err` and `return a, nil`.
abbrev pub fail : {A : Type 0} → Error → M (Result Error A)
fail e = pure (err e)

abbrev pub succeed : {A : Type 0} → A → M (Result Error A)
succeed a = pure (ok a)

-- A call is answered by the past, and becomes part of it.
unfoldable pub perform : {R : Type 0} → (Trace → R) → (R → Event) → M R
perform ask event w = let r = ask w.trace in (r, record w { trace = event r ∷ w.trace })

-- `setStep`.
unfoldable pub set_step : StepName → StepState → String → M (Unit {0})
set_step n state detail w = (tt, record w { steps = set_step_in n state detail w.steps })

module _ (env : Env) where
  abbrev pub domain_get_info : Domain → M (Result String ℕ)
  domain_get_info d = perform (λ t. env.get_info t d) (Event.info_read d)

  abbrev pub domain_create : Domain → M (Result String (Unit {0}))
  domain_create d = perform (λ t. env.create t d) (Event.created d)

  abbrev pub domain_suspend : Domain → M (Result String (Unit {0}))
  domain_suspend d = perform (λ t. env.suspend t d) (Event.suspended d)

  abbrev pub domain_resume : Domain → M (Result String (Unit {0}))
  domain_resume d = perform (λ t. env.resume t d) (Event.resumed d)

  abbrev pub domain_destroy : Domain → M (Result String (Unit {0}))
  domain_destroy d = perform (λ t. env.destroy t d) (Event.destroyed d)

  abbrev pub domain_shutdown_acpi : Domain → M (Result String (Unit {0}))
  domain_shutdown_acpi d = perform (λ t. env.acpi_shutdown t d) (Event.acpi_sent d)

  abbrev pub agent_command : Domain → Command → M (Result String (List String))
  agent_command d c = perform (λ t. env.agent t d c) (Event.agent_answered d c)

  abbrev pub rollback_snapshot : String → String → Bool → M (Result String (Unit {0}))
  rollback_snapshot dataset name recursive =
      perform (λ t. env.rollback t dataset name recursive)
        (Event.rolled_back dataset name recursive)

  abbrev pub create_zfs_snapshot : String → String → M (Result String String)
  create_zfs_snapshot dataset name =
      perform (λ t. env.create_snapshot t dataset name) (Event.snapshot_created dataset name)

  abbrev pub delete_zfs_snapshot : String → String → M (Result String Bool)
  delete_zfs_snapshot dataset name =
      perform (λ t. env.delete_snapshot t dataset name) (Event.snapshot_deleted dataset name)

  -- `Conn.WithConnection`: a live connection, or why there is none.
  abbrev pub with_connection : M (Result String (Unit {0}))
  with_connection = perform env.connect Event.connected

  abbrev pub list_all_domains : M (Result String (List Domain))
  list_all_domains = perform env.list_domains Event.listed

  abbrev pub read_snapshot : M Snapshot
  read_snapshot = perform env.last_snapshot Event.snapshot_read

  abbrev pub read_clock : M ℕ
  read_clock = perform env.now Event.clock_read

  -- `nudgePoller`: a full channel already holds a nudge, so a send is never waited for.
  unfoldable pub nudge_poller : M (Unit {0})
  nudge_poller = branch env.config.has_nudge (perform (λ _. tt) (λ _. Event.nudged)) (pure tt)

abbrev pub sleep : ℕ → M (Unit {0})
sleep d = perform (λ _. tt) (λ _. Event.slept d)
