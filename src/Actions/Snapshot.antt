-- ===== src/Actions/Snapshot.antt =====
-- actions.go: the consistent snapshot. Hold the guest still, snapshot every dataset, let it run.
pub mod Names
pub mod Released
pub mod Marked
use Prim.Native.Char.{Char, code}
use Prim.Native.String
use Prim.Native.String.{◌++◌}
use pademelon.Base.{
  ℕ, ◌*◌, String, Bool, true, false, Option, none, some, ◌&&◌, ◌||◌, not, List, [], ◌∷◌, Result, ok,
  err, Table, insert, remove, leb, nat_eq, ◌==◌, if◌then◌else◌, length,
}
use pademelon.Clocks.{second}
use pademelon.Model.{Vm, Disk, AgentState}
use pademelon.Truenas.{dataset_from_disk_source}
use pademelon.Actions.Job.{Job, StepName, StepState, Error, Kind, plain_error}
use pademelon.Actions.Effects.{
  Domain, Env, World, M, Command, fsfreeze_freeze, fsfreeze_thaw, pure, ◌>>=◌, ◌>>◌, attempt,
  branch, fail, succeed, set_step, domain_suspend, domain_resume, create_zfs_snapshot,
  read_snapshot, read_clock, sleep,
}
use pademelon.Actions.Guest.{raw_agent_call, is_agent_ok}

-- `lookupVM`.
unfoldable pub lookup_vm : List Vm → String → Option Vm
lookup_vm [] domain = none
lookup_vm (vm ∷ rest) domain = if vm.domain == domain then some vm else lookup_vm rest domain

-- `truenasDatasets`: the zvols among the disks.
add_dataset : Option String → List String → List String
add_dataset none rest = rest
add_dataset (some ds) rest = ds ∷ rest

unfoldable pub truenas_datasets : List Disk → List String
unfolding add_dataset
truenas_datasets [] = []
truenas_datasets (d ∷ rest) =
    add_dataset (dataset_from_disk_source d.source) (truenas_datasets rest)

within : ℕ → ℕ → ℕ → Bool
within lo hi c = leb lo c && leb c hi

-- A character that ZFS takes.
is_name_char : Char → Bool
unfolding within
is_name_char c =
    within b'a' b'z' (code c)
    || within b'A' b'Z' (code c)
    || within b'0' b'9' (code c)
    || nat_eq (code c) b'_'
    || nat_eq (code c) b'-'
    || nat_eq (code c) b'.'

fold_name : String → String
unfolding is_name_char
fold_name String.[] = ""
fold_name (String.◌∷◌ c s) = String.◌∷◌ (if is_name_char c then c else "-") (fold_name s)

-- `snapshotName`, with the time already printed.
pub snapshot_name : Vm → String → String
unfolding fold_name
snapshot_name vm at =
    "pademelon-" ++ fold_name (if vm.name == "" then vm.domain else vm.name) ++ "-" ++ at

-- `frozenMark` and `frozenClear`.
unfoldable pub frozen_mark : Env → String → M (Unit {0})
frozen_mark env domain = do
  t ← read_clock env
  λ w. (tt, record w { frozen = insert domain t w.frozen })

unfoldable pub frozen_clear : String → M (Unit {0})
frozen_clear domain w = (tt, record w { frozen = remove domain w.frozen })

-- `thaw`: one retry, and the mark goes on success only.
unfoldable pub thaw : Env → Domain → String → M (Result String (Unit {0}))
thaw env d domain =
    attempt (raw_agent_call env d fsfreeze_thaw)
      (λ _. do
        sleep (2 * second)
        attempt (raw_agent_call env d fsfreeze_thaw) (λ e. pure (err e))
            (λ _. do frozen_clear domain; pure (ok tt)))
      (λ _. do frozen_clear domain; pure (ok tt))

-- `froze` and `suspended`, of which at most one is set.
pub data Hold : Type 0 where
  froze suspended no_hold : Hold

module _ (env : Env) (d : Domain) (domain : String) where
  -- The pause of a guest that could not be frozen; `freeze_err` is `%v` of the freeze's error.
  pause_guest : String → M (Result Error Hold)
  pause_guest freeze_err =
      attempt (domain_suspend env d)
        (λ e. do
          set_step StepName.prepare StepState.failed
              ("could not hold the guest still (freeze: " ++ freeze_err ++ ", pause: " ++ e ++ ")")
          fail (
              plain_error (
                "could not hold the guest still (freeze: " ++ freeze_err ++ ", pause: " ++ e
                ++ ")")))
        (λ _. do
          set_step StepName.prepare StepState.done "guest paused for the snapshot"
          succeed Hold.suspended)

  -- The hold phase.
  pub hold_guest : Vm → M (Result Error Hold)
  hold_guest vm =
      branch (vm.state == "running")
        (branch (is_agent_ok vm.agent)
          (do
            set_step StepName.prepare StepState.active "freezing the guest's filesystems"
            attempt (raw_agent_call env d fsfreeze_freeze)
                (λ e. do
                  set_step StepName.prepare StepState.active
                      "fsfreeze did not answer; the job pauses the guest instead"
                  pause_guest e)
                (λ _. do
                  frozen_mark env domain
                  set_step StepName.prepare StepState.done "guest filesystems frozen"
                  succeed Hold.froze))
          (do
            set_step StepName.prepare StepState.active
                "no agent for fsfreeze; the job pauses the guest"
            pause_guest "<nil>"))
        (do
          set_step StepName.prepare StepState.skipped
              ("guest already paused or stopped (" ++ vm.state ++ ")")
          succeed Hold.no_hold)

  abbrev thaw_warning : String → String
  thaw_warning e =
      "WARNING: guest may still be frozen — retry the snapshot's thaw via the sweep, or thaw manually: "
      ++ e

  abbrev pause_warning : String → String
  pause_warning e = "WARNING: guest may still be paused: " ++ e

  -- The release phase; the warnings.
  pub release_guest : Hold → M (List String)
  release_guest Hold.froze = do
    set_step StepName.resume StepState.active "thawing the guest's filesystems"
    attempt (thaw env d domain)
        (λ e. do
          set_step StepName.resume StepState.failed (thaw_warning e)
          pure (thaw_warning e ∷ []))
        (λ _. do set_step StepName.resume StepState.done "guest filesystems thawed"; pure [])
  release_guest Hold.suspended = do
    set_step StepName.resume StepState.active "un-pausing the guest"
    attempt (domain_resume env d)
        (λ e. do
          set_step StepName.resume StepState.failed (pause_warning e)
          pure (pause_warning e ∷ []))
        (λ _. do set_step StepName.resume StepState.done "guest runs again"; pure [])
  release_guest Hold.no_hold = do
    set_step StepName.resume StepState.skipped "nothing to resume"
    pure []

-- The datasets that got their snapshot, and the failures with their reasons, in order.
pub record Outcome : Type 0 where
  pub created : List String
  pub failed : List String

abbrev add_outcome : String → Result String String → Outcome → Outcome
add_outcome ds (ok _) o = record o { created = ds ∷ o.created }
add_outcome ds (err e) o = record o { failed = (ds ++ ": " ++ e) ∷ o.failed }

-- The loop over the datasets: a failure does not stop it.
pub create_all : Env → String → List String → M Outcome
create_all env name [] = pure (record { created = []; failed = [] })
create_all env name (ds ∷ rest) = do
  r ← create_zfs_snapshot env ds name
  more ← create_all env name rest
  pure (add_outcome ds r more)

-- `strings.Join`.
pub join : String → List String → String
join sep [] = ""
join sep (x ∷ []) = x
join sep (x ∷ y ∷ rest) = x ++ sep ++ join sep (y ∷ rest)

is_empty : List String → Bool
is_empty [] = true
is_empty (_ ∷ _) = false

hold_note : Hold → String
hold_note Hold.froze = " — guest filesystems frozen during the snapshot, thawed after"
hold_note Hold.suspended = " — guest paused during the snapshot, un-paused after"
hold_note Hold.no_hold = " — the guest was already paused or stopped"

module _ (env : Env) (d : Domain) (domain : String) where
  -- "failed on %d of %d dataset(s): …".
  failed_text : Outcome → ℕ → String
  failed_text o total =
      "failed on "
      ++ env.show_nat (length o.failed)
      ++ " of "
      ++ env.show_nat total
      ++ " dataset(s): "
      ++ join "; " o.failed

  created_text : String → Outcome → String
  created_text name o =
      "created \"" ++ name ++ "\" on " ++ env.show_nat (length o.created) ++ " dataset(s)"

  -- The snapshot phase.
  pub create_phase : String → List String → M Outcome
  create_phase name datasets = do
    set_step StepName.snapshot StepState.active
        ("creating \"" ++ name ++ "\" on " ++ env.show_nat (length datasets) ++ " dataset(s)")
    o ← create_all env name datasets
    branch (is_empty o.failed) (set_step StepName.snapshot StepState.done (created_text name o))
        (set_step StepName.snapshot StepState.failed (failed_text o (length datasets)))
    pure o

  -- The closing report.
  pub report : String → ℕ → Hold → Outcome → List String → Result Error String
  report name total hold o warnings =
      let note = if is_empty warnings then "" else " " ++ join " " warnings in
      if is_empty o.failed
      then ok (
          "snapshot \""
          ++ name
          ++ "\" created on "
          ++ env.show_nat (length o.created)
          ++ " dataset(s)"
          ++ hold_note hold
          ++ note)
      else err (plain_error ("snapshot \"" ++ name ++ "\" " ++ failed_text o total ++ "." ++ note))

  -- The three phases, once the datasets are known.
  pub snapshot_phases : Vm → String → List String → M (Result Error String)
  snapshot_phases vm name datasets = attempt (hold_guest env d domain vm) fail (λ hold. do
    o ← create_phase name datasets
    warnings ← release_guest env d domain hold
    pure (report name (length datasets) hold o warnings))

  -- `len(datasets) == 0` or the phases, under a name from the clock.
  pub snapshot_datasets : Vm → List String → M (Result Error String)
  snapshot_datasets vm [] = fail (plain_error (domain ++ " has no zvol-backed disks to snapshot"))
  snapshot_datasets vm (ds ∷ rest) = do
    t ← read_clock env
    snapshot_phases vm (snapshot_name vm (env.show_time t)) (ds ∷ rest)

  pub snapshot_vm : Option Vm → M (Result Error String)
  snapshot_vm none = fail (record {
    kind = Kind.unknown_domain;
    message = "unknown domain: " ++ domain ++ " not in the last snapshot";
  })
  snapshot_vm (some vm) = snapshot_datasets vm (truenas_datasets vm.disks)

  -- `snapshot`.
  pub snapshot : M (Result Error String)
  snapshot =
      branch env.config.has_truenas
        (do snap ← read_snapshot env; snapshot_vm (lookup_vm snap.vms domain))
        (fail (record { kind = Kind.middleware_off; message = "middleware integration is off" }))
