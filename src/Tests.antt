-- ===== src/Tests.antt =====
-- Concrete machines, environments and requests, and what the development says of them.
mod Jobs
mod Registry
mod Rest
mod Snapshots
mod Agents
mod Poller
mod Serving
mod Wired
use mathlib.Core.List
use Prim.Native.String
use pademelon.Base.{
  ℕ, ◌+◌, ◌*◌, String, Bool, true, false, Option, none, some, List, [], ◌∷◌, Result, ok, err, Table,
}
use pademelon.Clocks.{
  second, minute, action_timeout, reboot_timeout, shutdown_retry_interval, snapshot_action_timeout,
  default_agent_timeout,
}
use pademelon.Model.{Vm, Disk, Snapshot, AgentState}
use pademelon.Actions.Verb.{Action}
use pademelon.Actions.Job.{Job, JobState, JobStep, steps_for, mode_staged, mode_direct}
use pademelon.Actions.Effects.{Domain, Env, Event, Trace, World, Config}

abbrev pub zvol_disk : Disk
zvol_disk = record {
  dev = "vda";
  source = "/dev/zvol/tank/vm1";
  format = "raw";
  bus = "virtio";
  capacity_bytes = 0;
  rd_bytes_ps = 0;
  wr_bytes_ps = 0;
  rates_known = false;
}

abbrev pub running_vm : Vm
running_vm = record {
  domain = "vm1";
  id = 1;
  name = "vm1";
  uuid = "";
  state = "running";
  running = true;
  vcpus = 1;
  mem_total_kib = 0;
  mem_used_kib = 0;
  mem_known = false;
  agent = AgentState.ok;
  agent_error = "";
  hostname = "";
  os = "";
  kernel = "";
  agent_version = "";
  interfaces = [];
  filesystems = [];
  disks = zvol_disk ∷ [];
  nics = [];
  xml = "";
  updated = 0;
  stale = false;
}

abbrev pub one_vm : Snapshot
one_vm = record { vms = running_vm ∷ []; polled = 0; poll_ms = 0; connected = true; error = "" }

abbrev pub config : Config
config = record {
  agent_timeout = default_agent_timeout;
  timeout = action_timeout;
  reboot_timeout = reboot_timeout;
  snapshot_timeout = snapshot_action_timeout;
  wait_poll = 2 * second;
  shutdown_retry = shutdown_retry_interval;
  has_nudge = true;
  has_truenas = true;
}

-- The time that was slept so far.
abbrev pub slept_time : Trace → ℕ
slept_time [] = 0
slept_time (Event.slept d ∷ t) = slept_time t + d
slept_time (_ ∷ t) = slept_time t

abbrev pub guest : Domain
guest = record { name = "vm1"; id = 1 }

-- A host on which every call works, the machine is off whenever libvirt is asked, and time passes
-- only in a sleep.
abbrev pub calm : Env
calm = record {
  config = config;
  connect = λ t. ok tt;
  list_domains = λ t. ok (guest ∷ []);
  get_info = λ t d. ok 5;
  create = λ t d. ok tt;
  suspend = λ t d. ok tt;
  resume = λ t d. ok tt;
  destroy = λ t d. ok tt;
  acpi_shutdown = λ t d. ok tt;
  agent = λ t d c. ok ("{}" ∷ []);
  rollback = λ t dataset name recursive. ok tt;
  create_snapshot = λ t dataset name. ok "id";
  delete_snapshot = λ t dataset name. ok true;
  last_snapshot = λ t. one_vm;
  now = slept_time;
  domain_shutoff = 5;
  show_nat = λ n. "n";
  show_duration = λ n. "3m0s";
  show_rounded = λ n. "1s";
  show_time = λ n. "2026-01-01_00-00-00";
  decode_return = λ s. none;
}

abbrev pub staged_job : Job
staged_job = record {
  id = "a1";
  domain = "vm1";
  action = Action.restore;
  state = JobState.pending;
  requested = 7;
  detail = "";
  steps = [];
  snapshot = "tank/vm1@monday";
  mode = mode_staged;
  start_after = true;
  ack = false;
}

abbrev pub reboot_job : Job
reboot_job = record staged_job { action = Action.reboot; snapshot = ""; mode = "" }

abbrev pub world : List JobStep → World
world steps = record { trace = []; steps = steps; frozen = ("vm1", 3) ∷ [] }
