-- ===== src/Libvirt/Fill.antt =====
-- source.go: what fills the row of a running machine: the guest agent, the balloon, the disks and the
-- NICs. What libvirt answers while a poll runs is a `Host`. Floating-point numbers are left out.
use pademelon.Base.{
  ℤ, ℕ, String, Bool, true, Option, none, some, List, [], ◌∷◌, Result, ok, err, Table, ltb,
  if◌then◌else◌,
}
use pademelon.Model.{Vm, AgentState, Disk, Nic, Snapshot}
use pademelon.Agent.{Decoders, ping, hostname, os_info, interfaces, filesystems, info}
use pademelon.Libvirt.Memory.{MemoryStat, Balloon, balloon_memory}
use pademelon.Libvirt.Rates.{Sample, CpuSample, fill_disk_live, fill_nic_live}
use pademelon.Libvirt.Shapes.{DomainXml}
use pademelon.Libvirt.Watch.{Hints, log_memory_stale}

-- libvirt's `Domain`, and the answer of `DomainGetInfo`.
pub record Domain : Type 0 where
  pub name : String
  pub id : ℕ

pub record DomainInfo : Type 0 where
  pub state : ℕ
  pub max_mem : ℕ
  pub vcpus : ℕ
  pub cpu_time : ℕ

-- The answers during a poll: of libvirt, of the clock, of `encoding/xml` and of the guest agents.
pub record Host : Type 0 where
  pub now : ℕ
  pub domain_info : Domain → Result String DomainInfo
  pub xml_desc : Domain → Result String String
  pub parse_domain_xml : String → DomainXml
  pub memory_stats : Domain → Result String (List MemoryStat)
  pub set_stats_period : Domain → Bool
  pub block_info : Domain → String → Option ℕ
  pub block_stats : Domain → String → Option (ℤ × ℤ)
  pub interface_stats : Domain → String → Option (ℤ × ℤ)
  pub agent_command : Domain → String → Result String (List String)
  pub decoders : Decoders
  pub per_second : ℕ → ℕ → ℕ
  pub stats_period : ℕ

-- The rest of `Source`: what is kept from poll to poll.
pub record Kept : Type 0 where
  pub prev_cpu : Table CpuSample
  pub prev_block : Table Sample
  pub prev_net : Table Sample
  pub last_agent : Table AgentState
  pub last_mem_stale : Table Bool
  pub stats_period_set : Table Bool
  pub agent_events : Hints

first_answer : Result String (List String) → Result String String
first_answer (err e) = err e
first_answer (ok []) = err "empty agent reply"
first_answer (ok (reply ∷ rest)) = ok reply

-- `agentCaller`.
unfoldable pub agent_caller : Host → Domain → String → Result String String
unfolding first_answer
agent_caller h d cmd = first_answer (h.agent_command d cmd)

unfoldable pub fill_hostname : Result String String → Vm → Vm
fill_hostname (ok host) v = record v { hostname = host }
fill_hostname (err e) v = v

unfoldable pub fill_os : Result String (String × String) → Vm → Vm
fill_os (ok (os, kernel)) v = record v { os = os; kernel = kernel }
fill_os (err e) v = v

unfoldable pub fill_interfaces : Result String (List pademelon.Model.Iface) → Vm → Vm
fill_interfaces (ok ifaces) v = record v { interfaces = ifaces }
fill_interfaces (err e) v = v

unfoldable pub fill_filesystems : Result String (List pademelon.Model.Filesystem) → Vm → Vm
fill_filesystems (ok fs) v = record v { filesystems = fs }
fill_filesystems (err e) v = v

unfoldable pub fill_version : Result String (String × List String) → Vm → Vm
fill_version (ok (version, commands)) v = record v { agent_version = version }
fill_version (err e) v = v

unfoldable pub fill_answering : Host → Domain → Result String (Unit {0}) → Vm → Vm
unfolding fill_hostname fill_os fill_interfaces fill_filesystems fill_version
fill_answering h d (err e) v = record v { agent = AgentState.error; agent_error = e }
fill_answering h d (ok done) v =
    let call = agent_caller h d in
    fill_version (info h.decoders call) (
      fill_filesystems (filesystems h.decoders call) (
        fill_interfaces (interfaces h.decoders call) (
          fill_os (os_info h.decoders call)
            (fill_hostname (hostname h.decoders call) (record v { agent = AgentState.ok })))))

-- `fillFromAgent`, less the drift of the clock.
unfoldable pub fill_from_agent : Host → Domain → Vm → Vm
unfolding fill_answering
fill_from_agent h d v = fill_answering h d (ping h.decoders (agent_caller h d)) v

-- `memory`, and what `inspect` takes from it.
unfoldable pub balloon_of : ℕ → Result String (List MemoryStat) → Option Balloon
balloon_of now (err e) = none
balloon_of now (ok stats) = some (balloon_memory stats now)

unfoldable pub with_balloon : Option Balloon → Vm → Vm
with_balloon none v = v
with_balloon (some b) v =
    if b.ok
    then record v {
      mem_used_kib = b.used;
      mem_known = true;
      mem_total_kib = if ltb 0 b.total then b.total else v.mem_total_kib;
    }
    else v

unfoldable pub note_balloon : String → Option Balloon → Kept → Kept
note_balloon domain none k = k
note_balloon domain (some b) k = record k {
  last_mem_stale = (log_memory_stale domain b.stale k.last_mem_stale).1;
}

-- The loops over the disks and the NICs.
unfoldable pub fill_disks : Host → Domain → List Disk → Table Sample → List Disk × Table Sample
fill_disks h d [] prevs = ([], prevs)
fill_disks h d (disk ∷ rest) prevs =
    let one =
      fill_disk_live h.per_second d.name h.now (h.block_info d disk.dev) (h.block_stats d disk.dev)
        disk prevs in
    let others = fill_disks h d rest one.1 in (one.0 ∷ others.0, others.1)

unfoldable pub fill_nics : Host → Domain → List Nic → Table Sample → List Nic × Table Sample
fill_nics h d [] prevs = ([], prevs)
fill_nics h d (nic ∷ rest) prevs =
    let one = fill_nic_live h.per_second d.name h.now (h.interface_stats d nic.device) nic prevs in
    let others = fill_nics h d rest one.1 in (one.0 ∷ others.0, others.1)
