-- ===== src/Libvirt/Inspect.antt =====
-- source.go: `inspect`, the row of one machine, and `Poll`, the rows of all. The poll asks the
-- machines at the same time; each uses entries of its own name only, so the model asks one after the
-- other. A `Host` has one time for a poll.
pub mod Same
pub mod Rows
pub mod Lost
use Prim.Native.String.{◌++◌}
use pademelon.Base.{
  ℕ, ◌-◌, ◌/◌, String, Bool, true, false, Option, none, some, List, [], ◌∷◌, Result, ok, err, not,
  nat_eq, ◌==◌, if◌then◌else◌,
}
use pademelon.Clocks.{millisecond}
use pademelon.Model.{Vm, AgentState, Snapshot}
use pademelon.Libvirt.Rates.{forget_domain_samples, cpu_percent, forget_cpu}
use pademelon.Libvirt.Shapes.{
  DomainXml, agent_channel_state, disk_shapes, nic_shapes, join_nic_guest_names, state_name,
  domain_running, name_parts,
}
use pademelon.Libvirt.Watch.{
  log_agent_transition, enable_stats_period, forget_stats_period, consume_agent_event,
}
use pademelon.Libvirt.Connection.{Link, Daemon, connect, close}
use pademelon.Libvirt.Fill.{
  Domain, DomainInfo, Host, Kept, fill_from_agent, balloon_of, with_balloon, note_balloon,
  fill_disks, fill_nics,
}

with_parts : Option (ℕ × String) → Vm → Vm
with_parts none v = v
with_parts (some (id, name)) v = record v { id = id; name = name }

-- The row before libvirt was asked anything.
unfoldable pub new_vm : Host → Domain → Vm
unfolding with_parts
new_vm h d = with_parts (name_parts d.name) (record {
  domain = d.name;
  id = 0;
  name = d.name;
  uuid = "";
  state = "";
  running = false;
  vcpus = 0;
  mem_total_kib = 0;
  mem_used_kib = 0;
  mem_known = false;
  agent = AgentState.absent;
  agent_error = "";
  hostname = "";
  os = "";
  kernel = "";
  agent_version = "";
  interfaces = [];
  filesystems = [];
  disks = [];
  nics = [];
  xml = "";
  updated = h.now;
  stale = false;
})

unfoldable pub with_info : DomainInfo → Vm → Vm
with_info i v = record v {
  state = state_name i.state;
  running = nat_eq i.state domain_running;
  vcpus = i.vcpus;
  mem_total_kib = i.max_mem;
}

unfoldable pub with_xml : Host → String → Vm → Vm
with_xml h xml v =
    let dx = h.parse_domain_xml xml in
    record v { xml = xml; uuid = dx.uuid; disks = disk_shapes dx; nics = nic_shapes dx }

-- The three functions that a machine off is forgotten by.
unfoldable pub forget_domain : String → Kept → Kept
forget_domain domain k = record k {
  prev_cpu = forget_cpu domain k.prev_cpu;
  prev_block = forget_domain_samples domain k.prev_block;
  prev_net = forget_domain_samples domain k.prev_net;
  stats_period_set = forget_stats_period domain k.stats_period_set;
}

-- The switch over the state of the agent's channel.
unfoldable pub fill_channel : Host → Domain → String → Vm → Vm
fill_channel h d state v =
    if state == ""
    then record v { agent = AgentState.absent }
    else if state == "connected"
    then join_nic_guest_names (fill_from_agent h d v)
    else record v { agent = AgentState.disconnected }

unfoldable pub sample_cpu : Host → Domain → DomainInfo → Kept → Kept
sample_cpu h d i k = record k {
  prev_cpu = (cpu_percent (λ used elapsed vcpus. tt) d.name h.now i.cpu_time i.vcpus k.prev_cpu).1;
}

unfoldable pub start_timer : Host → Domain → Kept → Kept
start_timer h d k = record k {
  stats_period_set =
      (enable_stats_period h.stats_period (h.set_stats_period d) d.name k.stats_period_set).1;
}

-- The part of `inspect` for a machine that runs.
unfoldable pub inspect_running : Host → Domain → DomainInfo → String → Vm → Kept → Vm × Kept
inspect_running h d i xml v k =
    let b = balloon_of h.now (h.memory_stats d) in
    let noted = note_balloon d.name b (start_timer h d (sample_cpu h d i k)) in
    let disks = fill_disks h d v.disks noted.prev_block in
    let nics = fill_nics h d v.nics noted.prev_net in
    let filled =
      fill_channel h d (agent_channel_state (h.parse_domain_xml xml))
        (record (with_balloon b v) { disks = disks.0; nics = nics.0 }) in
    (
      filled,
      record noted {
        prev_block = disks.1;
        prev_net = nics.1;
        last_agent = (log_agent_transition d.name filled.agent noted.last_agent).1;
      },
    )

inspect_xml : Host → Domain → DomainInfo → Result String String → Vm → Kept → Vm × Kept
inspect_xml h d i (err e) v k = (
  if v.running
      then record v { agent = AgentState.error; agent_error = e }
      else record v { agent = AgentState.absent },
  k,
)
inspect_xml h d i (ok xml) v k =
    if v.running
    then inspect_running h d i xml (with_xml h xml v) k
    else (record (with_xml h xml v) { agent = AgentState.absent }, forget_domain d.name k)

inspect_info : Host → Domain → Result String DomainInfo → Vm → Kept → Vm × Kept
unfolding inspect_xml
inspect_info h d (err e) v k =
    (record v { state = "unknown"; agent = AgentState.error; agent_error = e }, k)
inspect_info h d (ok i) v k = inspect_xml h d i (h.xml_desc d) (with_info i v) k

-- `inspect`.
unfoldable pub inspect : Host → Domain → Kept → Vm × Kept
unfolding inspect_info
inspect h d k =
    inspect_info h d (h.domain_info d) (new_vm h d)
      (record k { agent_events = (consume_agent_event d.id k.agent_events).1 })

unfoldable pub inspect_all : Host → List Domain → Kept → List Vm × Kept
inspect_all h [] k = ([], k)
inspect_all h (d ∷ rest) k =
    let one = inspect h d k in let others = inspect_all h rest one.1 in (one.0 ∷ others.0, others.1)

-- What a poll leaves: the answer, what is kept, and the link.
pub record Polled : Type 0 where
  pub answer : Result String Snapshot
  pub kept : Kept
  pub link : Link

poll_failed : String → Kept → Option Link → Option Polled
poll_failed e k none = none
poll_failed e k (some l) =
    some (record { answer = err ("list domains: " ++ e); kept = k; link = l })

poll_listed : Host → ℕ → Result String (List Domain) → Kept → Link → Option Polled
unfolding poll_failed
poll_listed h took (err e) k l = poll_failed e k (close l)
poll_listed h took (ok domains) k l =
    let all = inspect_all h domains k in
    some (record {
      answer = ok (record {
        vms = all.0;
        polled = h.now;
        poll_ms = took / millisecond;
        connected = true;
        error = "";
      });
      kept = all.1;
      link = l;
    })

poll_connected :
    Host
    → ℕ
    → (ℕ → Result String (List Domain))
    → Kept
    → Option (Result String ℕ × Link)
    → Option Polled
unfolding poll_listed
poll_connected h took list_domains k none = none
poll_connected h took list_domains k (some (err e, l)) =
    some (record { answer = err e; kept = k; link = l })
poll_connected h took list_domains k (some (ok handle, l)) =
    poll_listed h took (list_domains handle) k l

-- `Poll`, given how long it takes and what the handle answers to `ConnectListAllDomains`; `none` is
-- a wait for ever in `connect`.
unfoldable pub poll :
    Host → ℕ → Daemon → (ℕ → Result String (List Domain)) → Kept → Link → Option Polled
unfolding poll_connected
poll h took m list_domains k l = poll_connected h took list_domains k (connect m l)
