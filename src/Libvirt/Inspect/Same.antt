-- ===== src/Libvirt/Inspect/Same.antt =====
-- What the agent, the balloon and the channel fill in leaves the machine and its state alone.
use pademelon.Base.{
  ◌≡◌, inl, inr, refl, String, Option, none, some, List, Result, ok, err, ◌∙◌, Bool-cases, ◌==◌,
}
use pademelon.Model.{Vm, AgentState, Iface, Filesystem}
use pademelon.Agent.{ping, hostname, os_info, interfaces, filesystems, info}
use pademelon.Libvirt.Memory.{Balloon}
use pademelon.Libvirt.Shapes.{agent_channel_state, join_nic_guest_names}
use pademelon.Libvirt.Fill.{
  Domain, DomainInfo, Host, Kept, fill_from_agent, fill_answering, balloon_of, with_balloon,
  agent_caller, fill_hostname, fill_os, fill_interfaces, fill_filesystems, fill_version,
}
use pademelon.Libvirt.Inspect.{fill_channel, inspect_running}

-- Two rows of one machine in one state.
pub record IsSame (v w : Vm) : Type 0 where
  pub domain : w.domain ≡ v.domain
  pub running : w.running ≡ v.running

pub same : (v : Vm) → IsSame v v
same v = record { domain = refl; running = refl }

pub trans : {u v w : Vm} → IsSame u v → IsSame v w → IsSame u w
trans p q = record { domain = q.domain ∙ p.domain; running = q.running ∙ p.running }

-- Each of the agent's answers leaves the machine and its state alone.
module _ (v : Vm) where
  fill_hostname-IsSame : (r : Result String String) → IsSame v (fill_hostname r v)
  unfolding fill_hostname
  fill_hostname-IsSame (ok host) = record { domain = refl; running = refl }
  fill_hostname-IsSame (err e) = same v

  fill_os-IsSame : (r : Result String (String × String)) → IsSame v (fill_os r v)
  unfolding fill_os
  fill_os-IsSame (ok (os, kernel)) = record { domain = refl; running = refl }
  fill_os-IsSame (err e) = same v

  fill_interfaces-IsSame : (r : Result String (List Iface)) → IsSame v (fill_interfaces r v)
  unfolding fill_interfaces
  fill_interfaces-IsSame (ok ifaces) = record { domain = refl; running = refl }
  fill_interfaces-IsSame (err e) = same v

  fill_filesystems-IsSame : (r : Result String (List Filesystem)) → IsSame v (fill_filesystems r v)
  unfolding fill_filesystems
  fill_filesystems-IsSame (ok fs) = record { domain = refl; running = refl }
  fill_filesystems-IsSame (err e) = same v

  fill_version-IsSame : (r : Result String (String × List String)) → IsSame v (fill_version r v)
  unfolding fill_version
  fill_version-IsSame (ok (version, commands)) = record { domain = refl; running = refl }
  fill_version-IsSame (err e) = same v

fill_answering-IsSame :
    (h : Host) (d : Domain) (r : Result String (Unit {0})) (v : Vm)
    → IsSame v (fill_answering h d r v)
unfolding fill_answering
fill_answering-IsSame h d (err e) v = record { domain = refl; running = refl }
fill_answering-IsSame h d (ok done) v =
    let call = agent_caller h d in
    let v1 = record v { agent = AgentState.ok } in
    let v2 = fill_hostname (hostname h.decoders call) v1 in
    let v3 = fill_os (os_info h.decoders call) v2 in
    let v4 = fill_interfaces (interfaces h.decoders call) v3 in
    let v5 = fill_filesystems (filesystems h.decoders call) v4 in
    let start : IsSame v v1 = record { domain = refl; running = refl } in
    trans start (
      trans (fill_hostname-IsSame v1 (hostname h.decoders call)) (
        trans (fill_os-IsSame v2 (os_info h.decoders call)) (
          trans (fill_interfaces-IsSame v3 (interfaces h.decoders call)) (
            trans (fill_filesystems-IsSame v4 (filesystems h.decoders call))
              (fill_version-IsSame v5 (info h.decoders call))))))

fill_channel-IsSame :
    (h : Host) (d : Domain) (state : String) (v : Vm) → IsSame v (fill_channel h d state v)
unfolding fill_channel fill_from_agent join_nic_guest_names
fill_channel-IsSame h d state v = elim (Bool-cases (state == "")) [
  | inl none_there ↦ rw none_there (record { domain = refl; running = refl })
  | inr there ↦ rw there (elim (Bool-cases (state == "connected")) [
    | inl connected ↦ rw connected (
        let filled = fill_answering-IsSame h d (ping h.decoders (agent_caller h d)) v in
        record { domain = filled.domain; running = filled.running })
    | inr other ↦ rw other (record { domain = refl; running = refl })
  ])
]

with_balloon-IsSame : (o : Option Balloon) (v : Vm) → IsSame v (with_balloon o v)
unfolding with_balloon
with_balloon-IsSame none v = same v
with_balloon-IsSame (some b) v = elim (Bool-cases b.ok) [
  | inl good ↦ rw good (record { domain = refl; running = refl })
  | inr bad ↦ rw bad (same v)
]

pub inspect_running-IsSame :
    (h : Host) (d : Domain) (i : DomainInfo) (xml : String) (v : Vm) (k : Kept)
    → IsSame v (inspect_running h d i xml v k).0
unfolding inspect_running
inspect_running-IsSame h d i xml v k =
    let b = with_balloon-IsSame (balloon_of h.now (h.memory_stats d)) v in
    trans (record { domain = b.domain; running = b.running })
      (fill_channel-IsSame h d (agent_channel_state (h.parse_domain_xml xml)) _)
