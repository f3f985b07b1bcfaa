-- ===== src/Model.antt =====
-- internal/model/model.go: what the poller knows of a machine, and the cache of its last answer.
-- The floating-point fields (CPU percentage, clock drift) and the percentages are left out.
pub mod Stale
use pademelon.Base.{ℕ, String, Bool, true, false, List, [], ◌∷◌, map, keep, not}
use mathlib.Core.List.{◌++◌}

pub data AgentState : Type 0 where
  absent disconnected ok error : AgentState

pub record Iface : Type 0 where
  pub name : String
  pub mac : String
  pub ipv4 : List String
  pub ipv6 : List String
  pub virtual : Bool

pub record Disk : Type 0 where
  pub dev : String
  pub source : String
  pub format : String
  pub bus : String
  pub capacity_bytes : ℕ
  pub rd_bytes_ps : ℕ
  pub wr_bytes_ps : ℕ
  pub rates_known : Bool

pub record Nic : Type 0 where
  pub device : String
  pub mac : String
  pub bridge : String
  pub guest_name : String
  pub rx_bytes_ps : ℕ
  pub tx_bytes_ps : ℕ
  pub rates_known : Bool

pub record Filesystem : Type 0 where
  pub mountpoint : String
  pub fs_type : String
  pub used_bytes : ℕ
  pub total_bytes : ℕ

pub record ZfsSnapshot : Type 0 where
  pub id : String
  pub dataset : String
  pub name : String
  pub created : ℕ
  pub used : ℕ
  pub referenced : ℕ

pub record Vm : Type 0 where
  pub domain : String
  pub id : ℕ
  pub name : String
  pub uuid : String
  pub state : String
  pub running : Bool
  pub vcpus : ℕ
  pub mem_total_kib : ℕ
  pub mem_used_kib : ℕ
  pub mem_known : Bool
  pub agent : AgentState
  pub agent_error : String
  pub hostname : String
  pub os : String
  pub kernel : String
  pub agent_version : String
  pub interfaces : List Iface
  pub filesystems : List Filesystem
  pub disks : List Disk
  pub nics : List Nic
  pub xml : String
  pub updated : ℕ
  pub stale : Bool

-- The drop of loopback, bridges and veth pairs.
unfoldable pub real_interfaces : Vm → List Iface
real_interfaces v = keep (λ i. not i.virtual) v.interfaces

unfoldable pub addresses : List Iface → List String
addresses [] = []
addresses (i ∷ rest) = i.ipv4 ++ addresses rest

unfoldable pub primary_ips : Vm → List String
unfolding real_interfaces addresses
primary_ips v = addresses (real_interfaces v)

pub record Snapshot : Type 0 where
  pub vms : List Vm
  pub polled : ℕ
  pub poll_ms : ℕ
  pub connected : Bool
  pub error : String

pub record Cache : Type 0 where
  pub snap : Snapshot

unfoldable pub new_cache : Cache
new_cache = record {
  snap = record { vms = []; polled = 0; poll_ms = 0; connected = false; error = "" };
}

unfoldable pub set : Cache → Snapshot → Cache
set c s = record c { snap = s }

unfoldable pub get : Cache → Snapshot
get c = c.snap

abbrev pub mark_stale : Vm → Vm
mark_stale v = record v { stale = true }

-- The list stays; every entry is marked.
unfoldable pub set_error : Cache → String → Cache
set_error c message = record c {
  snap = record c.snap { connected = false; error = message; vms = map mark_stale c.snap.vms };
}
