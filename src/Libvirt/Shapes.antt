-- ===== src/Libvirt/Shapes.antt =====
-- source.go: what the domain's XML says of a machine, once `encoding/xml` has read it, and the names
-- of domains and of states.
use Prim.Native.Char.{Char, code}
use pademelon.Base.{
  ℕ, ◌+◌, ◌-◌, ◌*◌, ◌^◌, String, Bool, true, false, Option, none, some, ◌||◌, ◌&&◌, not, List, [],
  ◌∷◌, any, nat_eq, leb, ltb, ◌==◌, if◌then◌else◌, to_lower, equal_fold, map,
}
use pademelon.Model.{Disk, Nic, Iface, Vm}

abbrev pub guest_agent_channel : String
guest_agent_channel = "org.qemu.guest_agent.0"

pub record XmlDisk : Type 0 where
  pub device : String
  pub driver_type : String
  pub source_dev : String
  pub source_file : String
  pub target_dev : String
  pub target_bus : String

pub record XmlInterface : Type 0 where
  pub kind : String
  pub mac_address : String
  pub source_bridge : String
  pub target_dev : String

pub record XmlChannel : Type 0 where
  pub name : String
  pub state : String

-- `domainXML`.
pub record DomainXml : Type 0 where
  pub uuid : String
  pub disks : List XmlDisk
  pub interfaces : List XmlInterface
  pub channels : List XmlChannel

unfoldable pub channel_state : List XmlChannel → String
channel_state [] = ""
channel_state (ch ∷ rest) =
    let later = channel_state rest in if ch.name == guest_agent_channel then ch.state else later

-- `agentChannelState`.
unfoldable pub agent_channel_state : DomainXml → String
agent_channel_state dx = channel_state dx.channels

unfoldable pub is_storage : XmlDisk → Bool
is_storage xd = (xd.device == "disk") && not (xd.target_dev == "")

unfoldable pub disk_shape : XmlDisk → Disk
disk_shape xd = record {
  dev = xd.target_dev;
  source = if xd.source_dev == "" then xd.source_file else xd.source_dev;
  format = xd.driver_type;
  bus = xd.target_bus;
  capacity_bytes = 0;
  rd_bytes_ps = 0;
  wr_bytes_ps = 0;
  rates_known = false;
}

unfoldable pub shape_disks : List XmlDisk → List Disk
shape_disks [] = []
shape_disks (xd ∷ rest) =
    let others = shape_disks rest in if is_storage xd then disk_shape xd ∷ others else others

-- `diskShapes`.
unfoldable pub disk_shapes : DomainXml → List Disk
disk_shapes dx = shape_disks dx.disks

abbrev pub nic_types : List String
nic_types = "bridge" ∷ "network" ∷ "direct" ∷ "ethernet" ∷ []

unfoldable pub nic_shape : XmlInterface → Nic
nic_shape xi = record {
  device = xi.target_dev;
  mac = to_lower xi.mac_address;
  bridge = xi.source_bridge;
  guest_name = "";
  rx_bytes_ps = 0;
  tx_bytes_ps = 0;
  rates_known = false;
}

unfoldable pub shape_nics : List XmlInterface → List Nic
shape_nics [] = []
shape_nics (xi ∷ rest) =
    let others = shape_nics rest in
    if any (λ t. t == xi.kind) nic_types then nic_shape xi ∷ others else others

-- `nicShapes`.
unfoldable pub nic_shapes : DomainXml → List Nic
nic_shapes dx = shape_nics dx.interfaces

unfoldable pub join_name : List Iface → Nic → Nic
join_name [] nic = nic
join_name (iface ∷ rest) nic =
    let later = join_name rest nic in
    if not (iface.mac == "") && equal_fold iface.mac nic.mac
    then record nic { guest_name = iface.name }
    else later

-- `joinNicGuestNames`.
unfoldable pub join_nic_guest_names : Vm → Vm
join_nic_guest_names v = record v { nics = map (join_name v.interfaces) v.nics }

abbrev pub domain_running : ℕ
domain_running = 1

-- `stateName`, with the values of libvirt's `virDomainState`.
unfoldable pub state_name : ℕ → String
state_name state =
    if nat_eq state domain_running
    then "running"
    else if nat_eq state 2
    then "blocked"
    else if nat_eq state 3
    then "paused"
    else if nat_eq state 4
    then "shutting down"
    else if nat_eq state 5
    then "stopped"
    else if nat_eq state 6
    then "crashed"
    else if nat_eq state 7
    then "suspended"
    else "unknown"

unfoldable pub is_digit : Char → Bool
is_digit c = leb b'0' (code c) && leb (code c) b'9'

-- The text at the start that is made of digits, and the rest.
unfoldable pub span_digits : String → String × String
span_digits String.[] = ("", "")
span_digits (String.◌∷◌ c s) =
    let rest = span_digits s in
    if is_digit c then (String.◌∷◌ c rest.0, rest.1) else ("", String.◌∷◌ c s)

unfoldable pub has_newline : String → Bool
has_newline String.[] = false
has_newline (String.◌∷◌ c s) = let rest = has_newline s in if nat_eq (code c) 10 then true else rest

after_digits : String → String → Option (String × String)
after_digits digits String.[] = none
after_digits digits (String.◌∷◌ c name) =
    if (digits == "") || not (nat_eq (code c) b'_') || (name == "") || has_newline name
    then none
    else some (digits, name)

-- `domainNameRE.FindStringSubmatch`: digits, `_`, and a name of at least one character on one line.
-- The digits end where the `_` stands, so a match is unique.
unfoldable pub split_name : String → Option (String × String)
unfolding after_digits
split_name s = let parts = span_digits s in after_digits parts.0 parts.1

unfoldable pub read_digits : ℕ → String → ℕ
read_digits n String.[] = n
read_digits n (String.◌∷◌ c s) = read_digits (n * 10 + (code c - b'0')) s

-- `strconv.Atoi` of digits; `none` is its error of range.
unfoldable pub atoi : String → Option ℕ
atoi digits = let n = read_digits 0 digits in if ltb n (2 ^ 63) then some n else none

numbered : String → Option ℕ → Option (ℕ × String)
numbered name none = none
numbered name (some id) = some (id, name)

parsed_name : Option (String × String) → Option (ℕ × String)
unfolding numbered
parsed_name none = none
parsed_name (some (digits, name)) = numbered name (atoi digits)

-- The id and the name that `inspect` reads from a domain's name.
unfoldable pub name_parts : String → Option (ℕ × String)
unfolding parsed_name
name_parts s = parsed_name (split_name s)
