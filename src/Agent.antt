-- ===== src/Agent.antt =====
-- internal/agent/agent.go: the queries of the guest agent, over a caller that sends one command.
-- What `encoding/json` makes of a reply is a parameter, as is the class of an address that
-- `net.ParseIP` gives.
pub mod Filter
pub mod Shown
use Prim.Native.String.{◌++◌}
use mathlib.Core.List
use pademelon.Base.{
  ℕ, String, Bool, true, false, Option, none, some, List, [], ◌∷◌, Result, ok, err, map, ◌==◌,
  if◌then◌else◌, not, ◌&&◌, trim_space, equal_fold,
}
use pademelon.Model.{Iface, Filesystem}
use pademelon.Agent.Filter.{IpClass, is_virtual_iface, skip_addr, skip_filesystem}

-- `Caller`.
abbrev pub Caller : Type 0
Caller = String → Result String String

-- The envelope `{"return": ..., "error": ...}`; a missing return is an empty text.
pub record Envelope : Type 0 where
  pub return : String
  pub error : Option (String × String)

-- The envelope of a ping; an empty return object counts, so presence is kept.
pub record PingReply : Type 0 where
  pub return : Option String
  pub error : Option String

pub record InfoReply : Type 0 where
  pub version : String
  pub supported : List String

pub record OsReply : Type 0 where
  pub pretty_name : String
  pub name : String
  pub version : String
  pub kernel_release : String
  pub id : String

pub record Address : Type 0 where
  pub kind : String
  pub address : String

pub record IfaceReply : Type 0 where
  pub name : String
  pub mac : String
  pub ips : List Address

pub record FsReply : Type 0 where
  pub mountpoint : String
  pub kind : String
  pub used_bytes : ℕ
  pub total_bytes : ℕ

-- `json.Unmarshal` at each of the types, and `net.ParseIP`. The guest's clock is in nanoseconds.
pub record Decoders : Type 0 where
  pub envelope : String → Result String Envelope
  pub ping : String → Result String PingReply
  pub info : String → Result String InfoReply
  pub time : String → Result String ℕ
  pub hostname : String → Result String String
  pub os : String → Result String OsReply
  pub ifaces : String → Result String (List IfaceReply)
  pub filesystems : String → Result String (List FsReply)
  pub parse_ip : String → Option IpClass

decode_return : {A : Type 0} → Result String A → Result String A
decode_return (ok a) = ok a
decode_return (err e) = err ("decode return: " ++ e)

open_error :
    {A : Type 0} → (String → Result String A) → String → Option (String × String) → Result String A
unfolding decode_return
open_error decode body (some (class, desc)) = err ("agent error: " ++ class ++ ": " ++ desc)
open_error decode body none = if body == "" then err "empty reply" else decode_return (decode body)

open_envelope : {A : Type 0} → (String → Result String A) → Result String Envelope → Result String A
unfolding open_error
open_envelope decode (err e) = err ("decode reply: " ++ e)
open_envelope decode (ok env) = open_error decode env.return env.error

open_raw :
    {A : Type 0} → Decoders → (String → Result String A) → Result String String → Result String A
unfolding open_envelope
open_raw ds decode (err e) = err e
open_raw ds decode (ok raw) = open_envelope decode (ds.envelope raw)

-- `call`, at the type that the reply is decoded into.
unfoldable pub call :
    {A : Type 0} → Decoders → (String → Result String A) → Caller → String → Result String A
unfolding open_raw
call ds decode c cmd = open_raw ds decode (c cmd)

ping_body : String → Option String → Result String (Unit {0})
ping_body raw none = err ("unexpected ping reply: " ++ raw)
ping_body raw (some body) = ok tt

ping_error : String → PingReply → Option String → Result String (Unit {0})
unfolding ping_body
ping_error raw reply (some desc) = err ("agent error: " ++ desc)
ping_error raw reply none = ping_body raw reply.return

ping_reply : String → Result String PingReply → Result String (Unit {0})
unfolding ping_error
ping_reply raw (err e) = err ("decode ping reply: " ++ e)
ping_reply raw (ok reply) = ping_error raw reply reply.error

ping_raw : Decoders → Result String String → Result String (Unit {0})
unfolding ping_reply
ping_raw ds (err e) = err e
ping_raw ds (ok raw) = ping_reply raw (ds.ping raw)

-- `Ping`. The error text is cut after 80 characters in the source; the cut is left out.
unfoldable pub ping : Decoders → Caller → Result String (Unit {0})
unfolding ping_raw
ping ds c = ping_raw ds (c "{\"execute\":\"guest-ping\"}")

unfoldable pub over : {A B : Type 0} → (A → B) → Result String A → Result String B
over f (ok a) = ok (f a)
over f (err e) = err e

-- `Info`.
unfoldable pub info : Decoders → Caller → Result String (String × List String)
info ds c =
    over (λ (r : InfoReply). (r.version, r.supported))
      (call ds ds.info c "{\"execute\":\"guest-info\"}")

-- `Time`.
unfoldable pub time : Decoders → Caller → Result String ℕ
time ds c = call ds ds.time c "{\"execute\":\"guest-get-time\"}"

-- `Hostname`.
unfoldable pub hostname : Decoders → Caller → Result String String
hostname ds c = call ds ds.hostname c "{\"execute\":\"guest-get-host-name\"}"

unfoldable pub os_name : OsReply → String
os_name r = if r.pretty_name == "" then trim_space (r.name ++ " " ++ r.version) else r.pretty_name

unfoldable pub kernel_name : OsReply → String
kernel_name r =
    if not (r.kernel_release == "") && equal_fold r.id "mswindows"
    then "OS Build: " ++ r.kernel_release
    else r.kernel_release

-- `OSInfo`.
unfoldable pub os_info : Decoders → Caller → Result String (String × String)
os_info ds c =
    over (λ (r : OsReply). (os_name r, kernel_name r))
      (call ds ds.os c "{\"execute\":\"guest-get-osinfo\"}")

unfoldable pub add_addr : Decoders → Address → Iface → Iface
add_addr ds a i =
    if skip_addr (ds.parse_ip a.address)
    then i
    else if a.kind == "ipv4"
    then record i { ipv4 = List.◌++◌ i.ipv4 (a.address ∷ []) }
    else if a.kind == "ipv6"
    then record i { ipv6 = List.◌++◌ i.ipv6 (a.address ∷ []) }
    else i

unfoldable pub add_addrs : Decoders → List Address → Iface → Iface
add_addrs ds [] i = i
add_addrs ds (a ∷ rest) i = add_addrs ds rest (add_addr ds a i)

unfoldable pub to_iface : Decoders → IfaceReply → Iface
to_iface ds r = add_addrs ds r.ips (record {
  name = r.name;
  mac = r.mac;
  ipv4 = [];
  ipv6 = [];
  virtual = is_virtual_iface r.name r.mac;
})

-- `Interfaces`.
unfoldable pub interfaces : Decoders → Caller → Result String (List Iface)
interfaces ds c =
    over (map (to_iface ds)) (call ds ds.ifaces c "{\"execute\":\"guest-network-get-interfaces\"}")

unfoldable pub to_filesystem : FsReply → Filesystem
to_filesystem r = record {
  mountpoint = r.mountpoint;
  fs_type = r.kind;
  used_bytes = r.used_bytes;
  total_bytes = r.total_bytes;
}

unfoldable pub real_filesystems : List FsReply → List Filesystem
real_filesystems [] = []
real_filesystems (r ∷ rest) =
    let others = real_filesystems rest in
    if skip_filesystem r.kind r.mountpoint r.total_bytes then others else to_filesystem r ∷ others

abbrev pub fsinfo_command : String
fsinfo_command = "{\"execute\":\"guest-get-fsinfo\"}"

-- `Filesystems`.
unfoldable pub filesystems : Decoders → Caller → Result String (List Filesystem)
filesystems ds c = over real_filesystems (call ds ds.filesystems c fsinfo_command)
