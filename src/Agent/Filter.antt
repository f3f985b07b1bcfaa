-- ===== src/Agent/Filter.antt =====
-- agent.go: which interfaces are virtual, and which addresses and filesystems get no row.
use Prim.Native.Char.{Char, code}
use pademelon.Base.{
  ℕ, String, Bool, true, false, Option, none, some, ◌||◌, ◌&&◌, not, List, [], ◌∷◌, ◌==◌,
  if◌then◌else◌, any, nat_eq, leb, has_prefix, to_lower,
}

-- What the program asks of a parsed address.
pub record IpClass : Type 0 where
  pub is_loopback : Bool
  pub is_link_local_unicast : Bool
  pub is_unspecified : Bool

abbrev pub virtual_iface_prefixes : List String
virtual_iface_prefixes =
    "docker" ∷ "br-" ∷ "veth" ∷ "virbr" ∷ "cni" ∷ "flannel" ∷ "cali" ∷ "tap" ∷ "kube" ∷ "loopback"
    ∷ []

-- `isVirtualIface`.
unfoldable pub is_virtual_iface : String → String → Bool
is_virtual_iface name mac =
    if (name == "lo") || has_prefix name "lo:"
    then true
    else if (mac == "") || (mac == "00:00:00:00:00:00")
    then true
    else any (λ p. has_prefix (to_lower name) p) virtual_iface_prefixes

-- `skipAddr`, of what `net.ParseIP` answers.
unfoldable pub skip_addr : Option IpClass → Bool
skip_addr none = true
skip_addr (some ip) = ip.is_loopback || ip.is_link_local_unicast || ip.is_unspecified

-- The keys of the map.
abbrev pub pseudo_filesystems : List String
pseudo_filesystems =
    "squashfs" ∷ "tmpfs" ∷ "devtmpfs" ∷ "overlay" ∷ "ramfs" ∷ "autofs" ∷ "efivarfs" ∷ "configfs"
    ∷ "debugfs" ∷ "tracefs" ∷ "securityfs" ∷ "pstore" ∷ "bpf" ∷ "cgroup" ∷ "cgroup2" ∷ "mqueue"
    ∷ "hugetlbfs" ∷ "proc" ∷ "sysfs" ∷ "devpts" ∷ "binfmt_misc" ∷ "fusectl" ∷ "nsfs"
    ∷ "fuse.snapfuse" ∷ "iso9660" ∷ "cdfs" ∷ "udf" ∷ []

abbrev pub pseudo_mounts : List String
pseudo_mounts = "/snap/" ∷ "/sys/" ∷ "/proc/" ∷ "/dev/" ∷ "/run/" ∷ "/var/lib/docker/" ∷ []

unfoldable pub is_letter : Char → Bool
is_letter c = (leb b'a' (code c) && leb (code c) b'z') || (leb b'A' (code c) && leb (code c) b'Z')

-- `isDriveLetterPath`. The source reads bytes; a first character beyond ASCII is no letter in either
-- reading, and takes more than one byte.
unfoldable pub is_drive_letter_path : String → Bool
is_drive_letter_path String.[] = false
is_drive_letter_path (String.◌∷◌ c String.[]) = false
is_drive_letter_path (String.◌∷◌ c (String.◌∷◌ d s)) = nat_eq (code d) b':' && is_letter c

-- The lookup in the map, and the loop over the mount trees.
unfoldable pub is_pseudo_type : String → Bool
is_pseudo_type fs_type = any (λ name. name == to_lower fs_type) pseudo_filesystems

unfoldable pub in_pseudo_tree : String → Bool
in_pseudo_tree mount = any (has_prefix mount) pseudo_mounts

-- `skipFilesystem`.
unfoldable pub skip_filesystem : String → String → ℕ → Bool
skip_filesystem fs_type mount total =
    if nat_eq total 0
    then true
    else if is_pseudo_type fs_type
    then true
    else if in_pseudo_tree mount
    then true
    else not (has_prefix mount "/") && not (is_drive_letter_path mount)
