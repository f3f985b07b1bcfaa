-- ===== src/Agent/Shown.antt =====
-- What of the guest agent's answers reaches the page: the filesystems and the addresses.
use mathlib.Core.List
use mathlib.Core.List.{Memᴰ}
use pademelon.Base.{
  Option, none, some, true≢false, ◌≡◌, ◌⊎◌, inl, inr, String, Bool, true, false, List, [], ◌∷◌,
  Result, ok, err, map, ◌==◌, if◌then◌else◌, not, ◌&&◌, subst, sym, ap, ◌∙◌, refl, ◌↔◌, arith, keep,
  has_prefix, All, All-append, Bool-cases, nat_eq, ok_inj,
}
use pademelon.Model.{Iface, Filesystem, Vm, real_interfaces, addresses, primary_ips}
use pademelon.Agent.Filter.{
  IpClass, skip_addr, skip_filesystem, is_pseudo_type, in_pseudo_tree, is_drive_letter_path,
}
use pademelon.Agent.{
  fsinfo_command, Caller, Decoders, FsReply, real_filesystems, to_filesystem, filesystems, over,
  call, Address, add_addr, add_addrs, to_iface, interfaces, fsinfo_command, IfaceReply,
}

-- A filesystem that a reader of the page wants to see.
pub record IsReal (f : Filesystem) : Type 0 where
  pub sized : nat_eq f.total_bytes 0 ≡ false
  pub kind : is_pseudo_type f.fs_type ≡ false
  pub place : in_pseudo_tree f.mountpoint ≡ false
  pub path : (has_prefix f.mountpoint "/" ≡ true) ⊎ (is_drive_letter_path f.mountpoint ≡ true)

-- An address that parses and that another machine can use.
pub record IsReachable (ds : Decoders) (a : String) : Type 0 where
  pub ip : IpClass
  pub parses : ds.parse_ip a ≡ some ip
  pub not_loopback : ip.is_loopback ≡ false
  pub not_unspecified : ip.is_unspecified ≡ false
  pub not_link_local : ip.is_link_local_unicast ≡ false

kept-IsReachable :
    (ds : Decoders) (a : String) (o : Option IpClass)
    → ds.parse_ip a ≡ o
    → skip_addr o ≡ false
    → IsReachable ds a
unfolding skip_addr
kept-IsReachable ds a none h kept = absurd (true≢false kept)
kept-IsReachable ds a (some ip) h kept = record {
  ip = ip;
  parses = h;
  not_loopback = ground (arith, kept);
  not_unspecified = ground (arith, kept);
  not_link_local = ground (arith, kept);
}

over_ok :
    {A B : Type 0} (f : A → B) (r : Result String A) {b : B} → over f r ≡ ok b → (a : A) × (f a ≡ b)
unfolding over
over_ok f (ok a) h = (a, ok_inj h)
over_ok f (err e) h = cc

-- The tests of `skipFilesystem`, one after the other.
kept_tests :
    (empty kind place rooted drive : Bool)
    → (if empty
        then true
        else if kind
        then true
        else if place
        then true
        else not rooted && not drive)
      ≡ false
    → (empty ≡ false) × (kind ≡ false) × (place ≡ false) × ((rooted ≡ true) ⊎ (drive ≡ true))
kept_tests empty kind place rooted drive h = ground arith

tests_kept :
    (empty kind place rooted drive : Bool)
    → empty ≡ false
    → kind ≡ false
    → place ≡ false
    → (rooted ≡ true) ⊎ (drive ≡ true)
    → (if empty
        then true
        else if kind
        then true
        else if place
        then true
        else not rooted && not drive)
      ≡ false
tests_kept empty kind place rooted drive e k p r = ground arith

to_filesystem-IsReal :
    (r : FsReply)
    → skip_filesystem r.kind r.mountpoint r.total_bytes ≡ false
    → IsReal (to_filesystem r)
unfolding skip_filesystem to_filesystem
to_filesystem-IsReal r h =
    let t =
      kept_tests (nat_eq r.total_bytes 0) (is_pseudo_type r.kind) (in_pseudo_tree r.mountpoint)
        (has_prefix r.mountpoint "/") (is_drive_letter_path r.mountpoint) h in
    record { sized = t.0; kind = t.1; place = t.2; path = t.3 }

IsReal-kept :
    (r : FsReply)
    → IsReal (to_filesystem r)
    → skip_filesystem r.kind r.mountpoint r.total_bytes ≡ false
unfolding skip_filesystem to_filesystem
IsReal-kept r h =
    tests_kept (nat_eq r.total_bytes 0) (is_pseudo_type r.kind) (in_pseudo_tree r.mountpoint)
      (has_prefix r.mountpoint "/") (is_drive_letter_path r.mountpoint) h.sized h.kind h.place
      h.path

real_filesystems-IsReal : (l : List FsReply) → All IsReal (real_filesystems l)
unfolding real_filesystems
real_filesystems-IsReal [] = tt
real_filesystems-IsReal (r ∷ rest) =
    elim (Bool-cases (skip_filesystem r.kind r.mountpoint r.total_bytes)) [
      | inl skipped ↦ rw skipped (real_filesystems-IsReal rest)
      | inr kept ↦ rw kept (to_filesystem-IsReal r kept, real_filesystems-IsReal rest)
    ]

kept-Memᴰ :
    (rs : List FsReply) (r : FsReply)
    → Memᴰ r rs
    → IsReal (to_filesystem r)
    → Memᴰ (to_filesystem r) (real_filesystems rs)
unfolding real_filesystems
kept-Memᴰ [] r m real = elim m [ ]
kept-Memᴰ (x ∷ rest) r (List.Memᴰ.head e) real =
    rw (IsReal-kept x (subst (λ y. IsReal (to_filesystem y)) e real))
      (List.Memᴰ.head (ap to_filesystem e))
kept-Memᴰ (x ∷ rest) r (List.Memᴰ.tail m) real =
    elim (Bool-cases (skip_filesystem x.kind x.mountpoint x.total_bytes)) [
      | inl skipped ↦ rw skipped (kept-Memᴰ rest r m real)
      | inr kept ↦ rw kept (List.Memᴰ.tail (kept-Memᴰ rest r m real))
    ]

All-Memᴰ : {A : Type 0} (P : A → Type 0) (l : List A) {a : A} → All P l → Memᴰ a l → P a
All-Memᴰ P [] all m = elim m [ ]
All-Memᴰ P (x ∷ l) all (List.Memᴰ.head e) = subst P (sym e) all.0
All-Memᴰ P (x ∷ l) all (List.Memᴰ.tail m) = All-Memᴰ P l all.1 m

listed :
    (ds : Decoders) (c : Caller) (rs : List FsReply) {l : List Filesystem}
    → call ds ds.filesystems c fsinfo_command ≡ ok rs
    → filesystems ds c ≡ ok l
    → real_filesystems rs ≡ l
unfolding filesystems over
listed ds c rs answered h = ok_inj (sym (rw answered refl) ∙ h)

-- Where the agent lists filesystems, each one that is passed on has a size, is of no pseudo type
-- whatever the case of its letters, lies in no pseudo tree, and is at a Unix path or a drive letter;
-- and a listed one is passed on exactly when it is like that.
pub filesystems-IsReal :
    (ds : Decoders) (c : Caller) (rs : List FsReply) (l : List Filesystem) (r : FsReply)
    → call ds ds.filesystems c fsinfo_command ≡ ok rs
    → filesystems ds c ≡ ok l
    → Memᴰ r rs
    → All IsReal l × (IsReal (to_filesystem r) ↔ Memᴰ (to_filesystem r) l)
filesystems-IsReal ds c rs l r answered h listing =
    subst (λ k. All IsReal k × (IsReal (to_filesystem r) ↔ Memᴰ (to_filesystem r) k))
      (listed ds c rs answered h)
      (
        real_filesystems-IsReal rs,
        (
          kept-Memᴰ rs r listing,
          All-Memᴰ IsReal (real_filesystems rs) (real_filesystems-IsReal rs),
        ),
      )

add_addr-All :
    (ds : Decoders) (a : Address) (i : Iface)
    → All (IsReachable ds) i.ipv4
    → All (IsReachable ds) (add_addr ds a i).ipv4
unfolding add_addr
add_addr-All ds a i h = elim (Bool-cases (skip_addr (ds.parse_ip a.address))) [
  | inl skipped ↦ rw skipped h
  | inr kept ↦ rw kept (elim (Bool-cases (a.kind == "ipv4")) [
    | inl four ↦ rw four (
        All-append (IsReachable ds) i.ipv4 (a.address ∷ []) h
          (kept-IsReachable ds a.address (ds.parse_ip a.address) refl kept, tt))
    | inr other ↦ rw other (elim (Bool-cases (a.kind == "ipv6")) [
      | inl six ↦ rw six h
      | inr none_of_both ↦ rw none_of_both h
    ])
  ])
]

add_addrs-All :
    (ds : Decoders) (l : List Address) (i : Iface)
    → All (IsReachable ds) i.ipv4
    → All (IsReachable ds) (add_addrs ds l i).ipv4
unfolding add_addrs
add_addrs-All ds [] i h = h
add_addrs-All ds (a ∷ rest) i h = add_addrs-All ds rest (add_addr ds a i) (add_addr-All ds a i h)

-- The addresses of the real interfaces among those of an answer.
answer-All :
    (ds : Decoders) (rs : List IfaceReply)
    → All (IsReachable ds) (addresses (keep (λ i. not i.virtual) (map (to_iface ds) rs)))
unfolding addresses to_iface
answer-All ds [] = tt
answer-All ds (r ∷ rest) = elim (Bool-cases (to_iface ds r).virtual) [
  | inl virtual ↦ rw virtual (answer-All ds rest)
  | inr real ↦
      rw real (All-append (IsReachable ds) _ _ (add_addrs-All ds r.ips _ tt) (answer-All ds rest))
]

ifaces_listed :
    (ds : Decoders) (c : Caller) {l : List Iface}
    → interfaces ds c ≡ ok l
    → (rs : List IfaceReply) × (map (to_iface ds) rs ≡ l)
unfolding interfaces
ifaces_listed ds c h = over_ok _ _ h

-- An address that the page shows for a machine whose interfaces came from the agent parses, and is
-- neither loopback, nor unspecified, nor link-local.
pub primary_ips-IsReachable :
    (ds : Decoders) (c : Caller) (v : Vm)
    → interfaces ds c ≡ ok v.interfaces
    → All (IsReachable ds) (primary_ips v)
unfolding primary_ips real_interfaces
primary_ips-IsReachable ds c v h =
    let l = ifaces_listed ds c h in
    subst (λ k. All (IsReachable ds) (addresses (keep (λ i. not i.virtual) k))) l.1
      (answer-All ds l.0)
