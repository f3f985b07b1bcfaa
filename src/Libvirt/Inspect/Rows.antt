-- ===== src/Libvirt/Inspect/Rows.antt =====
-- The rows of a poll.
use Prim.Native.String.{◌++◌}
use pademelon.Base.{
  ℕ, ◌≡◌, ◌≢◌, ◌⊎◌, inl, inr, refl, String, true, false, none, some, List, [], ◌∷◌, Result, ok, err,
  ok_inj, ok≢err, ◌∙◌, sym, ap, All, any, ◌==◌, Bool-cases, Option-cases, if_both, subst,
}
use pademelon.Model.{Vm, Disk, Nic, AgentState, Snapshot}
use pademelon.Libvirt.Connection.{Link, Daemon, connect, close}
use pademelon.Libvirt.Shapes.{
  XmlDisk, XmlInterface, nic_types, shape_nics, nic_shapes, nic_shape, shape_disks, disk_shapes,
  disk_shape, is_storage, name_parts,
}
use pademelon.Libvirt.Fill.{Domain, DomainInfo, Host, Kept}
use pademelon.Libvirt.Inspect.{
  new_vm, with_parts, with_info, with_xml, inspect_xml, inspect_info, inspect, inspect_all, Polled,
  poll, poll_connected, poll_listed, poll_failed,
}
use pademelon.Libvirt.Inspect.Same.{inspect_running-IsSame}

some_inj : {A : Type 0} {a b : A} → some a ≡ some b → a ≡ b
some_inj h = cc

none≢some : {A : Type 0} {a : A} → none ≡ some a → ⊥
none≢some h = cc

-- A row that shows nothing only a running machine has.
pub record IsQuiet (v : Vm) : Type 0 where
  pub memory : v.mem_known ≡ false
  pub interfaces : v.interfaces ≡ []
  pub filesystems : v.filesystems ≡ []
  pub rates : All (λ (x : Disk). x.rates_known ≡ false) v.disks
  pub net_rates : All (λ (x : Nic). x.rates_known ≡ false) v.nics
  pub silent : v.agent ≢ AgentState.ok

-- The row of one machine, under its name.
pub record IsRow (name : String) (v : Vm) : Type 0 where
  pub named : v.domain ≡ name
  pub honest : (v.running ≡ true) ⊎ IsQuiet v

-- One row for each domain, in the order of the domains.
pub data IsRows : List Domain → List Vm → Type 0 where
  no_rows : IsRows [] []
  row :
      {d : Domain} {v : Vm} {ds : List Domain} {vs : List Vm}
      → IsRow d.name v
      → IsRows ds vs
      → IsRows (d ∷ ds) (v ∷ vs)

shape_disks-All : (l : List XmlDisk) → All (λ (x : Disk). x.rates_known ≡ false) (shape_disks l)
unfolding shape_disks disk_shape
shape_disks-All [] = tt
shape_disks-All (x ∷ rest) = elim (Bool-cases (is_storage x)) [
  | inl storage ↦ rw storage (refl, shape_disks-All rest)
  | inr other ↦ rw other (shape_disks-All rest)
]

shape_nics-All : (l : List XmlInterface) → All (λ (x : Nic). x.rates_known ≡ false) (shape_nics l)
unfolding shape_nics nic_shape
shape_nics-All [] = tt
shape_nics-All (x ∷ rest) = elim (Bool-cases (any (λ t. t == x.kind) nic_types)) [
  | inl known ↦ rw known (refl, shape_nics-All rest)
  | inr other ↦ rw other (shape_nics-All rest)
]

-- A row before the XML: no part of it is live.
record IsFresh (name : String) (v : Vm) : Type 0 where
  named : v.domain ≡ name
  memory : v.mem_known ≡ false
  interfaces : v.interfaces ≡ []
  filesystems : v.filesystems ≡ []
  disks : v.disks ≡ []
  nics : v.nics ≡ []

new_vm-IsFresh :
    (h : Host) (d : Domain) → IsFresh d.name (new_vm h d) × ((new_vm h d).running ≡ false)
unfolding new_vm with_parts
new_vm-IsFresh h d = elim (Option-cases (name_parts d.name)) [
  | inl plain ↦ rw plain (
    record {
      named = refl;
      memory = refl;
      interfaces = refl;
      filesystems = refl;
      disks = refl;
      nics = refl;
    },
    refl,
  )
  | inr (parts, at) ↦ rw at (
    record {
      named = refl;
      memory = refl;
      interfaces = refl;
      filesystems = refl;
      disks = refl;
      nics = refl;
    },
    refl,
  )
]

with_info-IsFresh :
    {name : String} (i : DomainInfo) (v : Vm) → IsFresh name v → IsFresh name (with_info i v)
unfolding with_info
with_info-IsFresh i v f = record {
  named = f.named;
  memory = f.memory;
  interfaces = f.interfaces;
  filesystems = f.filesystems;
  disks = f.disks;
  nics = f.nics;
}

no_rates : (v : Vm) → v.disks ≡ [] → All (λ (x : Disk). x.rates_known ≡ false) v.disks
no_rates v empty = rw empty tt

no_net_rates : (v : Vm) → v.nics ≡ [] → All (λ (x : Nic). x.rates_known ≡ false) v.nics
no_net_rates v empty = rw empty tt

inspect_xml-IsRow :
    (h : Host) (d : Domain) (i : DomainInfo) (r : Result String String) (v : Vm) (k : Kept)
    → IsFresh d.name v
    → IsRow d.name (inspect_xml h d i r v k).0
unfolding inspect_xml with_xml disk_shapes nic_shapes
inspect_xml-IsRow h d i (err e) v k f =
    if_both (IsRow d.name) v.running (λ up. record { named = f.named; honest = inl up })
      λ off. record {
        named = f.named;
        honest = inr (record {
          memory = f.memory;
          interfaces = f.interfaces;
          filesystems = f.filesystems;
          rates = no_rates v f.disks;
          net_rates = no_net_rates v f.nics;
          silent = λ e'. cc;
        });
      }
inspect_xml-IsRow h d i (ok xml) v k f =
    if_both (λ (p : Vm × Kept). IsRow d.name p.0) v.running
      (λ up.
        let s = inspect_running-IsSame h d i xml (with_xml h xml v) k in
        record { named = s.domain ∙ f.named; honest = inl (s.running ∙ up) })
      λ off. record {
        named = f.named;
        honest = inr (record {
          memory = f.memory;
          interfaces = f.interfaces;
          filesystems = f.filesystems;
          rates = shape_disks-All (h.parse_domain_xml xml).disks;
          net_rates = shape_nics-All (h.parse_domain_xml xml).interfaces;
          silent = λ e'. cc;
        });
      }

inspect_info-IsRow :
    (h : Host) (d : Domain) (r : Result String DomainInfo) (v : Vm) (k : Kept)
    → IsFresh d.name v
    → IsRow d.name (inspect_info h d r v k).0
unfolding inspect_info
inspect_info-IsRow h d (err e) v k f = record {
  named = f.named;
  honest = inr (record {
    memory = f.memory;
    interfaces = f.interfaces;
    filesystems = f.filesystems;
    rates = no_rates v f.disks;
    net_rates = no_net_rates v f.nics;
    silent = λ e'. cc;
  });
}
inspect_info-IsRow h d (ok i) v k f =
    inspect_xml-IsRow h d i (h.xml_desc d) (with_info i v) k (with_info-IsFresh i v f)

inspect_all-IsRows : (h : Host) (ds : List Domain) (k : Kept) → IsRows ds (inspect_all h ds k).0
unfolding inspect_all inspect
inspect_all-IsRows h [] k = IsRows.no_rows
inspect_all-IsRows h (d ∷ rest) k =
    IsRows.row (inspect_info-IsRow h d (h.domain_info d) (new_vm h d) _ (new_vm-IsFresh h d).0)
      (inspect_all-IsRows h rest (inspect h d k).1)

failed :
    (e : String) (k : Kept) (l : Link) (p : Polled) {snap : Snapshot}
    → some (record { answer = err e; kept = k; link = l }) ≡ some p
    → p.answer ≡ ok snap
    → ⊥
failed e k l p polled answered =
    ok≢err (sym (ap (λ (q : Polled). q.answer) (some_inj polled) ∙ answered))

listed-IsRows :
    (h : Host) (took : ℕ) (r : Result String (List Domain)) (k : Kept) (l : Link) (p : Polled)
    {snap : Snapshot}
    → poll_listed h took r k l ≡ some p
    → p.answer ≡ ok snap
    → (ds : List Domain) × (r ≡ ok ds) × IsRows ds snap.vms
unfolding poll_listed poll_failed
listed-IsRows h took (err e) k l p polled answered = elim (Option-cases (close l)) [
  | inl stuck ↦ absurd (none≢some (sym (rw stuck refl) ∙ polled))
  | inr (left, at) ↦
      absurd (failed ("list domains: " ++ e) k left p (sym (rw at refl) ∙ polled) answered)
]
listed-IsRows h took (ok ds) k l p polled answered = (
  ds,
  refl,
  subst (λ (s : Snapshot). IsRows ds s.vms)
      (ok_inj (ap (λ (q : Polled). q.answer) (some_inj polled) ∙ answered))
      (inspect_all-IsRows h ds k),
)

-- Where a poll answers with a snapshot, libvirt gave its list of domains, and the snapshot has one
-- row for each of them, in that order and under that name, whatever failed for it; the row of a
-- machine that does not run shows no memory in use, no interface, no filesystem, no throughput of a
-- disk or a network card and no answering agent.
pub poll-IsRows :
    (h : Host) (took : ℕ) (m : Daemon) (list_domains : ℕ → Result String (List Domain)) (k : Kept)
    (l : Link) (p : Polled) (snap : Snapshot)
    → poll h took m list_domains k l ≡ some p
    → p.answer ≡ ok snap
    → (handle : ℕ) × (ds : List Domain) × (list_domains handle ≡ ok ds) × IsRows ds snap.vms
unfolding poll poll_connected
poll-IsRows h took m list_domains k l p snap polled answered = elim (Option-cases (connect m l)) [
  | inl stuck ↦ absurd (none≢some (sym (rw stuck refl) ∙ polled))
  | inr ((err e, left), at) ↦ absurd (failed e k left p (sym (rw at refl) ∙ polled) answered)
  | inr ((ok handle, left), at) ↦
      let listed =
        listed-IsRows h took (list_domains handle) k left p (sym (rw at refl) ∙ polled) answered in
      (handle, listed.0, listed.1, listed.2)
]
