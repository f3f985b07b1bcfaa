-- ===== src/Libvirt/Rates.antt =====
-- source.go: what is kept from poll to poll to turn libvirt's cumulative counters into rates:
-- `fillDiskLive`, `fillNicLive`, `cpuPercent` and the functions that forget samples. The division in
-- floating-point numbers is a parameter, and so is the type of a percentage.
pub mod Polls
pub mod Forget
use Prim.Native.Char.{nul}
use Prim.Native.String.{◌++◌}
use pademelon.Base.{
  ℕ, ◌-◌, ◌^◌, String, Bool, true, false, Option, none, some, ◌||◌, ◌&&◌, not, Table, lookup,
  insert, remove, retain, nat_eq, ltb, leb, ◌==◌, if◌then◌else◌, has_prefix, ℤ, is_negative,
}
use pademelon.Model.{Disk, Nic}

-- `uint64(x)`.
unfoldable pub as_uint64 : ℤ → ℕ
as_uint64 (ℤ.pos n) = n
as_uint64 (ℤ.negsuc n) = 2 ^ 64 - 1 - n

-- A `blockSample` (bytes read and written) or a `netSample` (bytes received and sent).
pub record Sample : Type 0 where
  pub ins : ℕ
  pub outs : ℕ
  pub at : ℕ

unfoldable pub separator : String
separator = String.◌∷◌ nul ""

-- `d.Name + "\x00" + dev`.
unfoldable pub sample_key : String → String → String
sample_key domain dev = domain ++ (separator ++ dev)

module _ (per_second : ℕ → ℕ → ℕ) where
  -- `bytesPerSecond`; `per_second` is the truncated quotient of bytes and time.
  unfoldable pub bytes_per_second : ℕ → ℕ → ℕ → ℕ × Bool
  bytes_per_second prev nowv elapsed =
      if nat_eq elapsed 0 || ltb nowv prev
      then (0, false)
      else (per_second (nowv - prev) elapsed, true)

  disk_rates : ℕ → ℤ → ℤ → Disk → Option Sample → Disk
  unfolding bytes_per_second
  disk_rates now rd wr disk none = disk
  disk_rates now rd wr disk (some prev) =
      let reads = bytes_per_second prev.ins (as_uint64 rd) (now - prev.at) in
      let writes = bytes_per_second prev.outs (as_uint64 wr) (now - prev.at) in
      record disk {
        rd_bytes_ps = reads.0;
        wr_bytes_ps = writes.0;
        rates_known = reads.1 && writes.1;
      }

  -- Once the counters were answered.
  disk_counted : String → ℕ → ℤ → ℤ → Disk → Table Sample → Disk × Table Sample
  unfolding disk_rates
  disk_counted domain now rd wr disk prevs =
      let key = sample_key domain disk.dev in
      let stored =
        insert key (record { ins = as_uint64 rd; outs = as_uint64 wr; at = now }) prevs in
      if is_negative rd || is_negative wr
      then (disk, remove key stored)
      else (disk_rates now rd wr disk (lookup key prevs), stored)

  with_capacity : Option ℕ → Disk → Disk
  with_capacity none disk = disk
  with_capacity (some capacity) disk = record disk { capacity_bytes = capacity }

  disk_answered : String → ℕ → Option (ℤ × ℤ) → Disk → Table Sample → Disk × Table Sample
  unfolding disk_counted
  disk_answered domain now none disk prevs = (disk, prevs)
  disk_answered domain now (some (rd, wr)) disk prevs = disk_counted domain now rd wr disk prevs

  -- `fillDiskLive`, given libvirt's answers on the capacity and on the counters; `none` is an error.
  unfoldable pub fill_disk_live :
      String → ℕ → Option ℕ → Option (ℤ × ℤ) → Disk → Table Sample → Disk × Table Sample
  unfolding disk_answered with_capacity
  fill_disk_live domain now capacity counters disk prevs =
      disk_answered domain now counters (with_capacity capacity disk) prevs

  nic_rates : ℕ → ℤ → ℤ → Nic → Option Sample → Nic
  unfolding bytes_per_second
  nic_rates now rx tx nic none = nic
  nic_rates now rx tx nic (some prev) =
      let received = bytes_per_second prev.ins (as_uint64 rx) (now - prev.at) in
      let sent = bytes_per_second prev.outs (as_uint64 tx) (now - prev.at) in
      record nic {
        rx_bytes_ps = received.0;
        tx_bytes_ps = sent.0;
        rates_known = received.1 && sent.1;
      }

  nic_counted : String → ℕ → ℤ → ℤ → Nic → Table Sample → Nic × Table Sample
  unfolding nic_rates
  nic_counted domain now rx tx nic prevs =
      let key = sample_key domain nic.device in
      let stored =
        insert key (record { ins = as_uint64 rx; outs = as_uint64 tx; at = now }) prevs in
      if is_negative rx || is_negative tx
      then (nic, remove key stored)
      else (nic_rates now rx tx nic (lookup key prevs), stored)

  nic_answered : String → ℕ → Option (ℤ × ℤ) → Nic → Table Sample → Nic × Table Sample
  unfolding nic_counted
  nic_answered domain now none nic prevs = (nic, prevs)
  nic_answered domain now (some (rx, tx)) nic prevs = nic_counted domain now rx tx nic prevs

  -- `fillNicLive`.
  unfoldable pub fill_nic_live :
      String → ℕ → Option (ℤ × ℤ) → Nic → Table Sample → Nic × Table Sample
  unfolding nic_answered
  fill_nic_live domain now counters nic prevs =
      if nic.device == "" then (nic, prevs) else nic_answered domain now counters nic prevs

-- The half of `forgetDomainSamples` for one of the two tables.
unfoldable pub forget_domain_samples : String → Table Sample → Table Sample
forget_domain_samples domain prevs =
    retain (λ key sample. not (has_prefix key (domain ++ separator))) prevs

-- A `cpuSample`.
pub record CpuSample : Type 0 where
  pub cpu_time : ℕ
  pub at : ℕ

module _ {F : Type 0} (percent : ℕ → ℕ → ℕ → F) where
  cpu_against : ℕ → ℕ → ℕ → Option CpuSample → Option F
  cpu_against now cpu_time vcpus none = none
  cpu_against now cpu_time vcpus (some prev) =
      if nat_eq vcpus 0 || nat_eq (now - prev.at) 0 || ltb cpu_time prev.cpu_time
      then none
      else some (percent (cpu_time - prev.cpu_time) (now - prev.at) vcpus)

  -- `cpuPercent`; `percent` is the quotient, clamped to 0 and 100, and `none` is `ok` false.
  unfoldable pub cpu_percent : String → ℕ → ℕ → ℕ → Table CpuSample → Option F × Table CpuSample
  unfolding cpu_against
  cpu_percent domain now cpu_time vcpus prevs = (
    cpu_against now cpu_time vcpus (lookup domain prevs),
    insert domain (record { cpu_time = cpu_time; at = now }) prevs,
  )

-- `forgetCPU`.
unfoldable pub forget_cpu : String → Table CpuSample → Table CpuSample
forget_cpu domain prevs = remove domain prevs
