-- ===== src/Libvirt/Rates/Polls.antt =====
-- The throughput that two polls of one disk show.
use pademelon.Base.{
  ℤ, is_negative, ℕ, ◌-◌, ◌≡◌, refl, String, Bool, Option, none, some, Table, lookup, insert,
  lookup-insert, arith, ltb, if◌then◌else◌, eq_refl, leb, ◌&&◌, ap, ◌∙◌,
}
use pademelon.Model.{Disk}
use pademelon.Libvirt.Rates.{
  Sample, sample_key, bytes_per_second, disk_rates, disk_counted, with_capacity, disk_answered,
  fill_disk_live, as_uint64,
}

insert_same : (key : String) (x : Sample) (t : Table Sample) → lookup key (insert key x t) ≡ some x
insert_same key x t = rw (lookup-insert key key x t, eq_refl key) refl

module _ (per_second : ℕ → ℕ → ℕ) where
  stored :
      (domain : String) (now : ℕ) (capacity : Option ℕ) (rd wr : ℕ) (disk : Disk)
      (prevs : Table Sample)
      → lookup
          (sample_key domain disk.dev)
          (fill_disk_live per_second domain now capacity (some (ℤ.pos rd, ℤ.pos wr)) disk prevs).1
        ≡ some (record { ins = rd; outs = wr; at = now })
  unfolding fill_disk_live disk_counted disk_answered with_capacity as_uint64 is_negative
  stored domain now none rd wr disk prevs =
      insert_same (sample_key domain disk.dev) (record { ins = rd; outs = wr; at = now }) prevs
  stored domain now (some c) rd wr disk prevs =
      insert_same (sample_key domain disk.dev) (record { ins = rd; outs = wr; at = now }) prevs

  -- The three numbers of a disk that was filled.
  abbrev pub Shows : Disk → Bool → ℕ → ℕ → Type 0
  Shows disk known reads writes =
      (disk.rates_known ≡ known) × (disk.rd_bytes_ps ≡ reads) × (disk.wr_bytes_ps ≡ writes)

  rates_against :
      (now rd wr : ℕ) (disk : Disk) (p : Sample)
      → Shows
          (disk_rates per_second now (ℤ.pos rd) (ℤ.pos wr) disk (some p))
          (ltb p.at now && leb p.ins rd && leb p.outs wr)
          (if ltb p.at now && leb p.ins rd then per_second (rd - p.ins) (now - p.at) else 0)
          (if ltb p.at now && leb p.outs wr then per_second (wr - p.outs) (now - p.at) else 0)
  unfolding disk_rates bytes_per_second as_uint64
  rates_against now rd wr disk p = (ground arith, ground arith, ground arith)

  filled :
      (domain : String) (now : ℕ) (capacity : Option ℕ) (rd wr : ℕ) (disk : Disk)
      (prevs : Table Sample) {p : Sample}
      → lookup (sample_key domain disk.dev) prevs ≡ some p
      → Shows
          (fill_disk_live per_second domain now capacity (some (ℤ.pos rd, ℤ.pos wr)) disk prevs).0
          (ltb p.at now && leb p.ins rd && leb p.outs wr)
          (if ltb p.at now && leb p.ins rd then per_second (rd - p.ins) (now - p.at) else 0)
          (if ltb p.at now && leb p.outs wr then per_second (wr - p.outs) (now - p.at) else 0)
  unfolding fill_disk_live disk_counted disk_answered with_capacity is_negative
  filled domain now none rd wr disk prevs {p} h = rw h (rates_against now rd wr disk p)
  filled domain now (some c) rd wr disk prevs {p} h =
      rw h (rates_against now rd wr (record disk { capacity_bytes = c }) p)

  -- After one poll that got the counters of a disk, the next one that gets them shows the rates as
  -- known exactly if time has passed and neither counter went back, and then as the bytes read and
  -- written in between over the time in between; whatever the earlier samples, the capacity and, for
  -- other disks, the samples of the polls between.
  pub two_polls :
      (domain : String) (t r w t' r' w' : ℕ) (capacity capacity' : Option ℕ) (disk disk' : Disk)
      (prevs prevs' : Table Sample)
      → disk'.dev ≡ disk.dev
      → lookup (sample_key domain disk.dev) prevs'
        ≡ lookup
            (sample_key domain disk.dev)
            (fill_disk_live per_second domain t capacity (some (ℤ.pos r, ℤ.pos w)) disk prevs).1
      → Shows
          (fill_disk_live per_second domain t' capacity' (some (ℤ.pos r', ℤ.pos w')) disk' prevs').0
          (ltb t t' && leb r r' && leb w w')
          (if ltb t t' && leb r r' then per_second (r' - r) (t' - t) else 0)
          (if ltb t t' && leb w w' then per_second (w' - w) (t' - t) else 0)
  two_polls domain t r w t' r' w' capacity capacity' disk disk' prevs prevs' same kept =
      filled domain t' capacity' r' w' disk' prevs' {p = record { ins = r; outs = w; at = t }} (
        ap (λ d. lookup (sample_key domain d) prevs') same
        ∙ (kept ∙ stored domain t capacity r w disk prevs))
