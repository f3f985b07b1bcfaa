-- ===== src/Libvirt/Memory.antt =====
-- source.go: `balloonMemory`. Times are in nanoseconds since the epoch, the guest's stamp in seconds.
pub mod Reading
use pademelon.Base.{
  ℕ, ◌+◌, ◌-◌, ◌*◌, ◌^◌, Bool, true, false, Option, none, some, List, [], ◌∷◌, ◌&&◌, nat_eq, ltb,
  leb, ◌||◌, if◌then◌else◌,
}
use pademelon.Clocks.{second, balloon_stale_after}

-- libvirt's `DomainMemoryStat`.
pub record MemoryStat : Type 0 where
  pub tag : ℕ
  pub val : ℕ

abbrev pub mem_stat_unused : ℕ
mem_stat_unused = 4

abbrev pub mem_stat_available : ℕ
mem_stat_available = 5

abbrev pub mem_stat_usable : ℕ
mem_stat_usable = 8

abbrev pub mem_stat_last_update : ℕ
mem_stat_last_update = 9

-- The variables of the loop; `none` where its `have` is false.
pub record Gathered : Type 0 where
  pub available : Option ℕ
  pub unused : Option ℕ
  pub usable : Option ℕ
  pub last_update : Option ℕ

abbrev pub nothing : Gathered
nothing = record { available = none; unused = none; usable = none; last_update = none }

unfoldable pub gather_one : MemoryStat → Gathered → Gathered
gather_one st g =
    if nat_eq st.tag mem_stat_available
    then record g { available = some st.val }
    else if nat_eq st.tag mem_stat_unused
    then record g { unused = some st.val }
    else if nat_eq st.tag mem_stat_usable
    then record g { usable = some st.val }
    else if nat_eq st.tag mem_stat_last_update
    then record g { last_update = some st.val }
    else g

unfoldable pub gather : List MemoryStat → Gathered → Gathered
gather [] g = g
gather (st ∷ rest) g = gather rest (gather_one st g)

-- The four results.
pub record Balloon : Type 0 where
  pub used : ℕ
  pub total : ℕ
  pub ok : Bool
  pub stale : Bool

abbrev pub unusable : Balloon
unusable = record { used = 0; total = 0; ok = false; stale = false }

-- A stamp of 2 ^ 63 or more is negative as `int64`, and counts as no stamp. The count of `time.Unix`
-- starts in the year 1, so the last stamps below that wrap around to a time before all others, and
-- `Sub` then stops at the greatest duration.
abbrev unix_to_internal : ℕ
unix_to_internal = 62135596800

unfoldable pub is_dated : ℕ → Option ℕ → Bool
is_dated now none = false
is_dated now (some stamp) =
    ltb 0 stamp
    && ltb stamp (2 ^ 63)
    && (leb (2 ^ 63) (stamp + unix_to_internal) || ltb (stamp * second + balloon_stale_after) now)

unfoldable pub fits : ℕ → Option ℕ → Bool
fits available none = false
fits available (some left) = leb left available

unfoldable pub used_of : ℕ → Option ℕ → ℕ
used_of available none = 0
used_of available (some left) = available - left

reading : ℕ → ℕ → Gathered → Balloon
reading now available g =
    if is_dated now g.last_update
    then record unusable { stale = true }
    else if fits available g.usable
    then record { used = used_of available g.usable; total = available; ok = true; stale = false }
    else if fits available g.unused
    then record { used = used_of available g.unused; total = available; ok = true; stale = false }
    else unusable

judge_gathered : ℕ → Gathered → Option ℕ → Balloon
unfolding reading
judge_gathered now g none = unusable
judge_gathered now g (some available) = reading now available g

-- `balloonMemory`.
unfoldable pub balloon_memory : List MemoryStat → ℕ → Balloon
unfolding judge_gathered
balloon_memory stats now = let g = gather stats nothing in judge_gathered now g g.available
