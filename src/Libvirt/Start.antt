-- ===== src/Libvirt/Start.antt =====
-- source.go: `New`, and the whole seconds that libvirt takes.
use pademelon.Base.{
  ℕ, ℤ, positive_or, negated, Bool, false, ◌*◌, ◌-◌, ◌/◌, ◌%◌, ◌^◌, ◌&&◌, not, [], ltb,
  if◌then◌else◌,
}
use pademelon.Clocks.{second, default_agent_timeout, balloon_stale_after}
use pademelon.Libvirt.Fill.{Kept}

-- `secondsInt32`, of a duration that is not negative: the conversion to 32 bits keeps the lower ones.
unfoldable pub seconds_int32 : ℕ → ℤ
seconds_int32 d =
    let n = d / second % 2 ^ 32 in if ltb n (2 ^ 31) then ℤ.pos n else negated (2 ^ 32 - n)

-- `Config`, less the socket and the logger; whether `Notify` is given.
pub record Config : Type 0 where
  pub agent_timeout : ℤ
  pub stats_period : ℤ
  pub concurrency : ℤ
  pub has_notify : Bool

-- What `New` says in the log.
pub record Said : Type 0 where
  pub close_to_stale : Bool
  pub events_enabled : Bool

is_close : ℤ → Bool
is_close (ℤ.pos n) = ltb 0 n && not (ltb (2 * n) balloon_stale_after)
is_close (ℤ.negsuc n) = false

-- The rest of a new `Source`: nothing is kept yet.
abbrev pub new_kept : Kept
new_kept = record {
  prev_cpu = [];
  prev_block = [];
  prev_net = [];
  last_agent = [];
  last_mem_stale = [];
  stats_period_set = [];
  agent_events = [];
}

-- `New`: what it says, the agent's timeout, and what it keeps.
unfoldable pub new_source : Config → Said × ℕ × Kept
unfolding is_close
new_source c = (
  record { close_to_stale = is_close c.stats_period; events_enabled = c.has_notify },
  positive_or default_agent_timeout c.agent_timeout,
  new_kept,
)
