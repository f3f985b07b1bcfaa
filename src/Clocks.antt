-- ===== src/Clocks.antt =====
-- internal/clocks/clocks.go: the timers, in nanoseconds as Go's `time.Duration` counts them.
use pademelon.Base.{ℕ, ◌*◌}

abbrev pub nanosecond : ℕ
nanosecond = 1

abbrev pub millisecond : ℕ
millisecond = 1_000_000 * nanosecond

abbrev pub second : ℕ
second = 1000 * millisecond

abbrev pub minute : ℕ
minute = 60 * second

abbrev pub hour : ℕ
hour = 60 * minute

abbrev pub default_agent_timeout : ℕ
default_agent_timeout = 5 * second

abbrev pub default_stats_period : ℕ
default_stats_period = 10 * second

abbrev pub session_cookie_max_age : ℕ
session_cookie_max_age = 30 * 24 * hour

abbrev pub auth_backoff_base : ℕ
auth_backoff_base = 500 * millisecond

abbrev pub auth_backoff_max : ℕ
auth_backoff_max = 30 * second

abbrev pub nudge_interval : ℕ
nudge_interval = 5 * second

abbrev pub balloon_stale_after : ℕ
balloon_stale_after = 5 * minute

abbrev pub action_timeout : ℕ
action_timeout = 10 * second

abbrev pub job_retention : ℕ
job_retention = hour

abbrev pub reboot_timeout : ℕ
reboot_timeout = 3 * minute

abbrev pub shutdown_retry_interval : ℕ
shutdown_retry_interval = 20 * second

abbrev pub middleware_timeout : ℕ
middleware_timeout = 10 * second

abbrev pub middleware_keepalive : ℕ
middleware_keepalive = 60 * second

abbrev pub middleware_reconnect_backoff : ℕ
middleware_reconnect_backoff = 30 * second

abbrev pub middleware_retry_floor : ℕ
middleware_retry_floor = 5 * second

abbrev pub snapshot_fetch_budget : ℕ
snapshot_fetch_budget = 30 * second

abbrev pub snapshot_refetch_floor : ℕ
snapshot_refetch_floor = 5 * second

abbrev pub snapshot_connect_grace : ℕ
snapshot_connect_grace = 3 * second

abbrev pub snapshot_action_timeout : ℕ
snapshot_action_timeout = 90 * second

abbrev pub freeze_hold_bound : ℕ
freeze_hold_bound = 60 * second

abbrev pub snapshot_auto_refresh_floor : ℕ
snapshot_auto_refresh_floor = 30 * second
