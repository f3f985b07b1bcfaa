-- ===== src/Cmd/Start.antt =====
-- main.go: `main` up to the point where it serves: the checks of the flags and what they resolve to,
-- in the order of the source. The wait for a signal is left out.
pub mod Servable
pub mod User
use Prim.Native.String.{◌++◌}
use pademelon.Base.{
  ℕ, ℤ, is_negative, is_below, String, Bool, true, false, Option, none, some, Result, ok, err,
  ◌>>=◌, ◌>>◌, refuse_if, ◌||◌, ◌&&◌, not, ◌==◌, if◌then◌else◌, nat_eq,
}
use pademelon.Clocks.{
  second, default_agent_timeout, default_stats_period, snapshot_auto_refresh_floor,
}
use pademelon.Truenas.Wire.{Tls, new_tls}
use pademelon.Web.Theme.{valid_theme, default_theme}
use pademelon.Cmd.Flags.{
  Outside, Secret, resolve_token, resolve_truenas_key, resolve_allow_actions, resolve_truenas_host,
  resolve_truenas_user, resolve_snapshot_auto_refresh, Level, Format, new_logger,
}

pub record Given : Type 0 where
  pub agent_timeout : ℤ
  pub stats_period : ℤ
  pub theme : String
  pub auth_token : String
  pub allow_actions : Bool
  pub truenas_host : String
  pub truenas_user : String
  pub truenas_api_key : String
  pub truenas_ca_file : String
  pub snapshot_auto_refresh : ℤ
  pub log_level : String
  pub log_format : String
  pub show_version : Bool
  pub healthcheck : Bool

-- The flags where none is given.
abbrev pub default_given : Given
default_given = record {
  agent_timeout = ℤ.pos default_agent_timeout;
  stats_period = ℤ.pos default_stats_period;
  theme = default_theme;
  auth_token = "";
  allow_actions = false;
  truenas_host = "";
  truenas_user = "pademelon";
  truenas_api_key = "";
  truenas_ca_file = "";
  snapshot_auto_refresh = ℤ.pos 0;
  log_level = "info";
  log_format = "text";
  show_version = false;
  healthcheck = false;
}

-- What the parts are built from.
pub record Settings : Type 0 where
  pub agent_timeout : ℤ
  pub stats_period : ℤ
  pub theme : String
  pub token : String
  pub actions_on : Bool
  pub truenas_addr : String
  pub truenas_username : String
  pub truenas_key : String
  pub snapshot_refresh : ℤ

unfoldable pub is_zero : ℤ → Bool
is_zero (ℤ.pos n) = nat_eq n 0
is_zero (ℤ.negsuc n) = false

-- The tests of the two intervals that 0 turns off; the second is written with two comparisons.
unfoldable pub is_bad_period : ℤ → Bool
is_bad_period d = not (is_zero d) && is_below d second

unfoldable pub is_bad_refresh : ℤ → Bool
is_bad_refresh d =
    is_negative d
    || (not (is_zero d) && not (is_negative d) && is_below d snapshot_auto_refresh_floor)

-- `main` down to the flags `-version` and `-healthcheck`; an error is the start of the line that goes
-- before exit code 2.
unfoldable pub check_flags : Outside → Given → Result String Settings
check_flags o g = do
  refuse_if (is_below g.agent_timeout second) "-agent-timeout must be at least 1s"
  refuse_if (is_bad_period g.stats_period) "-stats-period must be 0s (disabled) or at least 1s"
  refuse_if (not (valid_theme g.theme)) ("unknown theme " ++ g.theme)
  token ← resolve_token o g.auth_token
  actions_on ← resolve_allow_actions o g.allow_actions
  refuse_if (actions_on && (token.0 == ""))
      "-allow-actions needs an auth token; generate one with: openssl rand -hex 32"
  key ← resolve_truenas_key o g.truenas_api_key
  refuse_if (not (resolve_truenas_host o g.truenas_host == "") && (key.0 == ""))
      "-truenas-host needs a middleware API key; see documentation/truenas-service-account.md"
  refresh ← resolve_snapshot_auto_refresh o g.snapshot_auto_refresh
  refuse_if (is_bad_refresh refresh) "-snapshot-auto-refresh must be 0s (disabled) or at least 30s"
  ok (record {
    agent_timeout = g.agent_timeout;
    stats_period = g.stats_period;
    theme = g.theme;
    token = token.0;
    actions_on = actions_on;
    truenas_addr = resolve_truenas_host o g.truenas_host;
    truenas_username = resolve_truenas_user o g.truenas_user;
    truenas_key = key.0;
    snapshot_refresh = refresh;
  })

-- How `main` goes on: a refusal with exit code 2, the version, the probe's exit code, or the server.
pub data Outcome : Type 0 where
  refused : String → Outcome
  version : Outcome
  probed : ℕ → Outcome
  serving : Settings → Level × Format → Outcome

unfoldable pub with_client : Settings → Level × Format → Result String Tls → Outcome
with_client s log (err e) = Outcome.refused e
with_client s log (ok client) = Outcome.serving s log

unfoldable pub with_logger :
    (String → String → Result String Tls)
    → Given
    → Settings
    → Result String (Level × Format)
    → Outcome
unfolding with_client
with_logger new_client g s (err e) = Outcome.refused e
with_logger new_client g s (ok log) =
    if s.truenas_addr == ""
    then Outcome.serving s log
    else with_client s log (new_client s.truenas_addr g.truenas_ca_file)

unfoldable pub checked :
    ℕ → (String → String → Result String Tls) → Given → Result String Settings → Outcome
unfolding with_logger
checked probe new_client g (err e) = Outcome.refused e
checked probe new_client g (ok s) =
    if g.show_version
    then Outcome.version
    else if g.healthcheck
    then Outcome.probed probe
    else with_logger new_client g s (new_logger g.log_level g.log_format)

-- `main`, given what a probe would return and whether a text has certificates.
unfoldable pub main : Outside → ℕ → (String → Bool) → Given → Outcome
unfolding checked
main o probe append_certs g = checked probe (new_tls o.read_file append_certs) g (check_flags o g)
