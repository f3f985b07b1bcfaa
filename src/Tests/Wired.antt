-- ===== src/Tests/Wired.antt =====
-- A server with the middleware, and a restore that its snapshot service checks.
use pademelon.Base.{
  ◌==◌, if◌then◌else◌, usable, cut_at, lookup, ok, ◌≡◌, ◌≢◌, refl, true, false, some, [], retain,
  trim_space, trim_left, trim_right, is_blank, is_below, is_negative, ◌>>=◌, ◌>>◌, refuse_if,
}
use pademelon.Actions.Snapshot.{lookup_vm}
use pademelon.Actions.Registry.{register, enter, find_in_flight, sweep_jobs}
use pademelon.Web.Theme.{valid_theme}
use pademelon.Cmd.Flags.{
  Outside, Level, Format, new_logger, resolve_token, resolve_secret, resolve_allow_actions,
  resolve_truenas_key, resolve_truenas_host, resolve_truenas_user, resolve_snapshot_auto_refresh,
  level_of, parse_bool,
}
use pademelon.Cmd.Start.{
  default_given, Given, Settings, Outcome, main, check_flags, is_bad_period, is_bad_refresh,
  is_zero, checked, with_client, with_logger,
}
use pademelon.Cmd.Start.User.{main-default_user}
use pademelon.Cmd.Wiring.{wire_moment}
use pademelon.Cmd.Wiring.Restores.{main_restores_verified}
use pademelon.Truenas.Wire.{new_tls}
use pademelon.Actions.Job.{mode_direct}
use pademelon.Actions.Registry.{RestoreOpts, submit_restore, validate_snapshot}
use pademelon.Actions.Registry.Submission.{IsQueued}
use pademelon.Snapshots.{fresh_state}
use pademelon.Snapshots.{started as started_state}
use pademelon.Snapshots.Check.{Reason}
use pademelon.Tests.Snapshots.{watched, fetching, checked_in_time}
use pademelon.Tests.{one_vm}
use pademelon.Tests.Serving.{outside, given, settings}

-- The settings of a server with the middleware, and a restore of the snapshot that a check finds at its
-- second look.
abbrev given_nas : Given
given_nas = record given { truenas_host = "nas"; truenas_api_key = "key" }

abbrev settings_nas : Settings
settings_nas = record settings { truenas_addr = "nas"; truenas_key = "key" }

served_nas :
    main outside 0 (λ pem. true) given_nas ≡ Outcome.serving settings_nas (Level.info, Format.json)
unfolding main check_flags ◌>>◌ ◌>>=◌ refuse_if is_below is_negative is_bad_period is_bad_refresh
    is_zero valid_theme resolve_token resolve_secret trim_space trim_left trim_right is_blank
    resolve_allow_actions resolve_truenas_key resolve_truenas_host resolve_truenas_user
    resolve_snapshot_auto_refresh level_of new_logger parse_bool checked with_client with_logger
    new_tls
served_nas = refl

abbrev direct : RestoreOpts
direct = record {
  snapshot_id = "tank/vm1@monday";
  mode = mode_direct;
  start_after = false;
  ack = true;
}

direct-IsQueued :
    IsQueued
      (submit_restore
        (wire_moment settings_nas (λ domain id. ok true) 9 "b2" one_vm)
        "vm1"
        direct
        []).0
unfolding submit_restore lookup_vm validate_snapshot cut_at register enter find_in_flight sweep_jobs
    retain wire_moment usable
direct-IsQueued = tt

main_restores_verified_example :
    (settings_nas.truenas_addr ≢ "")
    × (settings_nas.truenas_key ≢ "")
    × Reason watched "tank/vm1@monday" (some (started_state fresh_state)) (ok true)
unfolding lookup
main_restores_verified_example =
    main_restores_verified outside 0 (λ pem. true) given_nas settings_nas (Level.info, Format.json)
      (λ domain id. ok true) 9 "b2" one_vm "vm1" direct [] 1 watched fetching served_nas
      checked_in_time refl direct-IsQueued

-- A server whose environment names another user.
abbrev named : Outside
named = record outside { getenv = λ name. if name == "TRUENAS_USER" then "svc" else "" }

abbrev given_default_user : Given
given_default_user = record given_nas { truenas_user = default_given.truenas_user }

served_named :
    main named 0 (λ pem. true) given_default_user
    ≡ Outcome.serving settings_nas (Level.info, Format.json)
unfolding main check_flags ◌>>◌ ◌>>=◌ refuse_if is_below is_negative is_bad_period is_bad_refresh
    is_zero valid_theme resolve_token resolve_secret trim_space trim_left trim_right is_blank
    resolve_allow_actions resolve_truenas_key resolve_truenas_host resolve_truenas_user
    resolve_snapshot_auto_refresh level_of new_logger parse_bool checked with_client with_logger
    new_tls
served_named = refl

main-default_user_example : settings_nas.truenas_username ≡ "pademelon"
main-default_user_example =
    main-default_user named 0 (λ pem. true) given_default_user settings_nas
      (Level.info, Format.json) refl served_named
