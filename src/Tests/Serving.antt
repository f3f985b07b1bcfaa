-- ===== src/Tests/Serving.antt =====
-- A server with actions on: a login that shuts a machine down, the settings it was started with, and a
-- request for an early poll.
use pademelon.Base.{
  List, ◌/◌, ℕ, ℤ, ◌+◌, ◌*◌, ◌≤◌, ◌≡◌, ◌≢◌, ◌⊎◌, refl, true, false, none, some, [], ◌∷◌, err,
  retain, arith, All, trim_space, trim_left, trim_right, is_blank, lower_char, has_prefix, is_below,
  is_negative, ◌>>=◌, ◌>>◌, refuse_if,
}
use pademelon.Clocks.{session_cookie_max_age, second, nudge_interval}
use pademelon.Model.{new_cache}
use pademelon.Actions.Snapshot.{lookup_vm}
use pademelon.Actions.Registry.{submit, register, enter, find_in_flight, sweep_jobs}
use pademelon.Actions.Verb.{parse_action, allows}
use pademelon.Web.Auth.{require_token, bearer_token, valid_bearer, token_equal, valid_cookie}
use pademelon.Web.Theme.{valid_theme}
use pademelon.Web.Page.{themed, theme_placeholder}
use pademelon.Web.Answers.{not_found, submit_response}
use pademelon.Web.Routes.{Route, Incoming, Server, Now, csrf_guard, handle_submit_action}
use pademelon.Web.Serve.{serve, gate, serve_action}
use pademelon.Web.Serve.Requests.{Happening}
use pademelon.Web.Serve.Guarded.{SameJobs, IsEntitled, jobs_guarded}
use pademelon.Web.Serve.Submitted.{IsAccepted}
use pademelon.Web.Serve.Accepted.{serve-IsAccepted}
use pademelon.Cmd.Flags.{
  Outside, Level, Format, new_logger, resolve_token, resolve_secret, resolve_allow_actions,
  resolve_truenas_key, resolve_truenas_host, resolve_truenas_user, resolve_snapshot_auto_refresh,
  level_of, parse_bool,
}
use pademelon.Cmd.Start.{
  Given, default_given, Settings, Outcome, main, check_flags, is_bad_period, is_bad_refresh,
  is_zero, checked, with_client, with_logger,
}
use pademelon.Cmd.Start.Servable.{IsServable, main-IsServable}
use pademelon.Cmd.Wiring.{source_config}
use pademelon.Cmd.Wiring.Seconds.{IsWhole, main-IsWhole}
use pademelon.Libvirt.Start.{new_source, seconds_int32}
use pademelon.Cmd.Loop.{Loop, started, poke, take, fire, polled}
use pademelon.Cmd.Loop.Debounce.{Run, request_served}
use pademelon.Tests.{one_vm}

abbrev server : Server
server = record {
  cache = new_cache;
  theme = "dracula";
  auth = record { token = "secret"; failures = [] };
  nudge = some false;
  actions = some [];
  bulk = [];
  truenas = none;
  snaps = none;
  snap_refresh = ℤ.pos 0;
}

abbrev noon : Now
noon = record {
  time = 9;
  cookie_age = session_cookie_max_age / second;
  refetch_floor = 5;
  moment = record { now = 9; new_id = "b2"; snapshot = one_vm; has_truenas = false; guard = none };
  unmatched = λ route. not_found;
  index_html = "<html data-theme='sweetpea'>";
}

abbrev shut_down : Incoming
shut_down = record {
  route = Route.submit_action "vm1" "shutdown";
  requested_with = "pademelon";
  auth = record {
    authorization = "bearer secret ";
    session_cookie = none;
    remote_addr = "10.0.0.2:5050";
    host = some "10.0.0.2";
    tls = true;
  };
}

jobs_guarded_example :
    SameJobs server (serve noon shut_down server).1 ⊎ IsEntitled noon shut_down server
jobs_guarded_example = jobs_guarded noon shut_down server

unmatched_differs : (noon.unmatched shut_down.route).status ≢ 202
unmatched_differs = omega arith

accepted : (serve noon shut_down server).0.status ≡ 202
unfolding serve gate require_token valid_bearer token_equal serve_action csrf_guard
    handle_submit_action submit parse_action lookup_vm allows register enter find_in_flight
    sweep_jobs retain submit_response valid_cookie bearer_token lower_char trim_space trim_left
    trim_right is_blank
accepted = refl

serve-IsAccepted_example : IsAccepted (serve noon shut_down server)
serve-IsAccepted_example = serve-IsAccepted noon shut_down server unmatched_differs accepted

abbrev pub outside : Outside
outside = record {
  getenv = λ name. "";
  read_file = λ path. err "no such file";
  parse_duration = λ s. err "invalid";
}

abbrev pub given : Given
given = record {
  agent_timeout = ℤ.pos (5 * second);
  stats_period = ℤ.pos 0;
  theme = "dracula";
  auth_token = "secret";
  allow_actions = true;
  truenas_host = "";
  truenas_user = "";
  truenas_api_key = "";
  truenas_ca_file = "";
  snapshot_auto_refresh = ℤ.pos 0;
  log_level = "info";
  log_format = "json";
  show_version = false;
  healthcheck = false;
}

abbrev pub settings : Settings
settings = record {
  agent_timeout = ℤ.pos (5 * second);
  stats_period = ℤ.pos 0;
  theme = "dracula";
  token = "secret";
  actions_on = true;
  truenas_addr = "";
  truenas_username = "pademelon";
  truenas_key = "";
  snapshot_refresh = ℤ.pos 0;
}

served_given :
    main outside 0 (λ pem. true) given ≡ Outcome.serving settings (Level.info, Format.json)
unfolding main check_flags ◌>>◌ ◌>>=◌ refuse_if is_below is_negative is_bad_period is_bad_refresh
    is_zero valid_theme resolve_token resolve_secret trim_space trim_left trim_right is_blank
    resolve_allow_actions resolve_truenas_key resolve_truenas_host resolve_truenas_user
    resolve_snapshot_auto_refresh level_of new_logger parse_bool checked with_client with_logger
served_given = refl

-- With no flag and nothing in the environment the server is one that only shows.
abbrev default_settings : Settings
default_settings = record settings {
  stats_period = ℤ.pos (10 * second);
  theme = "sweetpea";
  token = "";
  actions_on = false;
}

served_default :
    main outside 0 (λ pem. true) default_given
    ≡ Outcome.serving default_settings (Level.info, Format.text)
unfolding main check_flags ◌>>◌ ◌>>=◌ refuse_if is_below is_negative is_bad_period is_bad_refresh
    is_zero valid_theme resolve_token resolve_secret trim_space trim_left trim_right is_blank
    resolve_allow_actions resolve_truenas_key resolve_truenas_host resolve_truenas_user
    resolve_snapshot_auto_refresh level_of new_logger parse_bool checked with_client with_logger
served_default = refl

main-IsServable_example : IsServable outside given settings
main-IsServable_example =
    main-IsServable outside 0 (λ pem. true) given settings (Level.info, Format.json) served_given

abbrev happenings : List Happening
happenings = Happening.request noon shut_down ∷ Happening.goes_on 0 noon.moment ∷ []

main-IsWhole_example :
    IsWhole (ℤ.pos (5 * second)) (seconds_int32 (new_source (source_config settings (ℤ.pos 0))).1)
unfolding is_below
main-IsWhole_example =
    main-IsWhole outside 0 (λ pem. true) given settings (Level.info, Format.json) (ℤ.pos 0)
      served_given refl

-- A request right after the first poll, taken too early, and due five seconds after it.
abbrev requested : Loop
requested = take 12 (poke (started 10))

requested-Run : Run requested true
unfolding take poke started polled
requested-Run = Run.taken 12 refl (omega arith) (Run.poked (Run.begun 10))

late : requested.last + nudge_interval ≤ 10 + 5 * second
unfolding take poke started polled
late = omega arith

request_served_example :
    All (λ (due : ℕ). due ≤ 10 + 5 * second) requested.timers
    × ((fire requested).slot ≡ true)
    × ((take (10 + 5 * second) (fire requested)).polls ≡ (10 + 5 * second) ∷ requested.polls)
request_served_example = request_served (10 + 5 * second) requested-Run late

-- A page whose tag has the default theme, and a selector that is not quoted.
page_themed :
    themed "noctis" "<html data-theme=\"sweetpea\">[data-theme=sweetpea]{}"
    ≡ "<html data-theme=\"noctis\">[data-theme=sweetpea]{}"
unfolding themed theme_placeholder has_prefix
page_themed = refl
