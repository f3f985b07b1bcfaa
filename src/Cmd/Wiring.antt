-- ===== src/Cmd/Wiring.antt =====
-- main.go: the parts that `main` builds from its settings, and the server it gives them to.
pub mod Locked
pub mod Seconds
pub mod Restores
use pademelon.Base.{
  ℕ, ℤ, String, Result, Part, usable, not, Bool, true, false, none, some, [], ◌==◌, if◌then◌else◌,
}
use pademelon.Model.{new_cache}
use pademelon.Truenas.Client.{Status, new_client}
use pademelon.Snapshots.{new_service}
use pademelon.Web.Answers.{TruenasView}
use pademelon.Web.Routes.{Server}
use pademelon.Web.Config.{Config, new_server}
use pademelon.Model.{Snapshot}
use pademelon.Actions.Registry.{Moment}
use pademelon.Libvirt.Start as Libvirt
use pademelon.Cmd.Start.{Settings}

-- The client's status, as `handleTruenasStatus` passes it on.
abbrev status_view : Status → TruenasView
status_view st = record {
  connected = st.connected;
  version = st.version;
  error = st.error;
  since = st.since;
}

-- The fields of `web.Config` that `main` fills. The client's variable is a pointer, which makes a nil
-- pointer in the interface where the middleware is off; the other two stay nil.
unfoldable pub web_config : Settings → Config
web_config s = record {
  cache = new_cache;
  theme = s.theme;
  token = s.token;
  nudge = some false;
  actions = if s.actions_on then Part.present [] else Part.absent;
  truenas =
      if s.truenas_addr == "" then Part.typed_nil else Part.present (status_view new_client.state);
  snaps = if s.truenas_addr == "" then Part.absent else Part.present new_service;
  snapshot_auto_refresh = s.snapshot_refresh;
}

-- The server of `main`.
unfoldable pub wire : Settings → Server
wire s = new_server (web_config s)

-- The fields of `libvirtsrc.Config` that `main` fills from its settings.
unfoldable pub source_config : Settings → ℤ → Libvirt.Config
source_config s concurrency = record {
  agent_timeout = s.agent_timeout;
  stats_period = s.stats_period;
  concurrency = concurrency;
  has_notify = true;
}

-- What the action store of `main` finds at a submission: the middleware client and the snapshot
-- service, whose check is given, are there where the middleware is.
unfoldable pub wire_moment :
    Settings → (String → String → Result String Bool) → ℕ → String → Snapshot → Moment
wire_moment s check now new_id snapshot = record {
  now = now;
  new_id = new_id;
  snapshot = snapshot;
  has_truenas = not (s.truenas_addr == "");
  guard = usable (if s.truenas_addr == "" then Part.absent else Part.present check);
}
