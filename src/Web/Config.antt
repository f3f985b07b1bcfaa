-- ===== src/Web/Config.antt =====
-- internal/web/web.go: `New`, which takes a nil pointer inside an interface for a part that is off.
use pademelon.Base.{Part, usable, ℤ, String, Bool, Option, [], Table, ◌==◌, if◌then◌else◌}
use pademelon.Model.{Cache}
use pademelon.Actions.Job.{Job}
use pademelon.Snapshots.{Service}
use pademelon.Web.Theme.{default_theme}
use pademelon.Web.Answers.{TruenasView}
use pademelon.Web.Routes.{Server}

-- `Config`, less the logger.
pub record Config : Type 0 where
  pub cache : Cache
  pub theme : String
  pub token : String
  pub nudge : Option Bool
  pub actions : Part (Table Job)
  pub truenas : Part TruenasView
  pub snaps : Part Service
  pub snapshot_auto_refresh : ℤ

-- `New`.
unfoldable pub new_server : Config → Server
new_server c = record {
  cache = c.cache;
  theme = if c.theme == "" then default_theme else c.theme;
  auth = record { token = c.token; failures = [] };
  nudge = c.nudge;
  actions = usable c.actions;
  bulk = [];
  truenas = usable c.truenas;
  snaps = usable c.snaps;
  snap_refresh = c.snapshot_auto_refresh;
}
