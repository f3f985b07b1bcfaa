-- ===== src/Cmd/Flags.antt =====
-- main.go: the `resolve` functions. The environment, the files and `time.ParseDuration` are given; a
-- variable that is not set is an empty text. Errors name a value without Go's quotes.
pub mod Solid
use Prim.Native.String.{◌++◌}
use pademelon.Base.{
  ℕ, ℤ, String, Bool, true, false, Option, none, some, List, [], ◌∷◌, Result, ok, err, ◌||◌, ◌&&◌,
  not, any, ◌==◌, if◌then◌else◌, trim_space, nat_eq,
}

pub record Outside : Type 0 where
  pub getenv : String → String
  pub read_file : String → Result String String
  pub parse_duration : String → Result String ℤ

-- A secret and where it is from.
abbrev pub Secret : Type 0
Secret = String × String

from_file : String → String → Result String String → Result String Secret
from_file file_var path (err e) = err ("reading " ++ file_var ++ ": " ++ e)
from_file file_var path (ok raw) = ok (trim_space raw, "file " ++ path)

reject_blank : String → Bool → Result String Secret → Result String Secret
reject_blank complaint configured (err e) = err e
reject_blank complaint configured (ok (value, source)) =
    if (trim_space value == "") && configured then err complaint else ok (value, source)

-- The steps that `resolveToken` and `resolveTruenasKey` share: the flag, the variable, and the file
-- that the other variable names.
unfoldable pub resolve_secret : Outside → String → String → String → String → Result String Secret
unfolding from_file reject_blank
resolve_secret o var file_var complaint flag_value =
    let found : Result String Secret =
      if not (flag_value == "")
      then ok (flag_value, "flag")
      else if not (o.getenv var == "")
      then ok (o.getenv var, "environment")
      else if not (o.getenv file_var == "")
      then from_file file_var (o.getenv file_var) (o.read_file (o.getenv file_var))
      else ok ("", "") in
    reject_blank complaint
      (not (flag_value == "") || not (o.getenv var == "") || not (o.getenv file_var == "")) found

-- `resolveToken`.
unfoldable pub resolve_token : Outside → String → Result String Secret
resolve_token o flag_value =
    resolve_secret o "PADAMELON_TOKEN" "PADAMELON_TOKEN_FILE"
      "auth token is configured but empty; generate one with: openssl rand -hex 32" flag_value

-- `resolveTruenasKey`.
unfoldable pub resolve_truenas_key : Outside → String → Result String Secret
resolve_truenas_key o flag_value =
    resolve_secret o "TRUENAS_API_KEY" "TRUENAS_API_KEY_FILE"
      "middleware API key is configured but empty; see documentation/truenas-service-account.md"
      flag_value

-- `strconv.ParseBool`.
unfoldable pub parse_bool : String → Option Bool
parse_bool s =
    if any (λ t. t == s) ("1" ∷ "t" ∷ "T" ∷ "true" ∷ "TRUE" ∷ "True" ∷ [])
    then some true
    else if any (λ t. t == s) ("0" ∷ "f" ∷ "F" ∷ "false" ∷ "FALSE" ∷ "False" ∷ [])
    then some false
    else none

parsed_bool : String → Option Bool → Result String Bool
parsed_bool raw none =
    err ("PADAMELON_ALLOW_ACTIONS is " ++ raw ++ ", want a boolean (true/false/1/0)")
parsed_bool raw (some v) = ok v

-- `resolveAllowActions`.
unfoldable pub resolve_allow_actions : Outside → Bool → Result String Bool
unfolding parsed_bool
resolve_allow_actions o flag_value =
    let raw = trim_space (o.getenv "PADAMELON_ALLOW_ACTIONS") in
    if raw == "" then ok flag_value else parsed_bool raw (parse_bool raw)

-- `resolveTruenasHost`.
unfoldable pub resolve_truenas_host : Outside → String → String
resolve_truenas_host o flag_value =
    if not (flag_value == "") then flag_value else trim_space (o.getenv "TRUENAS_HOST")

-- `resolveTruenasUser`.
unfoldable pub resolve_truenas_user : Outside → String → String
resolve_truenas_user o flag_value =
    let env = trim_space (o.getenv "TRUENAS_USER") in
    if not (flag_value == "") then flag_value else if not (env == "") then env else "pademelon"

parsed_duration : String → Result String ℤ → Result String ℤ
parsed_duration raw (err e) =
    err (
      "PADAMELON_SNAPSHOT_AUTO_REFRESH is " ++ raw ++ ", want a duration (e.g. 60s, 0s to disable)")
parsed_duration raw (ok v) = ok v

-- `resolveSnapshotAutoRefresh`.
unfoldable pub resolve_snapshot_auto_refresh : Outside → ℤ → Result String ℤ
unfolding parsed_duration
resolve_snapshot_auto_refresh o flag_value =
    let raw = trim_space (o.getenv "PADAMELON_SNAPSHOT_AUTO_REFRESH") in
    if raw == "" then ok flag_value else parsed_duration raw (o.parse_duration raw)

pub data Level : Type 0 where
  debug info warn error : Level

pub data Format : Type 0 where
  text json : Format

unfoldable pub level_of : String → Option Level
level_of level =
    if level == "debug"
    then some Level.debug
    else if level == "info"
    then some Level.info
    else if level == "warn"
    then some Level.warn
    else if level == "error"
    then some Level.error
    else none

format_of : Level → String → Result String (Level × Format)
format_of lv format =
    if format == "text"
    then ok (lv, Format.text)
    else if format == "json"
    then ok (lv, Format.json)
    else err ("unknown log format " ++ format)

with_level : String → String → Option Level → Result String (Level × Format)
unfolding format_of
with_level level format none = err ("unknown log level " ++ level)
with_level level format (some lv) = format_of lv format

-- `newLogger`: the level and the handler.
unfoldable pub new_logger : String → String → Result String (Level × Format)
unfolding with_level
new_logger level format = with_level level format (level_of level)

probed_host : String → String
probed_host host =
    if (host == "") || (host == "0.0.0.0") || (host == "::") then "127.0.0.1" else host

status_code : Result String ℕ → ℕ
status_code (err e) = 1
status_code (ok code) = if nat_eq code 200 then 0 else 1

probe_at : (String → String → Result String ℕ) → Option (String × String) → ℕ
unfolding probed_host status_code
probe_at get none = 1
probe_at get (some (host, port)) = status_code (get (probed_host host) port)

-- `probe`: the exit code, given `net.SplitHostPort` and the status of `/healthz` at a host and port.
unfoldable pub probe :
    (String → Option (String × String)) → (String → String → Result String ℕ) → String → ℕ
unfolding probe_at
probe split_host_port get listen = probe_at get (split_host_port listen)
