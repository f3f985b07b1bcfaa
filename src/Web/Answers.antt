-- ===== src/Web/Answers.antt =====
-- internal/web/actions_routes.go: the answers of the action routes by the outcome of a submission.
-- A body is the value that the JSON encoder or the writer gets; headers are left out, except cookies.
use pademelon.Base.{ℕ, ℤ, String, Bool, Option, List, []}
use pademelon.Model.{Snapshot, ZfsSnapshot}
use pademelon.Actions.Job.{Job, Kind, Error}
use pademelon.Actions.Registry.{Answer}
use pademelon.Web.Auth.{Cookie}

-- The status of the middleware client, as the page gets it.
pub record TruenasView : Type 0 where
  pub connected : Bool
  pub version : String
  pub error : String
  pub since : ℕ

-- A machine's snapshots, as the page gets them; `fetched` is `none` before the first fetch.
pub record SnapshotsView : Type 0 where
  pub fetched : Option ℕ
  pub fetching : Bool
  pub stale : Bool
  pub error : String
  pub connected : Bool
  pub snapshots : List ZfsSnapshot

pub data Body : Type 0 where
  text page xml : String → Body
  vms : Snapshot → Body
  job : Job → Body
  error : String → Body
  error_job : String → Job → Body
  plan : List String → List String → Body
  jobs : List Job → Body
  truenas : Option TruenasView → Body
  snapshots : String → Option SnapshotsView → Body
  capabilities : (actions auth_required exec truenas : Bool) → ℤ → Body
  requested : ℕ → Body
  authenticated logged_out : Body

pub record Response : Type 0 where
  pub status : ℕ
  pub body : Body
  pub cookies : List Cookie

abbrev pub answer : ℕ → Body → Response
answer status body = record { status = status; body = body; cookies = [] }

-- `http.NotFound`.
abbrev pub not_found : Response
not_found = answer 404 (Body.text "404 page not found\n")

abbrev pub internal_error : Response
internal_error = answer 500 (Body.text "internal error\n")

abbrev pub in_flight_text : String
in_flight_text = "action already in flight"

unfoldable pub submit_refused : Error → Kind → Response
submit_refused e Kind.unknown_domain = not_found
submit_refused e Kind.unknown_action = not_found
submit_refused e Kind.invalid_state = answer 409 (Body.error e.message)
submit_refused e Kind.middleware_off = answer 503 (Body.error e.message)
submit_refused e _ = internal_error

-- `handleSubmitAction`, from the answer of `Submit`. The verb that does not parse is the source's own
-- first test, with the same response.
unfoldable pub submit_response : Answer → Response
submit_response (Answer.queued j) = answer 202 (Body.job j)
submit_response (Answer.busy j) = answer 409 (Body.error_job in_flight_text j)
submit_response (Answer.refused e) = submit_refused e e.kind

unfoldable pub restore_refused : Error → Kind → Response
restore_refused e Kind.guard_unavailable = answer 503 (Body.error e.message)
restore_refused e Kind.unknown_domain = not_found
restore_refused e Kind.unknown_snapshot = not_found
restore_refused e Kind.bad_restore = answer 400 (Body.error e.message)
restore_refused e Kind.invalid_state = answer 409 (Body.error e.message)
restore_refused e Kind.middleware_off = answer 503 (Body.error e.message)
restore_refused e _ = internal_error

-- The switch of `handleRestore`.
unfoldable pub restore_response : Answer → Response
restore_response (Answer.queued j) = answer 202 (Body.job j)
restore_response (Answer.busy j) = answer 409 (Body.error_job in_flight_text j)
restore_response (Answer.refused e) = restore_refused e e.kind

unfoldable pub delete_refused : Error → Kind → Response
delete_refused e Kind.guard_unavailable = answer 503 (Body.error e.message)
delete_refused e Kind.unknown_domain = not_found
delete_refused e Kind.unknown_snapshot = not_found
delete_refused e Kind.middleware_off = answer 503 (Body.error e.message)
delete_refused e _ = internal_error

-- The switch of `handleDelete`.
unfoldable pub delete_response : Answer → Response
delete_response (Answer.queued j) = answer 202 (Body.job j)
delete_response (Answer.busy j) = answer 409 (Body.error_job in_flight_text j)
delete_response (Answer.refused e) = delete_refused e e.kind
