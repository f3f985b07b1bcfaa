-- ===== src/Truenas/Wire.antt =====
-- internal/truenas/truenas.go: a call from its registration to its result, the reading of a message,
-- `login`, `dial`, and what `New` checks. The websocket, the context, `encoding/json` and `crypto/x509`
-- are given.
pub mod Answered
pub mod LoggedIn
use Prim.Native.String.{◌++◌}
use pademelon.Base.{
  ℕ, ℤ, positive_or, String, Bool, true, false, Option, none, some, Result, ok, err, ◌==◌, not,
  if◌then◌else◌,
}
use pademelon.Clocks.{
  middleware_timeout, middleware_keepalive, middleware_reconnect_backoff, middleware_retry_floor,
}
use pademelon.Truenas.Calls.{
  CallResult, Calls, Message, is_pending, remove_pending, receive, claim, send, fail_pending,
}
use pademelon.Truenas.Client.{Attempt, CallError}
use pademelon.Truenas.Storage.{RpcError, rpc_error_text}

-- How the wait of `request` ends: with what is in the channel, or with the context and its error.
pub data Wait : Type 0 where
  delivered : Wait
  expired : String → Wait

payload : String → Option CallResult → Option (Result String String)
payload method none = none
payload method (some (ok raw)) = some (ok raw)
payload method (some (err e)) = some (err (method ++ ": " ++ e))

-- The `select` of `request`; `none` is an empty channel, on which it goes on waiting.
unfoldable pub await : String → ℕ → Wait → Calls → Option (Result String String) × Calls
unfolding payload
await method id Wait.delivered c = let got = receive id c in (payload method got.0, got.1)
await method id (Wait.expired e) c = (some (err (method ++ ": " ++ e)), c)

-- The deferred removal of the call, once there is something to return.
finish : ℕ → Option (Result String String) × Calls → Option (Result String String) × Calls
finish id (none, c) = (none, c)
finish id (some answer, c) = (some answer, remove_pending id c)

-- `request` behind the registration: the write, the wait, and the removal of the call.
unfoldable pub conclude :
    String → ℕ → Result String (Unit {0}) → Wait → Calls → Option (Result String String) × Calls
unfolding finish
conclude method id (err e) wait c = finish id (some (err ("write " ++ method ++ ": " ++ e)), c)
conclude method id (ok written) wait c = finish id (await method id wait c)

-- An `rpcResponse`; an id that is absent has no bytes.
pub record RpcResponse : Type 0 where
  pub id : String
  pub result : String
  pub error : Option RpcError

reply_of : RpcResponse → CallResult
reply_of r = elim r.error [ none ↦ ok r.result | some e ↦ err (rpc_error_text e) ]

-- No call has a negative id: such a reply is passed over like one that nobody waits for.
with_id : RpcResponse → Option ℤ → Message
unfolding reply_of
with_id r none = Message.unreadable_id
with_id r (some (ℤ.negsuc n)) = Message.unreadable_id
with_id r (some (ℤ.pos id)) = Message.reply id (reply_of r)

message_of : (String → Option ℤ) → Option RpcResponse → Message
unfolding with_id
message_of read_id none = Message.undecodable
message_of read_id (some r) = if r.id == "" then Message.notification else with_id r (read_id r.id)

-- How `readLoop` reads a message, given the two uses of `json.Unmarshal`.
unfoldable pub read_message : (String → Option RpcResponse) → (String → Option ℤ) → String → Message
unfolding message_of
read_message decode read_id message = message_of read_id (decode message)

dispatch : Message → Calls → Calls
dispatch (Message.reply id r) c =
    if is_pending id c.pending then send (claim (Message.reply id r) c) else c
dispatch _ c = c

-- A round of `readLoop` with nothing between its two parts: whether it goes on, and the calls.
unfoldable pub read_round :
    (String → Option RpcResponse)
    → (String → Option ℤ)
    → Result String String
    → Calls
    → Bool × Calls
unfolding dispatch
read_round decode read_id (err e) c = (false, fail_pending ("connection lost: " ++ e) c)
read_round decode read_id (ok message) c = (true, dispatch (read_message decode read_id message) c)

response_type : Result String String → Result String (Unit {0})
response_type (err e) = err ("login: decode result: " ++ e)
response_type (ok kind) = if kind == "SUCCESS" then ok tt else err ("login: response_type " ++ kind)

-- `login`, from the answer of its request; texts are not cut or quoted here.
unfoldable pub login :
    (String → Result String String) → Result String String → Result String (Unit {0})
unfolding response_type
login decode (err e) = err ("login: " ++ e)
login decode (ok reply) = response_type (decode reply)

-- `dial`, from the answer of `websocket.Dial`.
unfoldable pub dial : String → Result String ℕ → Result String ℕ
dial host (err e) = err ("dial " ++ host ++ ": " ++ e)
dial host (ok handle) = ok handle

-- How the middleware's certificate is taken.
pub data Tls : Type 0 where
  skip_verify : Tls
  roots : String → Tls

rooted : (String → Bool) → String → Result String String → Result String Tls
rooted append_certs file (err e) = err ("reading CA file: " ++ e)
rooted append_certs file (ok pem) =
    if append_certs pem
    then ok (Tls.roots pem)
    else err ("CA file " ++ file ++ " contains no certificates")

-- The checks of `New`, given the host and the CA file.
unfoldable pub new_tls :
    (String → Result String String) → (String → Bool) → String → String → Result String Tls
unfolding rooted
new_tls read_file append_certs host file =
    if host == ""
    then err "middleware host is empty"
    else if file == ""
    then ok Tls.skip_verify
    else rooted append_certs file (read_file file)

-- The durations of a `Config`, and what `timeout` and `Run` make of them.
pub record Durations (A : Type 0) : Type 0 where
  pub timeout : A
  pub keepalive : A
  pub backoff : A
  pub retry_floor : A

unfoldable pub durations : Durations ℤ → Durations ℕ
durations c = record {
  timeout = positive_or middleware_timeout c.timeout;
  keepalive = positive_or middleware_keepalive c.keepalive;
  backoff = positive_or middleware_reconnect_backoff c.backoff;
  retry_floor = positive_or middleware_retry_floor c.retry_floor;
}

-- What an attempt to connect gets from outside: the websocket's answer, the reply to the login, and the
-- reply to the call for the version.
pub record Replies : Type 0 where
  pub now : ℕ
  pub dialled : Result String ℕ
  pub login : Result String String
  pub version : Result CallError String

-- The error of the decoding of the version is dropped, and the text is then empty.
text_or_empty : Result String String → String
text_or_empty (err e) = ""
text_or_empty (ok s) = s

version_of : (String → Result String String) → Result CallError String → Result CallError String
unfolding text_or_empty
version_of decode (err e) = err e
version_of decode (ok reply) = ok (text_or_empty (decode reply))

-- The attempt of `ensureConnected`, given the decoding of the login's result and of a text.
unfoldable pub attempt :
    String → (String → Result String String) → (String → Result String String) → Replies → Attempt
unfolding version_of
attempt host decode_type decode_text r = record {
  now = r.now;
  dial = dial host r.dialled;
  login = login decode_type r.login;
  version = version_of decode_text r.version;
}
