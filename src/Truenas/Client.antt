-- ===== src/Truenas/Client.antt =====
-- internal/truenas/truenas.go: the life cycle of the one connection: `setState`, `drop`,
-- `ensureConnected` and the rounds of `Run`. What the network and the middleware answer is given.
pub mod Truthful
pub mod Connected
use Prim.Native.String.{◌++◌}
use pademelon.Base.{
  ℕ, ◌+◌, String, Bool, true, false, Option, none, some, List, Result, ok, err, ◌||◌, not, ◌==◌,
  if◌then◌else◌, contains,
}
use pademelon.Truenas.Calls.{Calls, no_calls, fail_pending}

-- `Status`.
pub record Status : Type 0 where
  pub connected : Bool
  pub version : String
  pub error : String
  pub since : ℕ

-- `Client`: the connection, the calls in flight, whether `readerCancel` is set, the slots of
-- `dead` and `wake`, and the status.
pub record Client : Type 0 where
  pub conn : Option ℕ
  pub reader : Bool
  pub calls : Calls
  pub dead : Bool
  pub wake : Bool
  pub state : Status

-- What `New` makes.
abbrev pub new_client : Client
new_client = record {
  conn = none;
  reader = false;
  calls = no_calls;
  dead = false;
  wake = false;
  state = record { connected = false; version = ""; error = ""; since = 0 };
}

-- `Wake`: the slot is filled if it is empty.
unfoldable pub wake_up : Client → Client
wake_up c = record c { wake = true }

-- An error of a call: `ErrNotConnected`, or a text.
pub data CallError : Type 0 where
  not_connected : CallError
  failed : String → CallError

abbrev pub not_connected_text : String
not_connected_text = "middleware not connected"

unfoldable pub error_text : CallError → String
error_text CallError.not_connected = not_connected_text
error_text (CallError.failed e) = e

-- `setState`.
unfoldable pub set_state : ℕ → Bool → String → String → Client → Client
set_state now connected version message c = record c {
  state = record {
    connected = connected;
    version = if version == "" then c.state.version else version;
    error = message;
    since = now;
  };
}

-- `drop`.
unfoldable pub drop : ℕ → String → Client → Client
drop now e c =
    set_state now false "" e
      (record c { conn = none; reader = false; calls = fail_pending e c.calls })

-- `isDeadSocketErr`.
unfoldable pub is_dead_socket_err : CallError → Bool
is_dead_socket_err CallError.not_connected = true
is_dead_socket_err (CallError.failed e) =
    contains e "use of closed network connection"
    || contains e "connection lost"
    || contains e "broken pipe"
    || contains e "connection reset by peer"

-- The answers that one attempt to connect gets: of `dial`, of `login`, and of the call for the version, with what `encoding/json` makes of it ("" if it is no text).
pub record Attempt : Type 0 where
  pub now : ℕ
  pub dial : Result String ℕ
  pub login : Result String (Unit {0})
  pub version : Result CallError String

versioned : ℕ → Result CallError String → Client → Result String (Unit {0}) × Client
versioned now (err e) c = (err (error_text e), drop now (error_text e) c)
versioned now (ok version) c = (ok tt, set_state now true version "" c)

logged_in : Attempt → ℕ → Result String (Unit {0}) → Client → Result String (Unit {0}) × Client
unfolding versioned
logged_in a handle (err e) c = (err e, drop a.now e c)
logged_in a handle (ok passed) c =
    versioned a.now a.version (record c { conn = some handle; dead = false })

dialled : Attempt → Result String ℕ → Client → Result String (Unit {0}) × Client
unfolding logged_in
dialled a (err e) c = (err e, set_state a.now false "" e c)
dialled a (ok handle) c = logged_in a handle a.login (record c { reader = true })

connect_from : Attempt → Option ℕ → Client → Result String (Unit {0}) × Client
unfolding dialled
connect_from a (some handle) c = (ok tt, c)
connect_from a none c = dialled a a.dial c

-- `ensureConnected`.
unfoldable pub ensure_connected : Attempt → Client → Result String (Unit {0}) × Client
unfolding connect_from
ensure_connected a c = connect_from a c.conn c

-- What the `select` of a round comes upon: shutdown, the loss of the connection, a wake, or the
-- ticker with the answer to the ping.
pub data Signal : Type 0 where
  done lost woken : Signal
  tick : Result CallError String → Signal

-- How a round ends: `Run` returns, or goes on after the pause named.
pub data Pause : Type 0 where
  returned at_once retry_floor backoff : Pause

pinged : ℕ → Result CallError String → Client → Pause × Client
pinged now (ok pong) c = (Pause.at_once, c)
pinged now (err e) c =
    (Pause.at_once, if is_dead_socket_err e then drop now (error_text e) c else c)

selected : ℕ → Signal → Client → Pause × Client
unfolding pinged
selected now Signal.done c = (Pause.returned, drop now "client shut down" c)
selected now Signal.lost c =
    (Pause.retry_floor, drop now "connection lost" (record c { dead = false }))
selected now Signal.woken c = (Pause.at_once, record c { wake = false })
selected now (Signal.tick answer) c = pinged now answer c

after_connect : Bool → ℕ → Signal → Result String (Unit {0}) × Client → Pause × Client
unfolding selected
after_connect cancelled now signal (err e, c) =
    (if cancelled then Pause.returned else Pause.backoff, c)
after_connect cancelled now signal (ok passed, c) = selected now signal c

-- A round of `Run`, given an attempt, whether the context was cancelled by its end, the time of the
-- signal and the signal. A ping that fails while the context ends is a `done` of the next round.
unfoldable pub run_round : Attempt → Bool → ℕ → Signal → Client → Pause × Client
unfolding after_connect
run_round a cancelled now signal c = after_connect cancelled now signal (ensure_connected a c)

-- How the wait of a pause ends: with the timer, with the context, or with a wake, which takes it off
-- the slot.
pub data PauseEnd : Type 0 where
  elapsed cancelled pulled_forward : PauseEnd

-- The `select` of a pause; `none` is the return of `Run`.
unfoldable pub pause : PauseEnd → Client → Option Client
pause PauseEnd.elapsed c = some c
pause PauseEnd.cancelled c = none
pause PauseEnd.pulled_forward c = some (record c { wake = false })
