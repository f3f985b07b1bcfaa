-- ===== src/Libvirt/Connection.antt =====
-- source.go: the connection to libvirt, its event subscription and the lock over both. Go's `Mutex`
-- does not count its holders: a goroutine that locks what it holds waits for ever, which is `none`.
pub mod Lock
use Prim.Native.String.{◌++◌}
use pademelon.Base.{
  ℕ, String, Bool, true, false, Option, none, some, List, [], ◌∷◌, Result, ok, err, not, ◌&&◌, ◌==◌,
  if◌then◌else◌,
}

-- The part of `Source` under the lock; `subscribed` is a live `eventCancel`, and `disconnected`
-- lists the handles that were told to disconnect, the last first.
pub record Link : Type 0 where
  pub locked : Bool
  pub conn : Option ℕ
  pub subscribed : Bool
  pub events_unavailable : Bool
  pub disconnected : List ℕ

abbrev pub no_link : Link
no_link = record {
  locked = false;
  conn = none;
  subscribed = false;
  events_unavailable = false;
  disconnected = [];
}

-- What libvirt answers in one call of `connect`: whether a handle is connected, a dial, and an
-- attempt to subscribe; and whether `Notify` is set. Errors are as `connect` words them.
pub record Daemon : Type 0 where
  pub is_connected : ℕ → Bool
  pub dial : Result String ℕ
  pub subscribe : Result String (Unit {0})
  pub notify : Bool

unfoldable pub lock : Link → Option Link
lock l = if l.locked then none else some (record l { locked = true })

unfoldable pub unlock : Link → Link
unlock l = record l { locked = false }

warn_locked : Option Link → Option (Bool × Link)
unfolding unlock
warn_locked none = none
warn_locked (some l) =
    some (not l.events_unavailable, unlock (record l { events_unavailable = true }))

-- `warnEventsUnavailable`: whether it is the first time, and logged as a warning.
unfoldable pub warn_events_unavailable : Link → Option (Bool × Link)
unfolding warn_locked
warn_events_unavailable l = warn_locked (lock l)

drop_note : Option (Bool × Link) → Option Link
drop_note none = none
drop_note (some (first, l)) = some l

start_subscribed : Result String (Unit {0}) → Link → Option Link
unfolding drop_note
start_subscribed (err e) l = drop_note (warn_events_unavailable l)
start_subscribed (ok done) l = some (record l { subscribed = true })

-- `startAgentEvents`, which the caller runs with the lock held.
unfoldable pub start_agent_events : Daemon → Link → Option Link
unfolding start_subscribed
start_agent_events m l = if m.notify then start_subscribed m.subscribe l else some l

-- `stopAgentEvents`.
unfoldable pub stop_agent_events : Link → Link
stop_agent_events l = record l { subscribed = false }

hang_up_from : Option ℕ → Link → Link
hang_up_from none l = l
hang_up_from (some handle) l = record l { conn = none; disconnected = handle ∷ l.disconnected }

-- Disconnect, and drop the handle.
unfoldable pub hang_up : Link → Link
unfolding hang_up_from
hang_up l = hang_up_from l.conn l

started : ℕ → Option Link → Option (Result String ℕ × Link)
started handle none = none
started handle (some l) = some (ok handle, unlock l)

dialled : Daemon → Result String ℕ → Link → Option (Result String ℕ × Link)
unfolding started
dialled m (err e) l = some (err e, unlock l)
dialled m (ok handle) l = started handle (start_agent_events m (record l { conn = some handle }))

held_conn : Daemon → Option ℕ → Link → Option (Result String ℕ × Link)
unfolding dialled
held_conn m none l = dialled m m.dial l
held_conn m (some handle) l =
    if m.is_connected handle
    then some (ok handle, unlock l)
    else dialled m m.dial (hang_up (stop_agent_events l))

connect_locked : Daemon → Option Link → Option (Result String ℕ × Link)
unfolding held_conn
connect_locked m none = none
connect_locked m (some l) = held_conn m l.conn l

-- `connect`.
unfoldable pub connect : Daemon → Link → Option (Result String ℕ × Link)
unfolding connect_locked
connect m l = connect_locked m (lock l)

close_locked : Option Link → Option Link
close_locked none = none
close_locked (some l) = some (unlock (hang_up (stop_agent_events l)))

-- `Close`.
unfoldable pub close : Link → Option Link
unfolding close_locked
close l = close_locked (lock l)

lend :
    {A : Type 0}
    → (ℕ → Result String A)
    → Option (Result String ℕ × Link)
    → Option (Result String A × Link)
lend f none = none
lend f (some (err e, l)) = some (err e, l)
lend f (some (ok handle, l)) = some (f handle, l)

-- `WithConnection`: the lock is not held while the function runs.
unfoldable pub with_connection :
    {A : Type 0} → Daemon → (ℕ → Result String A) → Link → Option (Result String A × Link)
unfolding lend
with_connection m f l = lend f (connect m l)
