-- ===== src/Truenas/Client/Truthful.antt =====
-- What the status says of the connection between two rounds of `Run`.
use pademelon.Base.{
  ℕ, ◌≡◌, refl, String, Bool, true, false, Option, none, some, Result, ok, err, if_both, sym, ap,
  subst, some_inj,
}
use pademelon.Truenas.Client.{
  Client, new_client, CallError, error_text, set_state, drop, is_dead_socket_err, Attempt,
  versioned, logged_in, dialled, connect_from, ensure_connected, Signal, pinged, selected,
  after_connect, run_round, wake_up, PauseEnd, pause,
}

abbrev pub is_some : Option ℕ → Bool
is_some none = false
is_some (some handle) = true

-- The page is told "connected" exactly while there is a connection that calls can ride on, and then
-- a read loop belongs to it.
pub record IsTruthful (c : Client) : Type 0 where
  pub told : c.state.connected ≡ is_some c.conn
  pub read : c.reader ≡ is_some c.conn

drop-IsTruthful : (now : ℕ) (e : String) (c : Client) → IsTruthful (drop now e c)
unfolding drop set_state
drop-IsTruthful now e c = record { told = refl; read = refl }

logged_in-IsTruthful :
    (a : Attempt) (handle : ℕ) (r : Result String (Unit {0})) (v : Result CallError String)
    (c : Client)
    → a.version ≡ v
    → c.reader ≡ true
    → IsTruthful (logged_in a handle r c).1
unfolding logged_in versioned set_state
logged_in-IsTruthful a handle (err e) v c at reading = drop-IsTruthful a.now e c
logged_in-IsTruthful a handle (ok passed) (err e) c at reading =
    rw at (drop-IsTruthful a.now (error_text e) (record c { conn = some handle; dead = false }))
logged_in-IsTruthful a handle (ok passed) (ok version) c at reading =
    rw at (record { told = refl; read = reading })

dialled-IsTruthful :
    (a : Attempt) (r : Result String ℕ) (c : Client)
    → c.conn ≡ none
    → IsTruthful c
    → IsTruthful (dialled a r c).1
unfolding dialled set_state
dialled-IsTruthful a (err e) c gone t = record { told = sym (ap is_some gone); read = t.read }
dialled-IsTruthful a (ok handle) c gone t =
    logged_in-IsTruthful a handle a.login a.version (record c { reader = true }) refl refl

connect_from-IsTruthful :
    (a : Attempt) (o : Option ℕ) (c : Client)
    → c.conn ≡ o
    → IsTruthful c
    → IsTruthful (connect_from a o c).1
unfolding connect_from
connect_from-IsTruthful a (some handle) c at t = t
connect_from-IsTruthful a none c at t = dialled-IsTruthful a a.dial c at t

pinged-IsTruthful :
    (now : ℕ) (r : Result CallError String) (c : Client)
    → IsTruthful c
    → IsTruthful (pinged now r c).1
unfolding pinged
pinged-IsTruthful now (ok pong) c t = t
pinged-IsTruthful now (err e) c t =
    if_both IsTruthful (is_dead_socket_err e) (λ gone. drop-IsTruthful now (error_text e) c)
      λ slow. t

selected-IsTruthful :
    (now : ℕ) (signal : Signal) (c : Client) → IsTruthful c → IsTruthful (selected now signal c).1
unfolding selected
selected-IsTruthful now Signal.done c t = drop-IsTruthful now "client shut down" c
selected-IsTruthful now Signal.lost c t =
    drop-IsTruthful now "connection lost" (record c { dead = false })
selected-IsTruthful now Signal.woken c t = record { told = t.told; read = t.read }
selected-IsTruthful now (Signal.tick r) c t = pinged-IsTruthful now r c t

after-IsTruthful :
    (cancelled : Bool) (now : ℕ) (signal : Signal) (p : Result String (Unit {0}) × Client)
    → IsTruthful p.1
    → IsTruthful (after_connect cancelled now signal p).1
unfolding after_connect
after-IsTruthful cancelled now signal (err e, c) t = t
after-IsTruthful cancelled now signal (ok passed, c) t = selected-IsTruthful now signal c t

pause-IsTruthful :
    (e : PauseEnd) (c c' : Client) → IsTruthful c → pause e c ≡ some c' → IsTruthful c'
unfolding pause
pause-IsTruthful PauseEnd.elapsed c c' t h = subst IsTruthful (some_inj h) t
pause-IsTruthful PauseEnd.cancelled c c' t h = cc
pause-IsTruthful PauseEnd.pulled_forward c c' t h =
    subst IsTruthful (some_inj h) (record { told = t.told; read = t.read })

-- The clients that some rounds of `Run`, its pauses and calls of `Wake` lead to, whatever they meet.
pub data Reachable : Client → Type 0 where
  made : Reachable new_client
  round :
      (a : Attempt) (cancelled : Bool) (now : ℕ) (signal : Signal) {c : Client}
      → Reachable c
      → Reachable (run_round a cancelled now signal c).1
  woken : {c : Client} → Reachable c → Reachable (wake_up c)
  paused : (e : PauseEnd) {c c' : Client} → Reachable c → pause e c ≡ some c' → Reachable c'

-- After any rounds of `Run`, with its pauses and any wakes, the status says that the middleware is connected exactly if there is a
-- connection for calls to ride on, and exactly then there is a read loop to cancel.
pub Reachable-IsTruthful : {c : Client} → Reachable c → IsTruthful c
unfolding run_round ensure_connected wake_up
Reachable-IsTruthful Reachable.made = record { told = refl; read = refl }
Reachable-IsTruthful (Reachable.round a cancelled now signal {c} r) =
    after-IsTruthful cancelled now signal (connect_from a c.conn c)
      (connect_from-IsTruthful a c.conn c refl (Reachable-IsTruthful r))
Reachable-IsTruthful (Reachable.woken {c} r) =
    let t = Reachable-IsTruthful r in record { told = t.told; read = t.read }
Reachable-IsTruthful (Reachable.paused e {c} {c'} r h) =
    pause-IsTruthful e c c' (Reachable-IsTruthful r) h
