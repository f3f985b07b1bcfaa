-- ===== src/Truenas/Client/Connected.antt =====
-- What `ensureConnected` needs for a connection.
use pademelon.Base.{
  ap, some_inj, none≢some, ℕ, ◌≡◌, refl, sym, ◌∙◌, String, true, Option, none, some, Result, ok,
  err,
}
use pademelon.Truenas.Client.{
  Client, CallError, Attempt, set_state, drop, versioned, logged_in, dialled, connect_from,
  ensure_connected,
}

-- The dial gave this handle, and the login and the call for the version succeeded.
pub record IsPassed (a : Attempt) (handle : ℕ) : Type 0 where
  pub dialled : a.dial ≡ ok handle
  pub login : a.login ≡ ok tt
  pub version : (text : String) × (a.version ≡ ok text)

logged_in-IsPassed :
    (a : Attempt) (dialled handle : ℕ) (l : Result String (Unit {0})) (v : Result CallError String)
    (c : Client)
    → a.dial ≡ ok dialled
    → a.login ≡ l
    → a.version ≡ v
    → (logged_in a dialled l c).1.conn ≡ some handle
    → IsPassed a handle
unfolding logged_in versioned drop set_state
logged_in-IsPassed a dialled handle (err e) v c at login version h = absurd (none≢some h)
logged_in-IsPassed a dialled handle (ok tt) (err e) c at login version h =
    absurd (none≢some (rw version at h))
logged_in-IsPassed a dialled handle (ok tt) (ok text) c at login version h = record {
  dialled = at ∙ ap ok (some_inj (rw version at h));
  login = login;
  version = (text, version);
}

dialled-IsPassed :
    (a : Attempt) (handle : ℕ) (d : Result String ℕ) (c : Client)
    → a.dial ≡ d
    → c.conn ≡ none
    → (dialled a d c).1.conn ≡ some handle
    → IsPassed a handle
unfolding dialled set_state
dialled-IsPassed a handle (err e) c at gone h = absurd (none≢some (sym gone ∙ h))
dialled-IsPassed a handle (ok made) c at gone h =
    logged_in-IsPassed a made handle a.login a.version (record c { reader = true }) at refl refl h

connect_from-IsPassed :
    (a : Attempt) (handle : ℕ) (o : Option ℕ) (c : Client)
    → c.conn ≡ o
    → c.conn ≡ none
    → (connect_from a o c).1.conn ≡ some handle
    → IsPassed a handle
unfolding connect_from
connect_from-IsPassed a handle (some held) c at gone h = absurd (none≢some (sym gone ∙ at))
connect_from-IsPassed a handle none c at gone h = dialled-IsPassed a handle a.dial c refl gone h

-- A client without a connection has one after `ensureConnected` only if the dial gave it and the
-- login and the call for the version succeeded.
pub ensure_connected-IsPassed :
    (a : Attempt) (handle : ℕ) (c : Client)
    → c.conn ≡ none
    → (ensure_connected a c).1.conn ≡ some handle
    → IsPassed a handle
unfolding ensure_connected
ensure_connected-IsPassed a handle c gone h = connect_from-IsPassed a handle c.conn c refl gone h
