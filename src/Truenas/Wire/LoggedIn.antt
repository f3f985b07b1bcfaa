-- ===== src/Truenas/Wire/LoggedIn.antt =====
-- internal/truenas/truenas.go: what a new connection has been through.
use pademelon.Base.{
  ℕ, ◌≡◌, refl, sym, ap, String, none, some, Result, ok, err, ok≢err, ◌==◌, eq_iff, Bool-cases, inl,
  inr,
}
use pademelon.Truenas.Client.{Client, CallError, ensure_connected}
use pademelon.Truenas.Client.Connected.{ensure_connected-IsPassed}
use pademelon.Truenas.Wire.{Replies, response_type, login, dial, version_of, attempt}

-- The dial gave this handle, the login was answered with success, and the version came back.
pub record IsLoggedIn (decode_type : String → Result String String) (r : Replies) (handle : ℕ)
    : Type 0 where
  pub dialled : r.dialled ≡ ok handle
  pub login : (reply : String) × (r.login ≡ ok reply) × (decode_type reply ≡ ok "SUCCESS")
  pub version : (reply : String) × (r.version ≡ ok reply)

response_type_sound : (d : Result String String) → response_type d ≡ ok tt → d ≡ ok "SUCCESS"
unfolding response_type
response_type_sound (err e) h = absurd (ok≢err (sym h))
response_type_sound (ok kind) h = elim (Bool-cases (kind == "SUCCESS")) [
  | inl same ↦ ap ok ((eq_iff kind "SUCCESS").0 same)
  | inr other ↦ absurd (ok≢err (sym (rw other at h)))
]

login_sound :
    (decode : String → Result String String) (l : Result String String)
    → login decode l ≡ ok tt
    → (reply : String) × (l ≡ ok reply) × (decode reply ≡ ok "SUCCESS")
unfolding login
login_sound decode (err e) h = absurd (ok≢err (sym h))
login_sound decode (ok reply) h = (reply, refl, response_type_sound (decode reply) h)

dial_sound :
    (host : String) (d : Result String ℕ) (handle : ℕ) → dial host d ≡ ok handle → d ≡ ok handle
unfolding dial
dial_sound host (err e) handle h = absurd (ok≢err (sym h))
dial_sound host (ok handle') handle h = h

version_sound :
    (decode : String → Result String String) (v : Result CallError String) (text : String)
    → version_of decode v ≡ ok text
    → (reply : String) × (v ≡ ok reply)
unfolding version_of
version_sound decode (err e) text h = absurd (ok≢err (sym h))
version_sound decode (ok reply) text h = (reply, refl)

-- A client without a connection has one after an attempt to connect only if the websocket gave it,
-- the middleware answered the login with `SUCCESS`, and it answered the call for the version.
pub attempt-IsLoggedIn :
    (host : String) (decode_type decode_text : String → Result String String) (r : Replies)
    (handle : ℕ) (c : Client)
    → c.conn ≡ none
    → (ensure_connected (attempt host decode_type decode_text r) c).1.conn ≡ some handle
    → IsLoggedIn decode_type r handle
unfolding attempt
attempt-IsLoggedIn host decode_type decode_text r handle c gone h =
    let passed =
      ensure_connected-IsPassed (attempt host decode_type decode_text r) handle c gone h in
    let (text, answered) = passed.version in
    record {
      dialled = dial_sound host r.dialled handle passed.dialled;
      login = login_sound decode_type r.login passed.login;
      version = version_sound decode_text r.version text answered;
    }
