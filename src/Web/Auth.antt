-- ===== src/Web/Auth.antt =====
-- internal/web/auth.go: the token gate of the private routes. A request is what `net/http` makes
-- of it: the header, the cookie of a name, the address of the peer.
pub mod Backoff
pub mod Gate
use pademelon.Base.{
  ℕ, ◌+◌, ◌-◌, ◌*◌, ◌^◌, min, String, Bool, true, false, Option, none, some, ◌&&◌, not, ◌||◌, List,
  [], ◌∷◌, Table, lookup, insert, remove, retain, ltb, leb, ◌==◌, if◌then◌else◌, nat_eq, lower_char,
  trim_space,
}
use Prim.Native.Char.{code}
use pademelon.Clocks.{hour, second, auth_backoff_base, auth_backoff_max}

abbrev pub session_cookie_name : String
session_cookie_name = "pademelon_session"

-- An `authFailure`.
pub record AuthFailure : Type 0 where
  pub count : ℕ
  pub reset_at : ℕ
  pub blocked_down : ℕ

-- An `authState`: the token, and the failures by remote address.
pub record AuthState : Type 0 where
  pub token : String
  pub failures : Table AuthFailure

-- `backoffFor`. The shift is at most ten places of a value of 29 bits, far from an overflow; a
-- count of 0, which would panic, is never asked for.
unfoldable pub backoff_for : ℕ → ℕ
backoff_for count =
    let d = auth_backoff_base * 2 ^ min (count - 1) 10 in
    if ltb auth_backoff_max d then auth_backoff_max else d

fresh_failure : Option AuthFailure → AuthFailure
fresh_failure none = record { count = 0; reset_at = 0; blocked_down = 0 }
fresh_failure (some f) = f

unfoldable pub prune : ℕ → Table AuthFailure → Table AuthFailure
prune now failures = retain (λ key f. not (ltb f.reset_at now)) failures

count_up : ℕ → AuthFailure → AuthFailure
count_up now f = record {
  count = f.count + 1;
  reset_at = now + hour;
  blocked_down = now + backoff_for (f.count + 1);
}

-- `throttleFailed`: the delay, which the caller waits out, and the state it leaves.
unfoldable pub throttle_failed : String → ℕ → AuthState → ℕ × AuthState
unfolding fresh_failure count_up
throttle_failed ip now a =
    let failures = prune now a.failures in
    let f = count_up now (fresh_failure (lookup ip failures)) in
    (backoff_for f.count, record a { failures = insert ip f failures })

-- `clearFailures`.
unfoldable pub clear_failures : String → AuthState → AuthState
clear_failures ip a = record a { failures = remove ip a.failures }

-- A request, as far as the gate reads it: the header `Authorization`, the session cookie, the address
-- of the peer, the host that `net.SplitHostPort` finds in it, and TLS.
pub record Request : Type 0 where
  pub authorization : String
  pub session_cookie : Option String
  pub remote_addr : String
  pub host : Option String
  pub tls : Bool

-- The scheme cut off, in any letter case; all its characters are ASCII, as are those it folds to.
fold_strip : String → String → Option String
fold_strip String.[] s = some s
fold_strip (String.◌∷◌ c p) String.[] = none
fold_strip (String.◌∷◌ c p) (String.◌∷◌ d s) =
    let rest = fold_strip p s in
    if nat_eq (code (lower_char c)) (code (lower_char d)) then rest else none

trimmed_or_empty : Option String → String
trimmed_or_empty none = ""
trimmed_or_empty (some s) = trim_space s

-- `bearerToken`; a header that ends with the scheme has nothing after it.
unfoldable pub bearer_token : String → String
unfolding fold_strip trimmed_or_empty
bearer_token header = trimmed_or_empty (fold_strip "Bearer " header)

host_or : String → Option String → String
host_or addr none = addr
host_or addr (some host) = host

-- `remoteIP`.
unfoldable pub remote_ip : Request → String
unfolding host_or
remote_ip r = host_or r.remote_addr r.host

-- A cookie to set; a lifetime of `none` is `MaxAge` -1, "delete now".
pub record Cookie : Type 0 where
  pub name : String
  pub value : String
  pub path : String
  pub max_age : Option ℕ
  pub http_only : Bool
  pub same_site_lax : Bool
  pub secure : Bool

-- `tokenEqual`; that the comparison takes constant time has no counterpart here.
unfoldable pub token_equal : AuthState → String → Bool
token_equal a candidate = candidate == a.token

unfoldable pub valid_bearer : AuthState → Request → Bool
valid_bearer a r = let t = bearer_token r.authorization in not (t == "") && token_equal a t

cookie_matches : AuthState → Option String → Bool
cookie_matches a none = false
cookie_matches a (some value) = not (value == "") && token_equal a value

unfoldable pub valid_cookie : AuthState → Request → Bool
unfolding cookie_matches
valid_cookie a r = cookie_matches a r.session_cookie

-- `sessionCookie`, given the lifetime in seconds.
unfoldable pub session_cookie : ℕ → AuthState → Request → Cookie
session_cookie max_age a r = record {
  name = session_cookie_name;
  value = a.token;
  path = "/";
  max_age = some max_age;
  http_only = true;
  same_site_lax = true;
  secure = r.tls;
}

-- `clearSessionCookie`.
unfoldable pub clear_session_cookie : ℕ → AuthState → Request → Cookie
clear_session_cookie max_age a r = record (session_cookie max_age a r) {
  value = "";
  max_age = none;
}

-- What the gate does with a request: pass it on, with a cookie if this is a login, or answer 401
-- after a delay.
pub data Passage : Type 0 where
  served : Option Cookie → Passage
  unauthorized : ℕ → Passage

refuse : ℕ × AuthState → Passage × AuthState
refuse (delay, a) = (Passage.unauthorized delay, a)

-- `requireToken`.
unfoldable pub require_token : ℕ → ℕ → AuthState → Request → Passage × AuthState
unfolding refuse
require_token max_age now a r =
    if valid_bearer a r
    then (
      Passage.served (if valid_cookie a r then none else some (session_cookie max_age a r)),
      clear_failures (remote_ip r) a,
    )
    else if valid_cookie a r
    then (Passage.served none, a)
    else refuse (throttle_failed (remote_ip r) now a)
