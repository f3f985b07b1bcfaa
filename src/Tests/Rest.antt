-- ===== src/Tests/Rest.antt =====
-- The gate, the backoff, the verbs, disk sources and the cache at single inputs.
use pademelon.Base.{
  ◌+◌, ◌≤◌, ◌≡◌, ◌≢◌, ◌↔◌, refl, String, true, false, none, some, [], ◌∷◌, arith, lookup, All, map,
  eq_iff, if◌then◌else◌,
}
use pademelon.Model.{new_cache, get, set, set_error, mark_stale}
use pademelon.Model.Stale.{set_errors, set_error_keeps}
use pademelon.Web.Auth.{
  AuthState, AuthFailure, Request, served, throttle_failed, backoff_for, require_token,
  session_cookie, clear_session_cookie,
}
use pademelon.Web.Auth.Backoff.{IsMap, live, known, throttle_failed_lem}
use pademelon.Clocks.{hour}
use pademelon.Web.Auth.Gate.{
  IsServed, HasToken, back, is_plain, is_cookie_byte, require_token_iff, login_cookie,
}
use pademelon.Base.{lower_char, trim_space, trim_left, trim_right, is_blank}
use pademelon.Web.Auth.{bearer_token}
use pademelon.Tests.{one_vm}

abbrev auth : AuthState
auth = record {
  token = "secret";
  failures = ("10.0.0.2", record { count = 3; reset_at = 50; blocked_down = 9 }) ∷ [];
}

abbrev rotated : AuthState
rotated = record auth { token = "fresh" }

abbrev login : Request
login = record {
  authorization = "bearer secret ";
  session_cookie = none;
  remote_addr = "10.0.0.2:5050";
  host = some "10.0.0.2";
  tls = true;
}

set_token : ◌≢◌ {A = String} "secret" ""
set_token = ground (arith, eq_iff "secret" "")

fresh_token : ◌≢◌ {A = String} "fresh" ""
fresh_token = ground (arith, eq_iff "fresh" "")

tokens_differ : ◌≢◌ {A = String} "fresh" "secret"
tokens_differ = ground (arith, eq_iff "fresh" "secret")

one_failure : IsMap auth.failures
unfolding IsMap lookup
one_failure = (refl, tt)

hosts_differ : ◌≢◌ {A = String} "10.0.0.2" "10.0.0.3"
hosts_differ = ground (arith, eq_iff "10.0.0.2" "10.0.0.3")

require_token_iff_example : IsServed (require_token 60 7 auth login).0 ↔ HasToken auth login
require_token_iff_example = require_token_iff 60 7 auth login set_token

-- A way that loses the quotes in a value, and changes no other.
abbrev carry : String → String
carry value = if is_plain value then value else ""

carried : (value : String) → is_plain value ≡ true → carry value ≡ value
carried value plain = rw plain refl

plain_token : is_plain "secret" ≡ true
unfolding is_plain is_cookie_byte
plain_token = refl

login_cookie_example :
    let again = back carry "10.0.0.9" true in
    ((require_token 60 7 auth login).0 ≡ served (some (session_cookie 60 auth login)))
    × IsServed (require_token 60 8 auth (again (session_cookie 60 auth login))).0
    × (¬ IsServed (require_token 60 8 auth (again (clear_session_cookie 60 auth login))).0)
    × (¬ IsServed (require_token 60 8 rotated (again (session_cookie 60 auth login))).0)
unfolding bearer_token lower_char trim_space trim_left trim_right is_blank
login_cookie_example =
    login_cookie 60 7 8 auth rotated login "10.0.0.9" true carry carried plain_token set_token
      fresh_token tokens_differ refl refl

throttle_failed_lem_example :
    let after = throttle_failed "10.0.0.3" 7 auth in
    All (λ e. 7 ≤ e.1.reset_at) after.1.failures
    × ((f : AuthFailure) × (lookup "10.0.0.3" after.1.failures ≡ some f)
        × (f.count ≡ 1 + known (live 7 (lookup "10.0.0.3" auth.failures)))
        × (after.0 ≡ backoff_for f.count)
        × (f.blocked_down ≡ 7 + after.0)
        × (f.reset_at ≡ 7 + hour))
    × (lookup "10.0.0.2" after.1.failures ≡ live 7 (lookup "10.0.0.2" auth.failures))
    × IsMap after.1.failures
throttle_failed_lem_example =
    throttle_failed_lem "10.0.0.3" "10.0.0.2" 7 auth one_failure hosts_differ

set_error_keeps_example :
    let after =
      get (set_error (set_errors ("refused" ∷ "reset" ∷ []) (set new_cache one_vm)) "gone") in
    (after.vms ≡ map mark_stale one_vm.vms)
    × All (λ v. v.stale ≡ true) after.vms
    × (after.connected ≡ false)
    × (after.error ≡ "gone")
    × (after.polled ≡ one_vm.polled)
set_error_keeps_example = set_error_keeps new_cache one_vm ("refused" ∷ "reset" ∷ []) "gone"
