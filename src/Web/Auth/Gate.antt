-- ===== src/Web/Auth/Gate.antt =====
-- Who passes the gate.
use pademelon.Base.{
  ℕ, String, ◌≡◌, refl, sym, ◌≢◌, ◌↔◌, ◌⊎◌, inl, inr, Bool, true, false, Option, none, some, arith,
  eq_iff, if◌then◌else◌, if_both, ap, ◌∙◌, leb, ltb, nat_eq, not, ◌&&◌,
}
use Prim.Native.Char.{code}
use pademelon.Web.Auth.{
  AuthState, Request, Cookie, Passage, served, unauthorized, token_equal, valid_bearer,
  cookie_matches, valid_cookie, session_cookie, clear_session_cookie, refuse, require_token,
  throttle_failed, bearer_token, remote_ip, clear_failures,
}

abbrev pub IsServed : Passage → Type 0
IsServed (served _) = Unit {0}
IsServed (unauthorized _) = ⊥

abbrev pub HasToken : AuthState → Request → Type 0
HasToken a r = (bearer_token r.authorization ≡ a.token) ⊎ (r.session_cookie ≡ some a.token)

module _ (a : AuthState) (r : Request) (set_token : a.token ≢ "") where
  valid_bearer_iff : (valid_bearer a r ≡ true) ↔ (bearer_token r.authorization ≡ a.token)
  unfolding valid_bearer token_equal
  valid_bearer_iff = ground (
    arith,
    eq_iff (bearer_token r.authorization) "",
    eq_iff (bearer_token r.authorization) a.token,
    set_token,
  )

  cookie_matches_iff : (o : Option String) → (cookie_matches a o ≡ true) ↔ (o ≡ some a.token)
  unfolding cookie_matches token_equal
  cookie_matches_iff none = ground arith
  cookie_matches_iff (some value) = ground (arith, eq_iff value "", eq_iff value a.token, set_token)

  valid_cookie_iff : (valid_cookie a r ≡ true) ↔ (r.session_cookie ≡ some a.token)
  unfolding valid_cookie
  valid_cookie_iff = cookie_matches_iff r.session_cookie

IsServed-if :
    (b c : Bool) (o : Option Cookie) (a : AuthState) (x y : Passage × AuthState)
    → IsServed x.0
    → (¬ IsServed y.0)
    → IsServed (if b then x else if c then (served o, a) else y).0 ↔ ((b ≡ true) ⊎ (c ≡ true))
IsServed-if true c o a x y p q = (λ _. inl refl, λ _. p)
IsServed-if false true o a x y p q = (λ _. inr refl, λ _. tt)
IsServed-if false false o a x y p q = (λ s. absurd (q s), λ h. ground (arith, h))

IsServed-require_token :
    (max_age now : ℕ) (a : AuthState) (r : Request)
    → IsServed (require_token max_age now a r).0
      ↔ ((valid_bearer a r ≡ true) ⊎ (valid_cookie a r ≡ true))
unfolding require_token refuse
IsServed-require_token max_age now a r =
    IsServed-if (valid_bearer a r) (valid_cookie a r) none a _
      (refuse (throttle_failed (remote_ip r) now a)) tt (λ f. f)

no_cookie : (a : AuthState) (r : Request) → r.session_cookie ≡ none → valid_cookie a r ≡ false
unfolding valid_cookie cookie_matches
no_cookie a r e = rw e refl

-- Where a token is set, the gate serves a request exactly when it carries the token, as a bearer
-- or in the session cookie; every other request is answered 401.
pub require_token_iff :
    (max_age now : ℕ) (a : AuthState) (r : Request)
    → a.token ≢ ""
    → IsServed (require_token max_age now a r).0 ↔ HasToken a r
require_token_iff max_age now a r h =
    let through = IsServed-require_token max_age now a r in
    let bearer = valid_bearer_iff a r h in
    let cookie = valid_cookie_iff a r h in
    (
      λ s. ground (arith, through.0 s, bearer, cookie),
      λ t. through.1 (ground (arith, t, bearer, cookie)),
    )

-- The gate keeps the token.
pub require_token_keeps :
    (max_age now : ℕ) (a : AuthState) (r : Request)
    → (require_token max_age now a r).1.token ≡ a.token
unfolding require_token refuse throttle_failed clear_failures
require_token_keeps max_age now a r =
    if_both (λ (x : Passage × AuthState). x.1.token ≡ a.token) (valid_bearer a r) (λ b. refl)
      λ b.
        if_both (λ (x : Passage × AuthState). x.1.token ≡ a.token) (valid_cookie a r) (λ c. refl)
          λ c. refl

-- A later request that carries no header and this value in the session cookie.
abbrev pub carrying : String → Bool → String → Request
carrying ip tls value = record {
  authorization = "";
  session_cookie = some value;
  remote_addr = ip;
  host = some ip;
  tls = tls;
}

-- The request of a browser that keeps a cookie. What comes back of the value that `http.SetCookie`
-- was given is `carry`'s answer.
abbrev pub back : (String → String) → String → Bool → Cookie → Request
back carry ip tls c = carrying ip tls (carry c.value)

-- A byte that `net/http` leaves in the value of a cookie.
unfoldable pub is_cookie_byte : ℕ → Bool
is_cookie_byte b =
    leb 32 b && ltb b 127 && not (nat_eq b b'"') && not (nat_eq b b';') && not (nat_eq b b'\\')

unfoldable pub is_plain : String → Bool
is_plain String.[] = true
is_plain (String.◌∷◌ c s) = is_cookie_byte (code c) && is_plain s

first_login :
    (max_age now : ℕ) (a : AuthState) (r : Request)
    → a.token ≢ ""
    → bearer_token r.authorization ≡ a.token
    → r.session_cookie ≡ none
    → (require_token max_age now a r).0 ≡ served (some (session_cookie max_age a r))
unfolding require_token
first_login max_age now a r h bearer none_yet =
    rw ((valid_bearer_iff a r h).1 bearer, no_cookie a r none_yet) refl

refused :
    (a : AuthState) (ip : String) (tls : Bool) (value : String)
    → a.token ≢ ""
    → value ≢ a.token
    → ¬ HasToken a (carrying ip tls value)
unfolding bearer_token
refused a ip tls value h other (inl e) = h (sym e)
refused a ip tls value h other (inr e) = other (cc)

-- Where the way over `net/http` and a browser leaves a value of bytes that are allowed in a cookie as
-- it is, and the token has only such bytes: a login with the right bearer and no cookie sets a cookie
-- that the gate then takes alone, from any address and at any time; the cookie that a logout sets is
-- refused, and so is the old one once the token was changed.
pub login_cookie :
    (max_age now later : ℕ) (a rotated : AuthState) (r : Request) (ip : String) (tls : Bool)
    (carry : String → String)
    → ((value : String) → is_plain value ≡ true → carry value ≡ value)
    → is_plain a.token ≡ true
    → a.token ≢ ""
    → rotated.token ≢ ""
    → rotated.token ≢ a.token
    → bearer_token r.authorization ≡ a.token
    → r.session_cookie ≡ none
    → let again = back carry ip tls in
      ((require_token max_age now a r).0 ≡ served (some (session_cookie max_age a r)))
      × IsServed (require_token max_age later a (again (session_cookie max_age a r))).0
      × (¬ IsServed (require_token max_age later a (again (clear_session_cookie max_age a r))).0)
      × (¬ IsServed (require_token max_age later rotated (again (session_cookie max_age a r))).0)
unfolding session_cookie clear_session_cookie is_plain
login_cookie max_age now later a rotated r ip tls carry keeps plain h hr differ bearer none_yet = (
  first_login max_age now a r h bearer none_yet,
  (require_token_iff max_age later a (carrying ip tls (carry a.token)) h).1
      (inr (ap some (keeps a.token plain))),
  λ s.
      refused a ip tls (carry "") h (λ e. h (sym e ∙ keeps "" refl))
        ((require_token_iff max_age later a _ h).0 s),
  λ s.
      refused rotated ip tls (carry a.token) hr (λ e. differ (sym e ∙ keeps a.token plain))
        ((require_token_iff max_age later rotated _ hr).0 s),
)
