-- ===== src/Web/Auth/Backoff.antt =====
-- The delay after failed attempts.
use pademelon.Base.{
  Option, none, leb, false, true, ◌==◌, subst, not, if_both, ℕ, suc, ◌+◌, ◌-◌, ◌*◌, ◌^◌, ◌≤◌, ◌<◌,
  min, String, ◌≡◌, refl, ap, ◌∙◌, ◌≢◌, eq_iff, Bool-cases, inl, inr, ltb→lt, ltb→le, some, [], ◌∷◌,
  Table, lookup, insert, retain, arith, All, ltb, if◌then◌else◌, lookup-insert, eq_refl,
}
use native.Mathlib.Nat.{pow-succ'}
use pademelon.Clocks.{hour, auth_backoff_base, auth_backoff_max}
use pademelon.Web.Auth.{
  AuthFailure, AuthState, backoff_for, fresh_failure, prune, count_up, throttle_failed,
}

capped : ℕ → ℕ
capped d = if ltb auth_backoff_max d then auth_backoff_max else d

capped-double : (d : ℕ) → capped (2 * d) ≡ min (2 * capped d) auth_backoff_max
unfolding capped
capped-double d = ground arith

capped_top :
    capped (auth_backoff_base * 2 ^ 10)
    ≡ min (2 * capped (auth_backoff_base * 2 ^ 10)) auth_backoff_max
unfolding capped
capped_top = refl

-- Twice the power, as the shift grows by one and stops at ten places.
capped_shift :
    (n : ℕ)
    → capped (auth_backoff_base * 2 ^ min (n + 1) 10)
      ≡ min (2 * capped (auth_backoff_base * 2 ^ min n 10)) auth_backoff_max
capped_shift n = elim (Bool-cases (ltb n 10)) [
  | inl low ↦
      rw (min_low n (ltb→lt n 10 low), min_low_suc n (ltb→lt n 10 low), power n)
        (capped-double (auth_backoff_base * 2 ^ n))
  | inr high ↦
      rw (min_high n (ltb→le n 10 high), min_high (n + 1) (omega (arith, ltb→le n 10 high)))
        capped_top
]
  where
    min_low : (n : ℕ) → n < 10 → min n 10 ≡ n
    min_low n h = ground arith

    min_low_suc : (n : ℕ) → n < 10 → min (n + 1) 10 ≡ n + 1
    min_low_suc n h = ground arith

    min_high : (n : ℕ) → 10 ≤ n → min n 10 ≡ 10
    min_high n h = ground arith

    next : (n : ℕ) → n + 1 ≡ suc n
    next n = omega arith

    two_power : (n : ℕ) → 2 ^ (n + 1) ≡ 2 * 2 ^ n
    two_power n = ap (λ k. 2 ^ k) (next n) ∙ pow-succ' 2 n

    power : (n : ℕ) → auth_backoff_base * 2 ^ (n + 1) ≡ 2 * (auth_backoff_base * 2 ^ n)
    power n = omega (arith, two_power n)

backoff_for-capped : (n : ℕ) → backoff_for (n + 1) ≡ capped (auth_backoff_base * 2 ^ min n 10)
unfolding backoff_for capped
backoff_for-capped n = ap (λ k. capped (auth_backoff_base * 2 ^ min k 10)) (before n)
  where
    before : (n : ℕ) → n + 1 - 1 ≡ n
    before n = omega arith

capped-le : (d : ℕ) → capped d ≤ auth_backoff_max
unfolding capped
capped-le d = ground arith

backoff_for_first : backoff_for 1 ≡ auth_backoff_base
unfolding backoff_for
backoff_for_first = refl

-- The first failure costs the base delay; each further one twice the delay before it, but never
-- more than the cap.
pub backoff_for-doubles :
    (n : ℕ)
    → (backoff_for 1 ≡ auth_backoff_base)
      × (backoff_for (n + 1 + 1) ≡ min (2 * backoff_for (n + 1)) auth_backoff_max)
      × (backoff_for (n + 1) ≤ auth_backoff_max)
backoff_for-doubles n = (backoff_for_first, next, rw (backoff_for-capped n) (capped-le _))
  where
    next : backoff_for (n + 1 + 1) ≡ min (2 * backoff_for (n + 1)) auth_backoff_max
    next = backoff_for-capped (n + 1) ∙ rw (backoff_for-capped n) (capped_shift n)

-- No attempt of before is kept over its hour.
IsLive : ℕ → String × AuthFailure → Type 0
IsLive now e = now ≤ e.1.reset_at

prune-IsLive : (now : ℕ) (m : Table AuthFailure) → All (IsLive now) (prune now m)
unfolding prune retain IsLive
prune-IsLive now [] = tt
prune-IsLive now ((ip, f) ∷ rest) = ground (arith, prune-IsLive now rest)

insert-IsLive :
    (now : ℕ) (ip : String) (f : AuthFailure) (m : Table AuthFailure)
    → now ≤ f.reset_at
    → All (IsLive now) m
    → All (IsLive now) (insert ip f m)
unfolding insert IsLive
insert-IsLive now ip f [] h p = (h, tt)
insert-IsLive now ip f ((j, g) ∷ rest) h p = ground (arith, insert-IsLive now ip f rest h p.1)

-- No address has two entries.
unfoldable pub IsMap : Table AuthFailure → Type 0
IsMap [] = Unit {0}
IsMap ((ip, f) ∷ rest) = (lookup ip rest ≡ none) × IsMap rest

-- What is still known at a time of an address: nothing, once its hour is over.
unfoldable pub live : ℕ → Option AuthFailure → Option AuthFailure
live now none = none
live now (some f) = if leb now f.reset_at then some f else none

-- The failures that are known of an address.
unfoldable pub known : Option AuthFailure → ℕ
known none = 0
known (some f) = f.count

prune-live :
    (now : ℕ) (ip : String) (m : Table AuthFailure)
    → IsMap m
    → lookup ip (prune now m) ≡ live now (lookup ip m)
unfolding prune retain lookup live IsMap
prune-live now ip [] h = refl
prune-live now ip ((j, f) ∷ rest) (fresh, map) = elim (Bool-cases (ltb f.reset_at now)) [
  | inl over ↦
      let late : leb now f.reset_at ≡ false = ground (arith, over) in
      elim (Bool-cases (j == ip)) [
        | inl same ↦
            let at : j ≡ ip = ground (arith, same, eq_iff j ip) in
            let gone : lookup ip rest ≡ none = subst (λ k. lookup k rest ≡ none) at fresh in
            rw (over, same, late) (prune-live now ip rest map ∙ ap (live now) gone)
        | inr other ↦ rw (over, other) (prune-live now ip rest map)
      ]
  | inr still ↦
      let early : leb now f.reset_at ≡ true = ground (arith, still) in
      elim (Bool-cases (j == ip)) [
        | inl same ↦ rw (still, same, early) refl
        | inr other ↦ rw (still, other) (prune-live now ip rest map)
      ]
]

prune-IsMap : (now : ℕ) (m : Table AuthFailure) → IsMap m → IsMap (prune now m)
unfolding prune retain IsMap live
prune-IsMap now [] h = tt
prune-IsMap now ((j, f) ∷ rest) (fresh, map) =
    if_both IsMap (not (ltb f.reset_at now))
      (λ still. (prune-live now j rest map ∙ ap (live now) fresh, prune-IsMap now rest map))
      λ over. prune-IsMap now rest map

insert-IsMap :
    (ip : String) (f : AuthFailure) (m : Table AuthFailure) → IsMap m → IsMap (insert ip f m)
unfolding insert IsMap lookup
insert-IsMap ip f [] h = (refl, tt)
insert-IsMap ip f ((j, g) ∷ rest) (fresh, map) = elim (Bool-cases (j == ip)) [
  | inl same ↦
      let at : j ≡ ip = ground (arith, same, eq_iff j ip) in
      rw same (subst (λ k. lookup k rest ≡ none) at fresh, map)
  | inr other ↦
      let apart : (ip == j) ≡ false = ground (arith, other, eq_iff j ip, eq_iff ip j) in
      rw other (lookup-insert ip j f rest ∙ rw apart fresh, insert-IsMap ip f rest map)
]

fresh_failure-known : (o : Option AuthFailure) → (fresh_failure o).count ≡ known o
unfolding fresh_failure known
fresh_failure-known none = refl
fresh_failure-known (some f) = refl

-- Where no address has two entries, a failed attempt leaves the table so, and with no entry whose
-- hour is over. The address has then one failure more than were still known of it; the delay is
-- that of this count, the address is blocked for just that delay, and its entry lasts an hour. What
-- is known of every other address stays, unless its hour is over.
pub throttle_failed_lem :
    (ip other : String) (now : ℕ) (a : AuthState)
    → IsMap a.failures
    → other ≢ ip
    → let after = throttle_failed ip now a in
      All (λ e. now ≤ e.1.reset_at) after.1.failures
      × ((f : AuthFailure) × (lookup ip after.1.failures ≡ some f)
          × (f.count ≡ 1 + known (live now (lookup ip a.failures)))
          × (after.0 ≡ backoff_for f.count)
          × (f.blocked_down ≡ now + after.0)
          × (f.reset_at ≡ now + hour))
      × (lookup other after.1.failures ≡ live now (lookup other a.failures))
      × IsMap after.1.failures
unfolding throttle_failed count_up IsLive
throttle_failed_lem ip other now a map h =
    let failures = prune now a.failures in
    let f = count_up now (fresh_failure (lookup ip failures)) in
    let counted =
      fresh_failure-known (lookup ip failures) ∙ ap known (prune-live now ip a.failures map) in
    let apart : (ip == other) ≡ false = ground (arith, h, eq_iff ip other) in
    (
      insert-IsLive now ip f failures (omega arith) (prune-IsLive now a.failures),
      (
        f,
        lookup-insert ip ip f failures ∙ rw (eq_refl ip) refl,
        omega (arith, counted),
        refl,
        refl,
        refl,
      ),
      lookup-insert ip other f failures ∙ rw apart (prune-live now other a.failures map),
      insert-IsMap ip f failures (prune-IsMap now a.failures map),
    )
