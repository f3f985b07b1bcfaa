-- ===== src/Cmd/Start/Servable.antt =====
-- What the settings of a server are like.
use pademelon.Base.{
  ℕ, is_below, ◌≡◌, refl, String, Bool, true, false, Result, ok, err, bind_ok, refuse_if-passed,
  ◌&&◌, not, ◌==◌, ok_inj, ap, sym, subst, ◌∙◌, arith, if◌then◌else◌, Bool-cases, inl, inr,
}
use pademelon.Clocks.{second}
use pademelon.Truenas.Wire.{Tls, new_tls}
use pademelon.Web.Theme.{valid_theme}
use pademelon.Cmd.Flags.{
  Outside, resolve_truenas_user, resolve_token, resolve_truenas_key, resolve_allow_actions,
  resolve_snapshot_auto_refresh, Level, Format, new_logger,
}
use pademelon.Cmd.Flags.Solid.{IsSolid, is_configured, resolve_secret-IsSolid}
use pademelon.Cmd.Start.{
  Given, Settings, is_bad_period, is_bad_refresh, check_flags, Outcome, main, checked, with_logger,
  with_client,
}

pub record IsServable (o : Outside) (g : Given) (s : Settings) : Type 0 where
  pub token :
      IsSolid (is_configured o "PADAMELON_TOKEN" "PADAMELON_TOKEN_FILE" g.auth_token) s.token
  pub key :
      IsSolid
        (is_configured o "TRUENAS_API_KEY" "TRUENAS_API_KEY_FILE" g.truenas_api_key)
        s.truenas_key
  pub user : s.truenas_username ≡ resolve_truenas_user o g.truenas_user
  pub locked : s.actions_on && (s.token == "") ≡ false
  pub keyed : not (s.truenas_addr == "") && (s.truenas_key == "") ≡ false
  pub timeout : is_below s.agent_timeout second ≡ false
  pub period : is_bad_period s.stats_period ≡ false
  pub refresh : is_bad_refresh s.snapshot_refresh ≡ false
  pub theme : valid_theme s.theme ≡ true

checked-IsServable :
    (o : Outside) (g : Given) (s : Settings) → check_flags o g ≡ ok s → IsServable o g s
unfolding check_flags resolve_token resolve_truenas_key
checked-IsServable o g s h =
    let timeout = refuse_if-passed _ _ _ h in
    let period = refuse_if-passed _ _ _ timeout.1 in
    let theme = refuse_if-passed _ _ _ period.1 in
    let token = bind_ok (resolve_token o g.auth_token) _ theme.1 in
    let allowed = bind_ok (resolve_allow_actions o g.allow_actions) _ token.2 in
    let locked = refuse_if-passed _ _ _ allowed.2 in
    let key = bind_ok (resolve_truenas_key o g.truenas_api_key) _ locked.1 in
    let keyed = refuse_if-passed _ _ _ key.2 in
    let interval = bind_ok (resolve_snapshot_auto_refresh o g.snapshot_auto_refresh) _ keyed.1 in
    let refresh = refuse_if-passed _ _ _ interval.2 in
    subst (IsServable o g) (ok_inj refresh.1) (record {
      token = resolve_secret-IsSolid o _ _ _ g.auth_token token.1;
      key = resolve_secret-IsSolid o _ _ _ g.truenas_api_key key.1;
      user = refl;
      locked = locked.0;
      keyed = keyed.0;
      timeout = timeout.0;
      period = period.0;
      refresh = refresh.0;
      theme = ground (arith, theme.0);
    })

module _ (s : Settings) (log : Level × Format) where
  abbrev settings_or : Settings → Outcome → Settings
  settings_or s' (Outcome.serving s'' log') = s''
  settings_or s' _ = s'

  client_served :
      (s' : Settings) (log' : Level × Format) (r : Result String Tls)
      → with_client s' log' r ≡ Outcome.serving s log
      → s' ≡ s
  unfolding with_client
  client_served s' log' (err e) h = cc
  client_served s' log' (ok done) h = ap (settings_or s') h

  logger_served :
      (new_client : String → String → Result String Tls) (g : Given) (s' : Settings)
      (r : Result String (Level × Format))
      → with_logger new_client g s' r ≡ Outcome.serving s log
      → s' ≡ s
  unfolding with_logger
  logger_served new_client g s' (err e) h = cc
  logger_served new_client g s' (ok log') h = elim (Bool-cases (s'.truenas_addr == "")) [
    | inl off ↦ ap (settings_or s') (
        sym (
          ap
            (λ b.
              if b
              then Outcome.serving s' log'
              else with_client s' log' (new_client s'.truenas_addr g.truenas_ca_file))
            off)
        ∙ h)
    | inr set ↦ client_served s' log' (new_client s'.truenas_addr g.truenas_ca_file) (
        sym (
          ap
            (λ b.
              if b
              then Outcome.serving s' log'
              else with_client s' log' (new_client s'.truenas_addr g.truenas_ca_file))
            set)
        ∙ h)
  ]

  flags_served :
      (o : Outside) (probe : ℕ) (new_client : String → String → Result String Tls) (g : Given)
      (r : Result String Settings)
      → checked probe new_client g r ≡ Outcome.serving s log
      → r ≡ ok s
  unfolding checked
  flags_served o probe new_client g (err e) h = cc
  flags_served o probe new_client g (ok s') h = elim (Bool-cases g.show_version) [
    | inl shown ↦ ground (arith, h, shown)
    | inr more ↦ elim (Bool-cases g.healthcheck) [
      | inl probing ↦ ground (arith, h, more, probing)
      | inr going ↦ ap ok (
          logger_served new_client g s' (new_logger g.log_level g.log_format)
            (ground (arith, h, more, going)))
    ]
  ]

-- A server is only started with settings that hold together: the token and the key are there exactly
-- if they were given, by flag, variable or file, and then not blank; the user is the one resolved; actions are on only with a token
-- and the middleware only with a key; the agent's timeout is at least a second, the other two
-- intervals are 0 or at least their floors, and the theme is one of the page's.
pub main-IsServable :
    (o : Outside) (probe : ℕ) (append_certs : String → Bool) (g : Given) (s : Settings)
    (log : Level × Format)
    → main o probe append_certs g ≡ Outcome.serving s log
    → IsServable o g s
unfolding main
main-IsServable o probe append_certs g s log h =
    checked-IsServable o g s
      (flags_served s log o probe (new_tls o.read_file append_certs) g (check_flags o g) h)
