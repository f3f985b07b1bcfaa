-- ===== src/Cmd/Start/User.antt =====
-- main.go: the flag `-truenas-user` and the variable `TRUENAS_USER`.
use pademelon.Base.{ℕ, ◌≡◌, refl, ◌∙◌, ap, String, Bool}
use pademelon.Cmd.Flags.{Outside, resolve_truenas_user, Level, Format}
use pademelon.Cmd.Start.{Given, default_given, Settings, Outcome, main}
use pademelon.Cmd.Start.Servable.{main-IsServable}

default_user : (o : Outside) → resolve_truenas_user o default_given.truenas_user ≡ "pademelon"
unfolding resolve_truenas_user
default_user o = refl

-- Whatever the environment says, a server that is started without the flag for the user logs in as
-- `pademelon`: the default of the flag is that name and not the empty text, so the variable
-- `TRUENAS_USER` has no say.
pub main-default_user :
    (o : Outside) (probe : ℕ) (append_certs : String → Bool) (g : Given) (s : Settings)
    (log : Level × Format)
    → g.truenas_user ≡ default_given.truenas_user
    → main o probe append_certs g ≡ Outcome.serving s log
    → s.truenas_username ≡ "pademelon"
main-default_user o probe append_certs g s log unset h =
    (main-IsServable o probe append_certs g s log h).user
    ∙ ap (resolve_truenas_user o) unset
    ∙ default_user o
