-- ===== src/Web/Page.antt =====
-- internal/web/web.go: the theme in the page. The page itself, index.html, is given.
use Prim.Native.Nat.{ℕ, zero, suc, ◌-◌}
use Prim.Native.String.{String, ◌++◌, len}
use pademelon.Base.{has_prefix, if◌then◌else◌}
use pademelon.Web.Theme.{default_theme}

-- `themePlaceholder`.
unfoldable pub theme_placeholder : String
theme_placeholder = "data-theme=\"" ++ default_theme ++ "\""

-- `bytes.ReplaceAll` of a text that is not empty: from the left, and on behind each place where the
-- text was found; `skip` characters of such a place are still to pass.
unfoldable pub replace_from : ℕ → String → String → String → String
replace_from skip old new String.[] = ""
replace_from (suc skip) old new (String.◌∷◌ c s) = replace_from skip old new s
replace_from zero old new (String.◌∷◌ c s) =
    let found = replace_from (len old - 1) old new s in
    let on = replace_from zero old new s in
    if has_prefix (String.◌∷◌ c s) old then new ++ found else String.◌∷◌ c on

-- What `handleIndex` writes.
unfoldable pub themed : String → String → String
unfolding replace_from
themed theme page = replace_from zero theme_placeholder ("data-theme=\"" ++ theme ++ "\"") page
