-- ===== src/Web/Theme.antt =====
-- internal/web/theme.go: the palettes that the page has.
use pademelon.Base.{String, Bool, List, [], ◌∷◌, any, ◌==◌}

abbrev pub default_theme : String
default_theme = "sweetpea"

abbrev pub all_themes : List String
all_themes =
    "sweetpea" ∷ "classic" ∷ "charm" ∷ "catppuccin-latte" ∷ "catppuccin-frappe"
    ∷ "catppuccin-macchiato" ∷ "catppuccin-mocha" ∷ "dracula" ∷ "noctis" ∷ []

-- `ValidTheme`.
unfoldable pub valid_theme : String → Bool
valid_theme name = any (λ t. t == name) all_themes

-- `Themes`: a copy of the list.
pub themes : List String
themes = all_themes
