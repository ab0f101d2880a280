-- ===== src/Sidebar/Themes.antt =====
-- internal/sidebar/theme.go and themes.go: the palettes and the catalog of themes.
use mure.Base.{List, [], ◌∷◌, Bytes, codes}

-- lipgloss.AdaptiveColor.
pub record AdaptiveColor : Type 0 where
  pub light : Bytes
  pub dark : Bytes

pub record Palette : Type 0 where
  pub accent_a : AdaptiveColor
  pub accent_b : AdaptiveColor
  pub working : AdaptiveColor
  pub blocked : AdaptiveColor
  pub idle : AdaptiveColor
  pub dim : AdaptiveColor
  pub selection_bg : AdaptiveColor
  pub selection_fg : AdaptiveColor
  pub background : AdaptiveColor
  pub divider : AdaptiveColor

pub record NamedTheme : Type 0 where
  pub name : Bytes
  pub palette : Palette

abbrev color : Bytes → Bytes → AdaptiveColor
color light dark = record { light = light; dark = dark }

abbrev pub catppuccin_mocha : NamedTheme
catppuccin_mocha = record {
  name = codes "Catppuccin Mocha";
  palette = record {
    accent_a = color (codes "#cba6f7") (codes "#cba6f7");
    accent_b = color (codes "#f5c2e7") (codes "#f5c2e7");
    working = color (codes "#a6e3a1") (codes "#a6e3a1");
    blocked = color (codes "#f38ba8") (codes "#f38ba8");
    idle = color (codes "#9399b2") (codes "#9399b2");
    dim = color (codes "#9399b2") (codes "#9399b2");
    selection_bg = color (codes "#313244") (codes "#313244");
    selection_fg = color (codes "#cdd6f4") (codes "#cdd6f4");
    background = color (codes "#1d1d2e") (codes "#1d1d2e");
    divider = color (codes "#313244") (codes "#313244");
  };
}

abbrev pub catppuccin_latte : NamedTheme
catppuccin_latte = record {
  name = codes "Catppuccin Latte";
  palette = record {
    accent_a = color (codes "#8839ef") (codes "#8839ef");
    accent_b = color (codes "#ea76cb") (codes "#ea76cb");
    working = color (codes "#40a02b") (codes "#40a02b");
    blocked = color (codes "#d20f39") (codes "#d20f39");
    idle = color (codes "#6c6f85") (codes "#6c6f85");
    dim = color (codes "#6c6f85") (codes "#6c6f85");
    selection_bg = color (codes "#dce0e8") (codes "#dce0e8");
    selection_fg = color (codes "#4c4f69") (codes "#4c4f69");
    background = color (codes "#eff1f5") (codes "#eff1f5");
    divider = color (codes "#ccd0da") (codes "#ccd0da");
  };
}

abbrev pub tokyo_night : NamedTheme
tokyo_night = record {
  name = codes "Tokyo Night";
  palette = record {
    accent_a = color (codes "#bb9af7") (codes "#bb9af7");
    accent_b = color (codes "#f7768e") (codes "#f7768e");
    working = color (codes "#9ece6a") (codes "#9ece6a");
    blocked = color (codes "#f7768e") (codes "#f7768e");
    idle = color (codes "#565f89") (codes "#565f89");
    dim = color (codes "#565f89") (codes "#565f89");
    selection_bg = color (codes "#283457") (codes "#283457");
    selection_fg = color (codes "#c0caf5") (codes "#c0caf5");
    background = color (codes "#1a1b26") (codes "#1a1b26");
    divider = color (codes "#283457") (codes "#283457");
  };
}

abbrev pub gruvbox_dark : NamedTheme
gruvbox_dark = record {
  name = codes "Gruvbox Dark";
  palette = record {
    accent_a = color (codes "#d3869b") (codes "#d3869b");
    accent_b = color (codes "#fe8019") (codes "#fe8019");
    working = color (codes "#b8bb26") (codes "#b8bb26");
    blocked = color (codes "#fb4934") (codes "#fb4934");
    idle = color (codes "#928374") (codes "#928374");
    dim = color (codes "#928374") (codes "#928374");
    selection_bg = color (codes "#3c3836") (codes "#3c3836");
    selection_fg = color (codes "#ebdbb2") (codes "#ebdbb2");
    background = color (codes "#282828") (codes "#282828");
    divider = color (codes "#3c3836") (codes "#3c3836");
  };
}

-- `Themes`.
unfoldable pub themes : List NamedTheme
themes = catppuccin_mocha ∷ catppuccin_latte ∷ tokyo_night ∷ gruvbox_dark ∷ []

-- `Themes[0].Palette`.
abbrev pub default_palette : Palette
default_palette = catppuccin_mocha.palette
