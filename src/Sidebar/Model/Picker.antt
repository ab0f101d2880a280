-- ===== src/Sidebar/Model/Picker.antt =====
-- The theme picker: what Esc gives back.
use mure.Base.{
  ◌≡◌, ◌≢◌, refl, ap, ◌∙◌, false, List, [], ◌∷◌, Option, none, some, arith, get_elem?,
  get_elem?-below, All,
}
use mure.Sidebar.Themes.{NamedTheme, Palette, themes}
use mure.Sidebar.Model.Invariant.{Inv}
use mure.Sidebar.Model.{
  Model, palette_or, obey, picks_theme, ThemeCommand, next_theme, previous_theme, restores_theme,
  obey_theme,
}

abbrev pub moves : List ThemeCommand → Model → Model
moves [] m = m
moves (c ∷ cs) m = moves cs (obey_theme c m)

-- Moving through the catalog.
abbrev pub IsMove : ThemeCommand → Type 0
IsMove next_theme = Unit {0}
IsMove previous_theme = Unit {0}
IsMove _ = ⊥

move-prev :
    (c : ThemeCommand) (m : Model) → IsMove c → (obey_theme c m).theme_prev_idx ≡ m.theme_prev_idx
unfolding obey_theme
move-prev next_theme m h = ground arith
move-prev previous_theme m h = ground arith
move-prev _ m h = absurd h

moves-prev :
    (cs : List ThemeCommand) (m : Model)
    → All IsMove cs
    → (moves cs m).theme_prev_idx ≡ m.theme_prev_idx
moves-prev [] m h = refl
moves-prev (c ∷ cs) m h = moves-prev cs (obey_theme c m) h.1 ∙ move-prev c m h.0

palette_or_any :
    (p q : Palette) (o : Option NamedTheme) → o ≢ none → palette_or p o ≡ palette_or q o
palette_or_any p q none h = absurd (h refl)
palette_or_any p q (some t) h = refl

-- Esc in the theme picker restores the theme and the palette from before it was opened, whatever
-- themes were tried in between.
pub picker_cancel :
    (m : Model) (cs : List ThemeCommand)
    → Inv m
    → All IsMove cs
    → let d = obey_theme restores_theme (moves cs (obey picks_theme m).0) in
      (d.theme_idx ≡ m.theme_idx) × (d.palette ≡ m.palette) × (d.theme_picker ≡ false)
unfolding obey obey_theme
picker_cancel m cs v h =
    let opened = (obey picks_theme m).0 in
    let same : (moves cs opened).theme_prev_idx ≡ m.theme_idx = moves-prev cs opened h in
    let (t, e) = get_elem?-below themes m.theme_idx v.theme_within in
    (
      same,
      ap (λ i. palette_or (moves cs opened).palette (get_elem? themes i)) same
          ∙ palette_or_any _ m.palette (get_elem? themes m.theme_idx) (λ none'. cc)
          ∙ v.shown,
      refl,
    )
