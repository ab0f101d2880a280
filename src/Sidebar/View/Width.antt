-- ===== src/Sidebar/View/Width.antt =====
-- No line of the panel is wider than the pane.
use mure.Base.{
  ℕ, ◌⊎◌, inl, inr, ◌≤◌, ◌≡◌, refl, ◌∙◌, subst, sym, false, List, ◌++◌, Option, none, some, Bytes,
  codes, if_ind, is_empty, length, take, All, arith,
}
use mure.Sidebar.Model.{Model}
use mure.Sidebar.View.{spaces, render_agent_detail, decimal}
use mure.Sidebar.View.Panel.{
  wordmark, inner_width, tall_rows, dir_line, count_line, disconnected_line, bottom, divider,
  is_low, agent_rows, detailed, parts, body, view,
}
use mathlib.Core.Option.{some_inj}
use mure.Sidebar.View.Panic.{is_none, view-none}
use mure.Sidebar.View.Lines.{All-layout_drop, Each}
use mure.Sidebar.View.Fits.{
  Fits, AllFit, ShortFits, length-replicate, length-take, pad-Fits, center-Fits, tall_rows-AllFit,
  detail-AllFit, footer-Fits, short_rows-Fits, header-Fits,
}

-- The rows are not both short and too wide.
abbrev pub RowsFit : Model → ℕ → List Bytes → Type 0
RowsFit m now tall = (is_low m (inner_width m) tall ≡ false) ⊎ All (ShortFits m now) m.agents

agent_rows-Fits :
    (m : Model) (now : ℕ) (tall : List Bytes)
    → m.theme_picker ≡ false
    → RowsFit m now tall
    → All (Fits (inner_width m)) tall
    → All (Fits (inner_width m)) (agent_rows m now tall).0
unfolding agent_rows
agent_rows-Fits m now tall p (inl high) t = rw (high, p) t
agent_rows-Fits m now tall p (inr short) t =
    if_ind (λ (r : List Bytes × ℕ). All (Fits (inner_width m)) r.0) (is_low m (inner_width m) tall)
      _ _ (λ _. short_rows-Fits m now 0 m.agents short) (λ _. rw p t)

parts-Fits :
    (m : Model) (now : ℕ) (tall : List Bytes)
    → 13 ≤ inner_width m
    → m.input_mode ≡ false
    → All (Fits (inner_width m)) (agent_rows m now tall).0
    → Each (Fits (inner_width m)) (parts m now tall)
unfolding parts dir_line count_line disconnected_line bottom
parts-Fits m now tall w typed rows =
    let n = inner_width m in
    let blank : Fits n (spaces n) = omega (arith, length-replicate n b' ') in
    let line : Fits n (divider n) = omega (arith, length-replicate n 9472) in
    (
      (blank, (blank, tt)),
      header-Fits n,
      if_ind (All (Fits n)) (is_empty m.session_dir) _ _ (λ _. tt)
          (λ _. (
            pad-Fits n _ (center-Fits n (take n m.session_dir) (length-take n m.session_dir)),
            tt,
          )),
      (pad-Fits n _ (length-take n (decimal (length m.agents) ++ codes " agents")), tt),
      if_ind (All (Fits n)) m.connected _ _ (λ _. tt)
          (λ _. (pad-Fits n _ (length-take n (codes "(disconnected)")), tt)),
      (line, tt),
      rows,
      (line, tt),
      rw typed (footer-Fits n w),
    )

body-Fits :
    (m : Model) (now : ℕ) (tall details : Option (List Bytes))
    → ((rows : List Bytes) → tall ≡ some rows → RowsFit m now rows)
    → 13 ≤ inner_width m
    → m.input_mode ≡ false
    → m.theme_picker ≡ false
    → AllFit (inner_width m) tall
    → AllFit (inner_width m) details
    → AllFit (inner_width m) (body m now tall details)
body-Fits m now none details r w i p t d = tt
body-Fits m now (some tall) none r w i p t d = tt
body-Fits m now (some tall) (some details) r w i p t d =
    let n = inner_width m in
    All-layout_drop (Fits n) m.height m.selected (agent_rows m now tall).1 (take n wordmark)
      (spaces n) details (parts m now tall) (length-take n wordmark)
      (omega (arith, length-replicate n b' ')) d
      (parts-Fits m now tall w i (agent_rows-Fits m now tall p (r tall refl) t))

returned :
    (n : ℕ) (o : Option (List Bytes))
    → is_none o ≡ false
    → AllFit n o
    → (lines : List Bytes) × (o ≡ some lines) × All (Fits n) lines
returned n none e a = cc
returned n (some lines) e a = (lines, refl, a)

-- Outside the prompt and the theme picker, in a pane of at least 13 columns where either the cards
-- are shown or every agent's short row is no wider than the pane, `View` returns its lines, and no
-- line is wider than the pane.
pub view-Fits :
    (m : Model) (now : ℕ) (tall : List Bytes)
    → 13 ≤ m.width
    → m.input_mode ≡ false
    → m.theme_picker ≡ false
    → tall_rows m now 0 m.agents ≡ some tall
    → RowsFit m now tall
    → (lines : List Bytes) × (view m now ≡ some lines) × All (Fits m.width) lines
unfolding view
view-Fits m now tall w i p t r =
    let same : inner_width m ≡ m.width = ground arith in
    let wide : 13 ≤ inner_width m = omega (arith, same) in
    let returns : is_none (view m now) ≡ false = view-none m now ∙ ground arith in
    let fits =
      body-Fits m now (tall_rows m now 0 m.agents)
        (render_agent_detail now (inner_width m) (detailed m))
        (λ rows e. subst (RowsFit m now) (some_inj.0 (sym t ∙ e)) r) wide i p
        (tall_rows-AllFit m now 0 m.agents) (detail-AllFit now (inner_width m) (detailed m)) in
    let (lines, is, all) = returned (inner_width m) (view m now) returns fits in
    (lines, is, subst (λ n. All (Fits n) lines) same all)
