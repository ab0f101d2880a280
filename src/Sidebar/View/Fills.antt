-- ===== src/Sidebar/View/Fills.antt =====
-- The height of what `View` returns.
use mure.Base.{
  ℕ, ◌+◌, ◌≤◌, ◌<◌, ◌≡◌, refl, ap, sym, ◌∙◌, List, [], ◌∷◌, Option, none, some, Bytes,
  if◌then◌else◌, length, take, arith, Bool-cases, inl, inr,
}
use mathlib.Core.Option.{some_inj}
use mure.Sock.{AgentSnapshot}
use mure.Sidebar.Model.{Model}
use mure.Sidebar.Layout.Height.{length-layout_drop}
use mure.Sidebar.View.{
  spaces, or_dash, rune_trunc, in_front, detail_line, detail_lines, detail_fields,
  render_agent_detail,
}
use mure.Sidebar.View.Panel.{
  inner_width, wordmark, tall_rows, agent_rows, detailed, parts, body, view,
}

in_front-length :
    (line : Option Bytes) (more : Option (List Bytes)) (k : ℕ) (lines : List Bytes)
    → ((rest : List Bytes) → more ≡ some rest → length rest ≡ k)
    → in_front line more ≡ some lines
    → length lines ≡ k + 1
in_front-length none more k lines h e = cc
in_front-length (some line) none k lines h e = cc
in_front-length (some line) (some rest) k lines h e = ground (arith, h rest refl)

detail_lines-length :
    (inner : ℕ) (rows : List (Bytes × Bytes)) (lines : List Bytes)
    → detail_lines inner rows ≡ some lines
    → length lines ≡ length rows
unfolding detail_lines
detail_lines-length inner [] lines e = ground arith
detail_lines-length inner ((key, v) ∷ rows) lines e =
    in_front-length (detail_line inner key (rune_trunc (or_dash v) inner 10))
      (detail_lines inner rows) (length rows) lines (detail_lines-length inner rows) e
    ∙ omega arith

-- An agent's details are a line for each field.
detail-length :
    (now inner : ℕ) (o : Option AgentSnapshot) (lines : List Bytes)
    → render_agent_detail now inner o ≡ some lines
    → length lines ≤ 6
unfolding render_agent_detail
detail-length now inner none lines e = ground arith
detail-length now inner (some a) lines e =
    omega (arith, detail_lines-length inner (detail_fields a now) lines e)

no_details :
    (now inner : ℕ) (lines : List Bytes)
    → render_agent_detail now inner none ≡ some lines
    → length lines ≤ 0
unfolding render_agent_detail
no_details now inner lines e = ground arith

abbrev pub detail_room : Model → ℕ
detail_room m = if m.expanded then 6 else 0

detailed-length :
    (m : Model) (now : ℕ) (lines : List Bytes)
    → render_agent_detail now (inner_width m) (detailed m) ≡ some lines
    → length lines ≤ detail_room m
detailed-length m now lines e = elim (Bool-cases m.expanded) [
  | inl shown ↦ rw shown (detail-length now (inner_width m) (detailed m) lines e)
  | inr hidden ↦
      let nobody : detailed m ≡ none = rw hidden in
      rw hidden (
        no_details now (inner_width m) lines
          (ap (render_agent_detail now (inner_width m)) (sym nobody) ∙ e))
]

body-length :
    (m : Model) (now : ℕ) (tall details : Option (List Bytes)) (lines : List Bytes)
    → 0 < m.height
    → ((ds : List Bytes) → details ≡ some ds → 1 + length ds ≤ m.height)
    → body m now tall details ≡ some lines
    → length lines ≡ m.height
unfolding parts
body-length m now none details lines p h e = cc
body-length m now (some tall) none lines p h e = cc
body-length m now (some tall) (some ds) lines p h e =
    ap length (some_inj.0 (sym e))
    ∙ length-layout_drop m.height m.selected (agent_rows m now tall).1
        (take (inner_width m) wordmark) (spaces (inner_width m)) ds (parts m now tall) p (h ds refl)

-- Where the pane's height is known, and is 7 or more if the details of an agent are shown, the panel
-- that `View` returns has exactly as many lines as the pane.
pub view-Fills :
    (m : Model) (now : ℕ) (lines : List Bytes)
    → 1 + detail_room m ≤ m.height
    → view m now ≡ some lines
    → length lines ≡ m.height
unfolding view
view-Fills m now lines h e =
    body-length m now (tall_rows m now 0 m.agents)
      (render_agent_detail now (inner_width m) (detailed m)) lines (omega arith)
      (λ ds is. omega (arith, detailed-length m now ds is)) e
