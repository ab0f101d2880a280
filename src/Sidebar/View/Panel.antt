-- ===== src/Sidebar/View/Panel.antt =====
-- internal/sidebar/model.go: `View`, from the state of the model to the lines of the panel.
use mure.Base.{
  ℕ, suc, ◌+◌, Bool, not, ◌&&◌, ◌==◌, List, [], ◌∷◌, ◌++◌, map, Option, none, some, Bytes, codes,
  is_empty, ltb, leb, if◌then◌else◌, length, take, get_elem?,
}
use mure.Sock.{AgentSnapshot}
use mure.Sidebar.Model.{Model}
use mure.Sidebar.Layout.{Parts, replicate, layout_drop}
use mure.Sidebar.View.{
  spaces, pad, center, decimal, render_agent_row, render_agent_row_tall, render_agent_detail,
  build_footer, build_input_line, render_theme_picker,
}

-- brand.go.
abbrev pub logo : List Bytes
logo =
    codes "███▄███▄ ██ ██ ████▄ ▄█▀█▄"
    ∷ codes "██ ██ ██ ██ ██ ██ ▀▀ ██▄█▀"
    ∷ codes "██ ██ ██ ▀██▀█ ██    ▀█▄▄▄"
    ∷ []

abbrev pub wordmark : Bytes
wordmark = codes "mure"

abbrev pub inner_width : Model → ℕ
inner_width m = if ltb m.width 1 then 1 else m.width

abbrev pub is_selected : Model → ℕ → Bool
is_selected m i = i == m.selected && m.focused

abbrev pub in_front_of : Option (List Bytes) → Option (List Bytes) → Option (List Bytes)
in_front_of (some rows) (some more) = some (rows ++ more)
in_front_of _ _ = none

-- The loops over the agents, from the one at `i` on.
unfoldable pub tall_rows : Model → ℕ → ℕ → List AgentSnapshot → Option (List Bytes)
unfolding render_agent_row_tall
tall_rows m now i [] = some []
tall_rows m now i (a ∷ as') =
    in_front_of (render_agent_row_tall m a (is_selected m i) now (inner_width m))
      (tall_rows m now (suc i) as')

unfoldable pub short_rows : Model → ℕ → ℕ → List AgentSnapshot → List Bytes
unfolding render_agent_row
short_rows m now i [] = []
short_rows m now i (a ∷ as') =
    render_agent_row m a (is_selected m i) now (inner_width m) ∷ short_rows m now (suc i) as'

unfoldable pub header : ℕ → List Bytes
header inner =
    if leb 27 inner
    then map (center inner) logo ++ (spaces inner ∷ [])
    else center inner (take inner wordmark) ∷ []

unfoldable pub dir_line : Model → ℕ → List Bytes
dir_line m inner =
    if is_empty m.session_dir then [] else pad inner (center inner (take inner m.session_dir)) ∷ []

unfoldable pub count_line : Model → ℕ → List Bytes
unfolding decimal
count_line m inner = pad inner (take inner (decimal (length m.agents) ++ codes " agents")) ∷ []

unfoldable pub disconnected_line : Model → ℕ → List Bytes
disconnected_line m inner =
    if m.connected then [] else pad inner (take inner (codes "(disconnected)")) ∷ []

unfoldable pub bottom : Model → ℕ → List Bytes
unfolding build_footer build_input_line
bottom m inner = if m.input_mode then build_input_line m inner else build_footer inner

abbrev pub divider : ℕ → Bytes
divider inner = replicate inner 9472

-- The lines besides the agents' when `View` chooses the rows; the directory is not among them.
abbrev pub fixed : Model → ℕ → ℕ
fixed m inner =
    2
    + length (header inner)
    + length (count_line m inner)
    + length (disconnected_line m inner)
    + 1
    + 1
    + length (bottom m inner)

-- The pane is too low for the cards. The test comes last: it takes the place of the theme picker too.
abbrev pub is_low : Model → ℕ → List Bytes → Bool
is_low m inner tall = ltb 0 m.height && not m.expanded && ltb m.height (fixed m inner + length tall)

unfoldable pub agent_rows : Model → ℕ → List Bytes → List Bytes × ℕ
unfolding short_rows header count_line disconnected_line bottom render_theme_picker
agent_rows m now tall =
    if is_low m (inner_width m) tall
    then (short_rows m now 0 m.agents, 1)
    else if m.theme_picker
    then (render_theme_picker m (inner_width m), 1)
    else (tall, 3)

-- The agent whose details are shown.
abbrev pub detailed : Model → Option AgentSnapshot
detailed m = if m.expanded then get_elem? m.agents m.selected else none

unfoldable pub parts : Model → ℕ → List Bytes → Parts Bytes
unfolding dir_line
parts m now tall =
    let inner = inner_width m in
    record {
      top_pad = spaces inner ∷ spaces inner ∷ [];
      header = header inner;
      dir_line = dir_line m inner;
      count_line = count_line m inner;
      disc = disconnected_line m inner;
      top_div = divider inner ∷ [];
      agent_rows = (agent_rows m now tall).0;
      bot_div = divider inner ∷ [];
      footer = bottom m inner;
      use_logo = leb 27 inner;
      total = 0;
    }

abbrev pub body : Model → ℕ → Option (List Bytes) → Option (List Bytes) → Option (List Bytes)
body m now (some tall) (some details) = some (
    layout_drop m.height m.selected (agent_rows m now tall).1 (take (inner_width m) wordmark)
      (spaces (inner_width m)) details (parts m now tall))
body m now _ _ = none

-- The lines that `View` joins.
unfoldable pub view : Model → ℕ → Option (List Bytes)
unfolding tall_rows agent_rows parts render_agent_detail
view m now =
    body m now (tall_rows m now 0 m.agents) (render_agent_detail now (inner_width m) (detailed m))
