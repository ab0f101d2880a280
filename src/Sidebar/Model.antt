-- ===== src/Sidebar/Model.antt =====
-- internal/sidebar/model.go: `Update` and the handlers that it calls.
-- `selected` is never negative: it is set to 0, to the last place of a list that is not empty,
-- raised, or lowered where it is above 0. Keys are what bubbletea reports.
pub mod Invariant
pub mod Picker
use mure.Base.{
  ℕ, suc, ◌+◌, ◌-◌, ◌%◌, ◌^◌, Bool, true, false, not, ◌&&◌, ◌||◌, List, [], ◌∷◌, ◌++◌, Option, none,
  some, Bytes, codes, equal, is_empty, ltb, leb, if◌then◌else◌, length, get_elem?, drop, ◌==◌,
}
use mure.Base.Strings.{has_prefix, trim_space}
use mure.Sock.{AgentSnapshot, AgentUpdate}
use mure.Sock
use mure.Sidebar.Agents.{sort_agents, any_working, remove_agent, upsert_agent}
use mure.Sidebar.Themes.{NamedTheme, Palette, themes, default_palette}

-- internal/sidebar/client.go: what the client hands over.
pub record Frame : Type 0 where
  pub roster : Option Sock.Roster
  pub update : Option AgentUpdate
  pub connect : Bool

pub data KeyType : Type 0 where
  key_enter key_esc key_ctrl_c key_backspace key_delete key_runes key_space key_other : KeyType

-- A key press: its type, its `String()`, and its runes.
pub record Key : Type 0 where
  pub type_of : KeyType
  pub name : Bytes
  pub runes : List ℕ

pub data Msg : Type 0 where
  frame_msg : Option Frame → Msg
  tick_msg focus_msg blur_msg : Msg
  window_size_msg : ℕ → ℕ → Msg
  key_msg : Key → Msg

-- What an update asks for: commands of bubbletea, and programs that it starts.
pub data Effect : Type 0 where
  wait_frame schedule_tick quits : Effect
  execs : List (List ℕ) → Effect

-- `home` is what `os.UserHomeDir` gives, or nothing where it fails.
pub record Model : Type 0 where
  pub agents : List AgentSnapshot
  pub selected : ℕ
  pub connected : Bool
  pub tmux_pane : Bytes
  pub session_dir : Bytes
  pub home : Option Bytes
  pub width : ℕ
  pub height : ℕ
  pub palette : Palette
  pub dark : Bool
  pub tick : ℕ
  pub expanded : Bool
  pub input_mode : Bool
  pub input_buf : List ℕ
  pub theme_picker : Bool
  pub theme_idx : ℕ
  pub theme_prev_idx : ℕ
  pub focused : Bool

unfoldable pub tilde_shorten : Option Bytes → Bytes → Bytes
tilde_shorten none p = p
tilde_shorten (some home) p =
    if is_empty p || is_empty home
    then p
    else if equal p home
    then codes "~"
    else if has_prefix (home ++ codes "/") p
    then codes "~" ++ drop (length home) p
    else p

unfoldable pub new_model : Option Bytes → Bytes → Bytes → Model
unfolding tilde_shorten
new_model home tmux_pane session_dir = record {
  agents = [];
  selected = 0;
  connected = false;
  tmux_pane = tmux_pane;
  session_dir = tilde_shorten home session_dir;
  home = home;
  width = 40;
  height = 0;
  palette = default_palette;
  dark = true;
  tick = 0;
  expanded = false;
  input_mode = false;
  input_buf = [];
  theme_picker = false;
  theme_idx = 0;
  theme_prev_idx = 0;
  focused = true;
}

unfoldable pub clamp_selection : Model → Model
clamp_selection m = record m {
  selected = if leb (length m.agents) m.selected then length m.agents - 1 else m.selected;
}

abbrev pub shown_dir : Model → Bytes → Bytes
shown_dir m dir = if is_empty dir then m.session_dir else tilde_shorten m.home dir

unfoldable pub apply_roster : Sock.Roster → Model → Model
unfolding clamp_selection
apply_roster r m =
    let listed = clamp_selection (record m { agents = sort_agents r.agents }) in
    record listed { connected = true; session_dir = shown_dir m r.launch_dir }

unfoldable pub apply_update : AgentUpdate → Model → Model
unfolding clamp_selection
apply_update upd m = clamp_selection (record m {
  agents =
      if upd.deleted then remove_agent upd.agent.id m.agents else upsert_agent upd.agent m.agents;
})

-- `case f.Update` and the cases below it.
unfoldable pub apply_rest : Option AgentUpdate → Bool → Model → Model
unfolding apply_update
apply_rest none connect m = record m { connected = connect }
apply_rest (some upd) connect m = apply_update upd m

unfoldable pub apply_parts : Option Sock.Roster → Option AgentUpdate → Bool → Model → Model
unfolding apply_roster apply_rest
apply_parts none upd connect m = apply_rest upd connect m
apply_parts (some r) upd connect m = apply_roster r m

unfoldable pub apply_frame : Frame → Model → Model
unfolding apply_parts
apply_frame f m = apply_parts f.roster f.update f.connect m

-- The pane of the selected agent, if there is one.
abbrev pub pane_of : Option AgentSnapshot → Bytes
pane_of none = []
pane_of (some a) = a.pane

abbrev pub selected_pane : Model → Bytes
selected_pane m = pane_of (get_elem? m.agents m.selected)

abbrev pub on_pane : Bytes → List Bytes → List Effect
on_pane pane argv = if is_empty pane then [] else execs (argv ++ (pane ∷ [])) ∷ []

abbrev pub tmux_to : Bytes → List Bytes
tmux_to command = codes "tmux" ∷ command ∷ codes "-t" ∷ []

abbrev pub but_last : List ℕ → List ℕ
but_last [] = []
but_last (c ∷ []) = []
but_last (c ∷ d ∷ s) = c ∷ but_last (d ∷ s)

abbrev pub leave_input : Model → Model
leave_input m = record m { input_mode = false; input_buf = [] }

-- The role that Enter spawns.
abbrev pub typed_role : Model → Bytes
typed_role m = let role = trim_space m.input_buf in if is_empty role then codes "default" else role

unfoldable pub input_key : KeyType → Key → Model → Model × List Effect
input_key key_enter k m =
    (leave_input m, execs (codes "mure" ∷ codes "spawn" ∷ typed_role m ∷ []) ∷ [])
input_key key_esc k m = (leave_input m, [])
input_key key_ctrl_c k m = (leave_input m, [])
input_key key_backspace k m = (record m { input_buf = but_last m.input_buf }, [])
input_key key_delete k m = (record m { input_buf = but_last m.input_buf }, [])
input_key key_runes k m = (record m { input_buf = m.input_buf ++ k.runes }, [])
input_key key_space k m = (record m { input_buf = m.input_buf ++ k.runes }, [])
input_key key_other k m = (m, [])

abbrev pub is_key : Bytes → Bytes → Bytes → Bool
is_key name a b = equal name a || equal name b

-- The cases of `handleKey`.
pub data Command : Type 0 where
  moves_down moves_up focuses creates toggles_info kills picks_theme leaves ignores : Command

unfoldable pub command_of : Bytes → Command
command_of name =
    if is_key name (codes "j") (codes "down")
    then moves_down
    else if is_key name (codes "k") (codes "up")
    then moves_up
    else if equal name (codes "enter")
    then focuses
    else if is_key name (codes "c") (codes "C")
    then creates
    else if is_key name (codes "i") (codes "I")
    then toggles_info
    else if is_key name (codes "x") (codes "X")
    then kills
    else if is_key name (codes "t") (codes "T")
    then picks_theme
    else if equal name (codes "q")
    then leaves
    else ignores

unfoldable pub obey : Command → Model → Model × List Effect
obey moves_down m = (
  if ltb (m.selected + 1) (length m.agents) then record m { selected = m.selected + 1 } else m,
  [],
)
obey moves_up m = (if ltb 0 m.selected then record m { selected = m.selected - 1 } else m, [])
obey focuses m = (m, on_pane (selected_pane m) (tmux_to (codes "switch-client")))
obey creates m = (record m { input_mode = true; input_buf = [] }, [])
obey toggles_info m = (record m { expanded = not m.expanded }, [])
obey kills m = (m, on_pane (selected_pane m) (tmux_to (codes "kill-pane")))
obey picks_theme m = (record m { theme_picker = true; theme_prev_idx = m.theme_idx }, [])
obey leaves m = (m, on_pane m.tmux_pane (tmux_to (codes "kill-pane")) ++ (quits ∷ []))
obey ignores m = (m, [])

unfoldable pub handle_key : Bytes → Model → Model × List Effect
unfolding command_of obey
handle_key name m = obey (command_of name) m

-- `Themes[i].Palette`; `old` where `i` is out of range, which is a panic in Go.
abbrev pub palette_or : Palette → Option NamedTheme → Palette
palette_or old none = old
palette_or old (some t) = t.palette

abbrev pub with_theme : ℕ → Model → Model
with_theme i m = record m { theme_idx = i; palette = palette_or m.palette (get_elem? themes i) }

-- The cases of `handleThemeKey`.
pub data ThemeCommand : Type 0 where
  next_theme previous_theme accepts_theme restores_theme no_theme : ThemeCommand

unfoldable pub theme_command_of : Bytes → ThemeCommand
theme_command_of name =
    if is_key name (codes "j") (codes "down")
    then next_theme
    else if is_key name (codes "k") (codes "up")
    then previous_theme
    else if equal name (codes "enter")
    then accepts_theme
    else if is_key name (codes "esc") (codes "q")
    then restores_theme
    else no_theme

unfoldable pub obey_theme : ThemeCommand → Model → Model
obey_theme next_theme m =
    if ltb (m.theme_idx + 1) (length themes) then with_theme (m.theme_idx + 1) m else m
obey_theme previous_theme m = if ltb 0 m.theme_idx then with_theme (m.theme_idx - 1) m else m
obey_theme accepts_theme m = record m { theme_picker = false }
obey_theme restores_theme m = record (with_theme m.theme_prev_idx m) { theme_picker = false }
obey_theme no_theme m = m

unfoldable pub handle_theme_key : Bytes → Model → Model × List Effect
unfolding theme_command_of obey_theme
handle_theme_key name m = (obey_theme (theme_command_of name) m, [])

unfoldable pub on_key : Key → Model → Model × List Effect
unfolding handle_key handle_theme_key input_key
on_key k m =
    if m.theme_picker
    then handle_theme_key k.name m
    else if m.input_mode
    then input_key k.type_of k m
    else handle_key k.name m

unfoldable pub update : Msg → Model → Model × List Effect
unfolding apply_frame on_key
update (frame_msg none) m = (m, quits ∷ [])
update (frame_msg (some f)) m =
    let m' = apply_frame f m in
    (
      m',
      if not (any_working m.agents) && any_working m'.agents
          then wait_frame ∷ schedule_tick ∷ []
          else wait_frame ∷ [],
    )
update tick_msg m = (
  record m { tick = (m.tick + 1) % 2 ^ 64 },
  if any_working m.agents then schedule_tick ∷ [] else [],
)
update (window_size_msg w h) m = (record m { width = w; height = h }, [])
update focus_msg m = (record m { focused = true }, [])
update blur_msg m = (record m { focused = false }, [])
update (key_msg k) m = on_key k m
