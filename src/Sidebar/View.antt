-- ===== src/Sidebar/View.antt =====
-- internal/sidebar/model.go: `View` and the lines that it puts together, as their visible runes:
-- colours are not modelled, and of lipgloss only that `Render` leaves the runes of a text that has no
-- tab and no line end. The agents' texts are taken as ASCII, where a byte is a rune. `none` is a
-- slice out of bounds, where Go panics.
pub mod Panel
pub mod Lines
pub mod Fills
pub mod Fits
pub mod Width
pub mod Panic
use mure.Base.{
  ℕ, zero, suc, ◌+◌, ◌-◌, ◌/◌, ◌%◌, Bool, true, false, not, ◌&&◌, ◌||◌, ◌==◌, List, [], ◌∷◌, ◌++◌,
  map, Option, none, some, Bytes, codes, equal, is_empty, ltb, if◌then◌else◌, length, take,
  get_elem?,
}
use mure.Sock.{AgentSnapshot, status_working}
use mure.Sidebar.Themes.{NamedTheme, themes}
use mure.Sidebar.Model.{Model}
use mure.Sidebar.Rows.{Glyph, working, blocked, just_finished, idle, unknown, glyph, elapsed}
use mure.Sidebar.Layout.{replicate}

abbrev pub spaces : ℕ → Bytes
spaces n = replicate n b' '

-- The three functions `pad`, and `%-10s`: spaces behind a text that is shorter than `n`.
abbrev pub pad : ℕ → Bytes → Bytes
pad n s = s ++ spaces (n - length s)

-- `center` and `padLine`.
abbrev pub center : ℕ → Bytes → Bytes
center n s = let left = (n - length s) / 2 in spaces left ++ (s ++ spaces (n - length s - left))

-- `runeTrunc` to `n - k` runes.
unfoldable pub rune_trunc : Bytes → ℕ → ℕ → Option Bytes
rune_trunc s n k = if ltb n k then none else some (take (n - k) s)

-- `%d` of a number of at most 20 digits.
abbrev pub digits : ℕ → ℕ → Bytes
digits zero n = []
digits (suc fuel) n =
    let rest = digits fuel (n / 10) in (if ltb n 10 then [] else rest) ++ ((b'0' + n % 10) ∷ [])

unfoldable pub decimal : ℕ → Bytes
decimal n = digits 20 n

-- `%02d` of a number below 100.
abbrev pub two_digits : ℕ → Bytes
two_digits n = (b'0' + n / 10) ∷ (b'0' + n % 10) ∷ []

abbrev pub or_dash : Bytes → Bytes
or_dash s = if is_empty s then codes "—" else s

abbrev pub spinner_frames : Bytes
spinner_frames = codes "⠋⠙⠹⠸⠼⠴⠦⠧⠇⠏"

abbrev pub glyph_rune : Glyph → ℕ
glyph_rune working = 9679
glyph_rune blocked = 9680
glyph_rune just_finished = 10003
glyph_rune idle = 9675
glyph_rune unknown = b'?'

abbrev pub or_rune : ℕ → Option ℕ → ℕ
or_rune d none = d
or_rune d (some c) = c

unfoldable pub row_glyph : Model → AgentSnapshot → ℕ → ℕ
unfolding glyph
row_glyph m a now =
    if equal a.status status_working
    then or_rune b'?' (get_elem? spinner_frames (m.tick % 10))
    else glyph_rune (glyph a.status a.last_turn_ended_at now)

abbrev pub row_name : AgentSnapshot → Bytes
row_name a = if is_empty a.role then a.id else a.role

unfoldable pub tall_age : Option (ℕ × ℕ) → Bytes
unfolding decimal
tall_age none = codes "—"
tall_age (some (m, s)) = decimal m ++ (codes "m " ++ (two_digits s ++ codes "s"))

unfoldable pub short_age : Option (ℕ × ℕ) → Bytes
unfolding decimal
short_age none = codes "—"
short_age (some (m, s)) = decimal m ++ (codes ":" ++ two_digits s)

-- The card's lines from the name, the task and the rest, cut to the room that they have.
abbrev pub card : ℕ → ℕ → ℕ → Option Bytes → Option Bytes → Option Bytes → Option (List Bytes)
card inner bar g (some name) (some task) (some meta) = some (
    pad inner (bar ∷ b' ' ∷ g ∷ b' ' ∷ name)
    ∷ pad inner (bar ∷ b' ' ∷ b' ' ∷ task)
    ∷ pad inner (bar ∷ b' ' ∷ b' ' ∷ meta)
    ∷ [])
card inner bar g _ _ _ = none

unfoldable pub row_meta : AgentSnapshot → ℕ → Bytes
unfolding elapsed tall_age
row_meta a now =
    let meta = a.status ++ (codes " · " ++ tall_age (elapsed a.last_turn_ended_at now)) in
    if is_empty a.pane then meta else meta ++ (codes " · " ++ a.pane)

unfoldable pub render_agent_row_tall : Model → AgentSnapshot → Bool → ℕ → ℕ → Option (List Bytes)
unfolding rune_trunc row_meta row_glyph
render_agent_row_tall m a selected now inner =
    card inner (if selected then 9612 else b' ') (row_glyph m a now)
      (rune_trunc (row_name a) inner 4) (rune_trunc (or_dash a.task) inner 3)
      (rune_trunc (row_meta a now) inner 3)

-- The text of `renderAgentRow` in front of the padding.
unfoldable pub short_text : Model → AgentSnapshot → Bool → ℕ → Bytes
unfolding elapsed short_age row_glyph
short_text m a selected now =
    (if selected then 9656 else b' ')
    ∷ b' '
    ∷ row_glyph m a now
    ∷ b' '
    ∷ (pad 10 (row_name a)
        ++ (b' ' ∷ (pad 8 a.status ++ (b' ' ∷ short_age (elapsed a.last_turn_ended_at now)))))

-- Only the selected row is cut.
unfoldable pub render_agent_row : Model → AgentSnapshot → Bool → ℕ → ℕ → Bytes
unfolding short_text
render_agent_row m a selected now inner =
    let text = short_text m a selected now in
    if selected && ltb inner (length text) then take inner text else pad inner text

abbrev pub last_seen : Option (ℕ × ℕ) → Bytes
last_seen none = codes "—"
last_seen (some age) = tall_age (some age) ++ codes " ago"

abbrev pub detail_fields : AgentSnapshot → ℕ → List (Bytes × Bytes)
detail_fields a now =
    (codes "id", a.id)
    ∷ (codes "role", a.role)
    ∷ (codes "status", a.status)
    ∷ (codes "task", a.task)
    ∷ (codes "pane", a.pane)
    ∷ (codes "last", last_seen (elapsed a.last_turn_ended_at now))
    ∷ []

abbrev pub in_front : Option Bytes → Option (List Bytes) → Option (List Bytes)
in_front (some line) (some lines) = some (line ∷ lines)
in_front _ _ = none

abbrev pub detail_line : ℕ → Bytes → Option Bytes → Option Bytes
detail_line inner key none = none
detail_line inner key (some v) = some (pad inner (codes "   " ++ (pad 7 key ++ v)))

-- The lines of `renderAgentDetail`, as `View` pads them.
unfoldable pub detail_lines : ℕ → List (Bytes × Bytes) → Option (List Bytes)
unfolding rune_trunc
detail_lines inner [] = some []
detail_lines inner ((key, v) ∷ rows) =
    in_front (detail_line inner key (rune_trunc (or_dash v) inner 10)) (detail_lines inner rows)

unfoldable pub render_agent_detail : ℕ → ℕ → Option AgentSnapshot → Option (List Bytes)
unfolding detail_lines elapsed tall_age
render_agent_detail now inner none = some []
render_agent_detail now inner (some a) = detail_lines inner (detail_fields a now)

abbrev pub hints : List (Bytes × Bytes)
hints =
    (codes "j/k ↑↓", codes "select")
    ∷ (codes "⏎", codes "focus")
    ∷ (codes "c", codes "new")
    ∷ (codes "i", codes "info")
    ∷ (codes "x", codes "kill")
    ∷ (codes "t", codes "theme")
    ∷ (codes "q", codes "quit")
    ∷ []

-- The loop of `buildFooter`, with the line that it fills.
unfoldable pub fill_hints : ℕ → Bytes → List (Bytes × Bytes) → List Bytes
fill_hints inner cur [] = if is_empty cur then [] else center inner cur ∷ []
fill_hints inner cur ((key, label) ∷ pairs) =
    let seg = key ++ (b' ' ∷ label) in
    let wraps = not (is_empty cur) && ltb inner (length cur + 2 + length seg) in
    let rest =
      fill_hints inner (if wraps || is_empty cur then seg else cur ++ (b' ' ∷ b' ' ∷ seg)) pairs in
    if wraps then center inner cur ∷ rest else rest

unfoldable pub build_footer : ℕ → List Bytes
unfolding fill_hints
build_footer inner = fill_hints inner [] hints

unfoldable pub build_input_line : Model → ℕ → List Bytes
build_input_line m inner =
    pad inner (codes "spawn: " ++ (m.input_buf ++ codes "█  ⏎ ok  esc cancel")) ∷ []

-- The rows of the themes from the one at `i` on.
unfoldable pub theme_rows : ℕ → ℕ → ℕ → List NamedTheme → List Bytes
theme_rows inner idx i [] = []
theme_rows inner idx i (th ∷ ths) =
    pad inner ((if i == idx then 9656 else b' ') ∷ b' ' ∷ th.name)
    ∷ theme_rows inner idx (suc i) ths

unfoldable pub render_theme_picker : Model → ℕ → List Bytes
unfolding theme_rows
render_theme_picker m inner =
    pad inner (codes " theme")
    ∷ (theme_rows inner m.theme_idx 0 themes ++ (pad inner (codes " ⏎ ok  esc cancel") ∷ []))
