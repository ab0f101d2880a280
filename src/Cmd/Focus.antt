-- ===== src/Cmd/Focus.antt =====
-- cmd/mure/focus.go: the pane that `mure focus` selects. tmux is what its runs print, or nothing
-- where they fail.
pub mod Marks
use mure.Base.{
  ℕ, Bool, true, false, not, List, [], ◌∷◌, Option, none, some, Bytes, codes, equal, is_empty,
  if◌then◌else◌,
}
use mure.Base.Strings.{has_prefix, split, split_n}
use mure.Cmd.Up.{System, Process, tmux_cmd}

-- The exit code, and the pane that was selected.
pub record Focus : Type 0 where
  pub code : ℕ
  pub pane : Option Bytes

abbrev pub fails_with : ℕ → Focus
fails_with n = record { code = n; pane = none }

abbrev pub list_panes : List Bytes
list_panes =
    codes "list-panes" ∷ codes "-a" ∷ codes "-F" ∷ codes "#{pane_id} #{@mure-agent-id}" ∷ []

-- The pane that a line names, if it is for the agent.
abbrev pub marked_pane : Bytes → List Bytes → Option Bytes
marked_pane agent (pane ∷ mark ∷ []) = if equal mark agent then some pane else none
marked_pane agent _ = none

abbrev pub or_next : Option Bytes → Option Bytes → Option Bytes
or_next none rest = rest
or_next (some pane) rest = some pane

-- The loop over the lines.
unfoldable pub pane_in : Bytes → List Bytes → Option Bytes
pane_in agent [] = none
pane_in agent (line ∷ lines) =
    or_next (marked_pane agent (split_n b' ' 2 line)) (pane_in agent lines)

-- `none` where `list-panes` fails; no pane or an empty one is an agent that is not found.
unfoldable pub pane_of_agent : Bytes → Option Bytes → Option Bytes
unfolding pane_in
pane_of_agent agent none = none
pane_of_agent agent (some out) = pane_in agent (split b'\n' out)

abbrev pub selects : System → Process → Bytes → Option Bytes → Focus
selects sys p pane none = fails_with 1
selects sys p pane (some _) = record { code = 0; pane = some pane }

abbrev pub select_pane : System → Process → Option Bytes → Focus
select_pane sys p none = fails_with 1
select_pane sys p (some pane) =
    if is_empty pane
    then fails_with 1
    else selects sys p pane (tmux_cmd sys p (codes "select-pane" ∷ codes "-t" ∷ pane ∷ []))

unfoldable pub cmd_focus : System → Process → List Bytes → Focus
unfolding pane_of_agent
cmd_focus sys p (agent ∷ []) =
    if has_prefix (codes "%") agent
    then select_pane sys p (some agent)
    else select_pane sys p (pane_of_agent agent (tmux_cmd sys p list_panes))
cmd_focus sys p _ = fails_with 2
