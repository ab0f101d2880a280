-- ===== src/Cmd/Target.antt =====
-- cmd/mure/spawn_target.go: where a new pane goes. `run` is the tmux runner: what tmux prints for a
-- command, or nothing where the call fails. `pane` is the variable `TMUX_PANE`.
pub mod Windows
use mure.Base.{
  ℕ, Bool, true, false, not, ◌||◌, List, [], ◌∷◌, ◌++◌, Option, none, some, Bytes, codes, equal,
  is_empty, ◌==◌, if◌then◌else◌,
}
use mure.Base.Strings.{split, is_space, on_first}

-- `strings.Fields`.
unfoldable pub pieces : Bytes → List Bytes
pieces [] = [] ∷ []
pieces (c ∷ s) = let ps = pieces s in if is_space c then [] ∷ ps else on_first c ps

unfoldable pub non_empty : List Bytes → List Bytes
non_empty [] = []
non_empty (p ∷ ps) = let rest = non_empty ps in if is_empty p then rest else p ∷ rest

unfoldable pub fields : Bytes → List Bytes
unfolding pieces non_empty
fields s = non_empty (pieces s)

abbrev pub Runner : Type 0
Runner = List Bytes → Option Bytes

pub record Row : Type 0 where
  pub id : Bytes
  pub name : Bytes
  pub marker : Bytes

-- The switch over the number of fields.
abbrev pub row_of : List Bytes → List Row → List Row
row_of (id ∷ name ∷ []) rows = record { id = id; name = name; marker = [] } ∷ rows
row_of (id ∷ name ∷ marker ∷ []) rows = record { id = id; name = name; marker = marker } ∷ rows
row_of _ rows = rows

unfoldable pub rows_of : List Bytes → List Row
unfolding fields
rows_of [] = []
rows_of (line ∷ lines) = row_of (fields line) (rows_of lines)

unfoldable pub find_marked : List Row → Option Bytes
find_marked [] = none
find_marked (r ∷ rows) = if equal r.marker (codes "1") then some r.id else find_marked rows

unfoldable pub find_named : List Row → Option Bytes
find_named [] = none
find_named (r ∷ rows) = if equal r.name (codes "subagents") then some r.id else find_named rows

abbrev pub or_else : Option Bytes → Option Bytes → Option Bytes
or_else none o = o
or_else (some id) o = some id

-- The two loops over the rows of what tmux prints.
unfoldable pub find_window : Bytes → Option Bytes
unfolding rows_of find_marked find_named
find_window out =
    let rows = rows_of (split b'\n' out) in or_else (find_marked rows) (find_named rows)

abbrev pub list_windows : Bytes → List Bytes
list_windows session_id =
    codes "list-windows"
    ∷ codes "-t"
    ∷ session_id
    ∷ codes "-F"
    ∷ codes "#{window_id} #{window_name} #{@mure-subagents-window}"
    ∷ []

unfoldable pub resolve_session_id : Runner → Bytes → Option Bytes
resolve_session_id run pane =
    if is_empty pane
    then run (codes "display-message" ∷ codes "-p" ∷ codes "#{session_id}" ∷ [])
    else run (codes "display-message" ∷ codes "-p" ∷ codes "-t" ∷ pane ∷ codes "#{session_id}" ∷ [])

-- What `PostCreate` does: nothing, lays out the window, or marks the new window.
pub data PostCreate : Type 0 where
  nothing marks_window : PostCreate
  lays_out : Bytes → PostCreate

pub record SpawnTargetPlan : Type 0 where
  pub argv : List Bytes
  pub post_create : PostCreate

abbrev pub print_pane : Bytes → List Bytes
print_pane payload = codes "-P" ∷ codes "-F" ∷ codes "#{pane_id}" ∷ payload ∷ []

-- On the window that was found, if one was.
abbrev pub plan_for : Bytes → Bytes → Option Bytes → SpawnTargetPlan
plan_for session_id payload (some window_id) = record {
  argv = codes "split-window" ∷ codes "-h" ∷ codes "-t" ∷ window_id ∷ print_pane payload;
  post_create = lays_out window_id;
}
plan_for session_id payload none = record {
  argv =
      codes "new-window"
      ∷ codes "-d"
      ∷ codes "-t"
      ∷ session_id
      ∷ codes "-n"
      ∷ codes "subagents"
      ∷ print_pane payload;
  post_create = marks_window;
}

abbrev pub plan_listed : Bytes → Bytes → Option Bytes → Option SpawnTargetPlan
plan_listed session_id payload none = none
plan_listed session_id payload (some out) = some (plan_for session_id payload (find_window out))

abbrev pub plan_in : Runner → Bytes → Option Bytes → Option SpawnTargetPlan
plan_in run payload none = none
plan_in run payload (some session_id) =
    plan_listed session_id payload (run (list_windows session_id))

unfoldable pub plan_subagents_window : Runner → Bytes → Bytes → Option SpawnTargetPlan
plan_subagents_window run pane payload = plan_in run payload (resolve_session_id run pane)

abbrev pub plan_command : Runner → Bytes → Bytes → List Bytes → Option SpawnTargetPlan
plan_command run pane payload [] = plan_subagents_window run pane payload
plan_command run pane payload (w ∷ ws) =
    some (record { argv = (w ∷ ws) ++ print_pane payload; post_create = nothing })

unfoldable pub pick_spawn_target : Runner → Bytes → Bytes → Bytes → Option SpawnTargetPlan
pick_spawn_target run pane target payload =
    if is_empty target || equal target (codes "subagents-window")
    then plan_subagents_window run pane payload
    else plan_command run pane payload (fields target)
