-- ===== src/Tests/View.antt =====
-- Panes of 40, of 9 and of 3 columns, with one agent.
use mure.Base.{
  ◌≡◌, refl, inl, true, List, [], ◌∷◌, Option, none, some, Bytes, codes, arith, All, length,
}
use mure.Base.Int.{pos}
use mure.Sock.{AgentSnapshot}
use mure.Sidebar.Model.{Model, new_model}
use mure.Sidebar.View.Panel.{count_line, disconnected_line, bottom, tall_rows, view}
use mure.Sidebar.View.Fits.{Fits}
use mure.Sidebar.View.Panic.{is_none, view-none}
use mure.Sidebar.View.Fills.{view-Fills}
use mure.Sidebar.View.Width.{view-Fits}

abbrev scout : AgentSnapshot
scout = record {
  id = codes "a";
  status = codes "idle";
  role = codes "scout";
  task = [];
  pane = codes "%1";
  created_at = pos 1;
  last_turn_ended_at = pos 5;
  result = [];
}

abbrev wide : Model
wide = record (new_model none [] []) { agents = scout ∷ []; width = 40; height = 20 }

abbrev lines_of : Option (List Bytes) → List Bytes
lines_of none = []
lines_of (some lines) = lines

view-Fits_example :
    (lines : List Bytes) × (view wide 70000000000 ≡ some lines) × All (Fits 40) lines
unfolding new_model view tall_rows count_line disconnected_line bottom
view-Fits_example =
    view-Fits wide 70000000000 (lines_of (tall_rows wide 70000000000 0 (scout ∷ []))) (omega arith)
      refl refl refl (inl refl)

view-none_example : is_none (view (record wide { width = 3 }) 0) ≡ true
unfolding new_model
view-none_example = view-none (record wide { width = 3 }) 0

-- The details of the agent are shown in a pane that has no room for the cards.
abbrev low : Model
low = record wide { height = 9; expanded = true }

view-Fills_example : length (lines_of (view low 0)) ≡ 9
unfolding view new_model
view-Fills_example = view-Fills low 0 (lines_of (view low 0)) (omega arith) refl
