-- ===== src/Daemon/Bridge/Reconcile.antt =====
-- What a tick of the bridge leaves of the registry, and how it reads the reply of tmux.
use mure.Base.{
  ◌≡◌, ◌≢◌, ◌⊎◌, refl, ap, ◌∙◌, false, List, [], ◌∷◌, ◌++◌, map, Option, none, some, Bytes,
  is_empty, if◌then◌else◌, All,
}
use mure.Base.Strings.{
  join, trim_space, trim_prefix, trim_prefix-append, trim_space-IsSolid, split-join, IsSolid, Lacks,
  IsSolid-Lacks,
}
use mure.Daemon.Roster.{AgentState, snapshot}
use mure.Daemon.Bridge.{is_pruned, live_ids, line_ids, line_id, id_prefix}

-- The entry of an agent that tmux may have lost.
abbrev pub keep : List Bytes → Option AgentState → Option AgentState
keep live none = none
keep live (some a) = if is_pruned live (snapshot a) then none else some a

abbrev pub IsListed : Bytes → List Bytes → Type 0
IsListed id [] = ⊥
IsListed id (j ∷ js) = (j ≡ id) ⊎ IsListed id js

-- What a tick does with an agent: it goes, having a pane that is not listed, or it stays.
abbrev pub IsPrunedBy : List Bytes → AgentState → Option AgentState → Type 0
IsPrunedBy live a o =
    ((o ≡ none) × (a.pane_id ≢ []) × (¬ IsListed a.pane_id live))
    ⊎ ((o ≡ some a) × ((a.pane_id ≡ []) ⊎ IsListed a.pane_id live))

-- A pane ID as tmux prints it.
pub record IsPaneId (id : Bytes) : Type 0 where
  pub solid : IsSolid id
  pub present : is_empty id ≡ false

-- The line that `#{pane_id}` with the prefix in front expands to.
abbrev pub pane_line : Bytes → Bytes
pane_line id = id_prefix ++ id

line_id-pane_line : (id : Bytes) → IsSolid id → line_id (pane_line id) ≡ id
unfolding line_id
line_id-pane_line id s =
    ap (λ x. trim_space (trim_prefix id_prefix x))
      (trim_space-IsSolid (pane_line id) (refl, (refl, s)))
    ∙ ap trim_space (trim_prefix-append id_prefix id)
    ∙ trim_space-IsSolid id s

lines-Lacks : (ids : List Bytes) → All IsPaneId ids → All (Lacks b'\n') (map pane_line ids)
lines-Lacks [] h = tt
lines-Lacks (id ∷ ids) h = ((refl, (refl, IsSolid-Lacks id h.0.solid)), lines-Lacks ids h.1)

line_ids-lines : (ids : List Bytes) → All IsPaneId ids → line_ids (map pane_line ids) ≡ ids
unfolding line_ids
line_ids-lines [] h = refl
line_ids-lines (id ∷ ids) h =
    rw (line_id-pane_line id h.0.solid, h.0.present, line_ids-lines ids h.1)

-- The bridge reads back the IDs that tmux lists, in order.
pub live_ids-join :
    (id : Bytes) (ids : List Bytes)
    → All IsPaneId (id ∷ ids)
    → live_ids (join (b'\n' ∷ []) (map pane_line (id ∷ ids))) ≡ id ∷ ids
unfolding live_ids
live_ids-join id ids h =
    ap line_ids (split-join b'\n' (pane_line id) (map pane_line ids) (lines-Lacks (id ∷ ids) h))
    ∙ line_ids-lines (id ∷ ids) h
