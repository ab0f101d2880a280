-- ===== src/Sidebar/Model/Invariant.antt =====
-- What every message keeps of the model, and what it makes of the daemon's frames.
use mathlib.Core.Path.{fun_ext}
use mure.Base.{
  ℕ, ◌+◌, ◌-◌, ◌≤◌, ◌<◌, ◌≡◌, refl, Bool, List, Option, none, some, equal, if◌then◌else◌, if_ind,
  arith, length, get_elem?, ltb,
}
use mure.Sock.{AgentSnapshot, AgentUpdate}
use mure.Sock
use mure.Daemon.Roster.Replica.{fold_update}
use mure.Sidebar.Themes.{NamedTheme, Palette, themes}
use mure.Sidebar.Agents.{sort_agents, remove_agent, upsert_agent}
use mure.Sidebar.Agents.Find.{
  find_agent, HasUniqueIds, HasUniqueIds-sort, HasUniqueIds-remove, HasUniqueIds-upsert, find-sort,
  find-remove, find-upsert,
}
use mure.Sidebar.Model.{
  Key, KeyType, Msg, frame_msg, tick_msg, focus_msg, blur_msg, window_size_msg, key_msg, Effect,
  Model, clamp_selection, apply_roster, apply_update, apply_rest, apply_parts, apply_frame,
  input_key, handle_key, handle_theme_key, on_key, Command, moves_down, moves_up, picks_theme,
  command_of, obey, ThemeCommand, next_theme, previous_theme, restores_theme, theme_command_of,
  obey_theme, update, with_theme, palette_or, key_enter,
}

-- IDs are unique, the selection is an agent of the list (or 0), and the palette is that of the
-- theme picked, with both theme indices in range.
pub record Valid (agents : List AgentSnapshot) (selected theme_idx theme_prev_idx : ℕ)
    (palette : Palette) : Type 0 where
  pub unique : HasUniqueIds agents
  pub within : selected ≤ length agents - 1
  pub theme_within : theme_idx < length themes
  pub prev_within : theme_prev_idx < length themes
  pub shown : palette_or palette (get_elem? themes theme_idx) ≡ palette

abbrev pub Inv : Model → Type 0
Inv m = Valid m.agents m.selected m.theme_idx m.theme_prev_idx m.palette

-- A snapshot of the daemon has each ID once.
abbrev pub IsValidMsg : Msg → Type 0
IsValidMsg (frame_msg (some f)) = (r : Sock.Roster) → f.roster ≡ some r → HasUniqueIds r.agents
IsValidMsg _ = Unit {0}

palette_or_idem :
    (p : Palette) (o : Option NamedTheme) → palette_or (palette_or p o) o ≡ palette_or p o
palette_or_idem p none = refl
palette_or_idem p (some t) = refl

with_theme-Inv : (i : ℕ) (m : Model) → i < length themes → Inv m → Inv (with_theme i m)
with_theme-Inv i m h v = record {
  unique = v.unique;
  within = v.within;
  theme_within = h;
  prev_within = v.prev_within;
  shown = palette_or_idem m.palette (get_elem? themes i);
}

select-Inv : (i : ℕ) (m : Model) → i ≤ length m.agents - 1 → Inv m → Inv (record m { selected = i })
select-Inv i m h v = record {
  unique = v.unique;
  within = h;
  theme_within = v.theme_within;
  prev_within = v.prev_within;
  shown = v.shown;
}

-- What a handler returns has a model that keeps the invariant.
abbrev InvAfter : Model × List Effect → Type 0
InvAfter r = Inv r.0

obey-Inv : (c : Command) (m : Model) → Inv m → InvAfter (obey c m)
unfolding obey
obey-Inv moves_down m v =
    if_ind Inv (ltb (m.selected + 1) (length m.agents)) _ m
      (λ h. select-Inv (m.selected + 1) m (ground arith) v) (λ _. v)
obey-Inv moves_up m v =
    if_ind Inv (ltb 0 m.selected) _ m
      (λ h. select-Inv (m.selected - 1) m (omega (arith, v.within)) v) (λ _. v)
obey-Inv picks_theme m v = record {
  unique = v.unique;
  within = v.within;
  theme_within = v.theme_within;
  prev_within = v.theme_within;
  shown = v.shown;
}
obey-Inv _ m v = v

obey_theme-Inv : (c : ThemeCommand) (m : Model) → Inv m → Inv (obey_theme c m)
unfolding obey_theme
obey_theme-Inv next_theme m v =
    if_ind Inv (ltb (m.theme_idx + 1) (length themes)) _ m
      (λ h. with_theme-Inv (m.theme_idx + 1) m (ground arith) v) (λ _. v)
obey_theme-Inv previous_theme m v =
    if_ind Inv (ltb 0 m.theme_idx) _ m
      (λ h. with_theme-Inv (m.theme_idx - 1) m (omega (arith, v.theme_within)) v) (λ _. v)
obey_theme-Inv restores_theme m v = with_theme-Inv m.theme_prev_idx m v.prev_within v
obey_theme-Inv _ m v = v

input_key-Inv : (t : KeyType) (k : Key) (m : Model) → Inv m → InvAfter (input_key t k m)
unfolding input_key
input_key-Inv key_enter k m v = v
input_key-Inv _ k m v = v

clamp_selection-Inv :
    (m : Model)
    → HasUniqueIds m.agents
    → m.theme_idx < length themes
    → m.theme_prev_idx < length themes
    → palette_or m.palette (get_elem? themes m.theme_idx) ≡ m.palette
    → Inv (clamp_selection m)
unfolding clamp_selection
clamp_selection-Inv m u t p s = record {
  unique = u;
  within = ground arith;
  theme_within = t;
  prev_within = p;
  shown = s;
}

apply_parts-Inv :
    (r : Option Sock.Roster) (u : Option AgentUpdate) (connect : Bool) (m : Model)
    → ((r' : Sock.Roster) → r ≡ some r' → HasUniqueIds r'.agents)
    → Inv m
    → Inv (apply_parts r u connect m)
unfolding apply_parts apply_roster apply_rest apply_update
apply_parts-Inv (some r) u connect m h v =
    clamp_selection-Inv (record m { agents = sort_agents r.agents })
      (HasUniqueIds-sort r.agents (h r refl)) v.theme_within v.prev_within v.shown
apply_parts-Inv none none connect m h v = v
apply_parts-Inv none (some upd) connect m h v =
    clamp_selection-Inv
      (record m {
        agents =
            if upd.deleted
            then remove_agent upd.agent.id m.agents
            else upsert_agent upd.agent m.agents;
      })
      (if_ind HasUniqueIds upd.deleted _ _ (λ _. HasUniqueIds-remove upd.agent.id m.agents v.unique)
        (λ _. HasUniqueIds-upsert upd.agent m.agents v.unique))
      v.theme_within v.prev_within v.shown

-- Every message keeps the invariant: the selection never leaves the list, the theme indices never
-- leave the catalog, and the palette stays that of the theme picked, also after Esc.
pub update-Inv : (msg : Msg) (m : Model) → IsValidMsg msg → Inv m → InvAfter (update msg m)
unfolding update apply_frame on_key handle_key handle_theme_key
update-Inv (frame_msg none) m h v = v
update-Inv (frame_msg (some f)) m h v = apply_parts-Inv f.roster f.update f.connect m h v
update-Inv tick_msg m h v = v
update-Inv focus_msg m h v = v
update-Inv blur_msg m h v = v
update-Inv (window_size_msg x y) m h v = v
update-Inv (key_msg k) m h v =
    if_ind InvAfter m.theme_picker _ _ (λ _. obey_theme-Inv (theme_command_of k.name) m v)
      λ _.
        if_ind InvAfter m.input_mode _ _ (λ _. input_key-Inv k.type_of k m v)
          (λ _. obey-Inv (command_of k.name) m v)

-- A snapshot is what the model then lists.
pub apply_roster-view :
    (m : Model) (r : Sock.Roster) (upd : Option AgentUpdate) (connect : Bool)
    → HasUniqueIds r.agents
    → find_agent (apply_parts (some r) upd connect m).agents ≡ find_agent r.agents
unfolding apply_parts apply_roster clamp_selection
apply_roster-view m r upd connect u = fun_ext (λ id. find-sort r.agents id u)

-- An update is folded in as the daemon's subscribers fold it.
pub apply_update-view :
    (m : Model) (upd : AgentUpdate) (connect : Bool)
    → Inv m
    → find_agent (apply_parts none (some upd) connect m).agents
      ≡ fold_update upd (find_agent m.agents)
unfolding apply_parts apply_rest apply_update clamp_selection
apply_update-view m upd connect v = fun_ext (λ id.
    if_ind
      (λ as'. find_agent as' id ≡ (
        if equal upd.agent.id id
        then (if upd.deleted then none else some upd.agent)
        else find_agent m.agents id))
      upd.deleted _ _ (λ gone. rw gone (find-remove upd.agent.id m.agents id v.unique))
      (λ here. rw here (find-upsert upd.agent m.agents id v.unique)))
