-- ===== src/Sidebar/Mirror.antt =====
-- The daemon and the sidebar together: what the model lists is what the registry holds.
use mathlib.Core.Option
use mathlib.Core.Option.{some_inj}
use mathlib.Core.Path.{fun_ext}
use mure.Base.{
  ◌≡◌, refl, sym, ap, subst, ◌∙◌, true, false, List, [], ◌∷◌, none, some, Bytes, equal, arith,
  length, get_elem?,
}
use mure.Base.Dict.{lookup, HasUniqueKeys, Entries}
use mure.Base.Dict
use mure.Sock
use mure.Sock.{AgentSnapshot, AgentUpdate}
use mure.Daemon.Roster.Buffer.{history}
use mure.Daemon.Roster.Invariant.{Inv}
use mure.Daemon.Roster.Replica.{view, replay, subscribe-replay}
use mure.Daemon.Roster.{
  AgentState, Subscriber, RosterCore, Event, snapshot, snapshots, roster_snapshot, subscribe, run,
}
use mure.Sidebar.Agents.Find.{find_agent, HasUniqueIds, IsFresh}
use mure.Sidebar.Model.Invariant as Sound
use mure.Sidebar.Model.Invariant.{apply_update-view, apply_roster-view, update-Inv}
use mure.Sidebar.Model.{Model, Msg, frame_msg, update}

-- The frames that the client hands over for what the daemon writes.
abbrev pub update_frame : AgentUpdate → Msg
update_frame upd = frame_msg (some (record { roster = none; update = some upd; connect = false }))

abbrev pub roster_frame : RosterCore → Msg
roster_frame c =
    frame_msg (some (record { roster = some (roster_snapshot c); update = none; connect = false }))

abbrev pub feed : Model → List AgentUpdate → Model
feed m [] = m
feed m (upd ∷ upds) = feed (update (update_frame upd) m).0 upds

feed-view :
    (upds : List AgentUpdate) (m : Model)
    → Sound.Inv m
    → find_agent (feed m upds).agents ≡ replay upds (find_agent m.agents)
unfolding update
feed-view [] m v = refl
feed-view (upd ∷ upds) m v =
    feed-view upds (update (update_frame upd) m).0 (update-Inv (update_frame upd) m (λ r e. cc) v)
    ∙ ap (replay upds) (apply_update-view m upd false v)

snapshots-IsFresh :
    (k : Bytes) (m : List (Bytes × AgentState))
    → Entries (λ j (a : AgentState). a.id ≡ j) m
    → Dict.IsFresh k m
    → IsFresh k (snapshots m)
snapshots-IsFresh k [] e f = tt
snapshots-IsFresh k ((j, a) ∷ m) e f =
    (ap (λ x. equal x k) e.0 ∙ f.0, snapshots-IsFresh k m e.1 f.1)

-- A snapshot has each ID once.
pub snapshots-HasUniqueIds :
    (m : List (Bytes × AgentState))
    → Entries (λ j (a : AgentState). a.id ≡ j) m
    → HasUniqueKeys m
    → HasUniqueIds (snapshots m)
snapshots-HasUniqueIds [] e u = tt
snapshots-HasUniqueIds ((j, a) ∷ m) e u = (
  snapshots-IsFresh a.id m e.1 (subst (λ k. Dict.IsFresh k m) (sym e.0) u.0),
  snapshots-HasUniqueIds m e.1 u.1,
)

find-snapshots :
    (m : List (Bytes × AgentState)) (id : Bytes)
    → Entries (λ j (a : AgentState). a.id ≡ j) m
    → find_agent (snapshots m) id ≡ Option.map snapshot (lookup id m)
unfolding find_agent lookup
find-snapshots [] id e = refl
find-snapshots ((j, a) ∷ m) id e = ground (arith, ap (λ x. equal x id) e.0, find-snapshots m id e.1)

-- A model that is given the snapshot of a registry and then every update that the subscription made
-- at that time gets, lists exactly the agents that the registry has now.
pub mirror :
    (c : RosterCore) (es : List Event) (t : Subscriber) (m : Model)
    → Inv c
    → Sound.Inv m
    → get_elem? (run (subscribe c) es).subscribers (length c.subscribers) ≡ some t
    → t.is_registered ≡ true
    → find_agent (feed (update (roster_frame c) m).0 (history t.ch)).agents
      ≡ view (run (subscribe c) es)
unfolding update roster_snapshot
mirror c es t m v w at reg =
    let unique = snapshots-HasUniqueIds c.agents v.keyed v.unique in
    let shown = (update (roster_frame c) m).0 in
    feed-view (history t.ch) shown (
      update-Inv (roster_frame c) m
        (λ r e. subst (λ (r' : Sock.Roster). HasUniqueIds r'.agents) (some_inj.0 e) unique) w)
    ∙ ap (replay (history t.ch)) (
        apply_roster-view m (roster_snapshot c) none false unique
        ∙ fun_ext (λ id. find-snapshots c.agents id v.keyed))
    ∙ subscribe-replay c es t v at reg
