-- ===== src/Daemon/Server/Sidebar.antt =====
-- `handleSidebar` of internal/daemon/server.go against the roster, where every write succeeds.
use mathlib.Core.Option
use mure.Base.{
  ◌≡◌, ◌≢◌, refl, sym, ap, ◌∙◌, true, false, List, [], ◌∷◌, Option, some, Bytes, length, get_elem?,
  get_elem?-append_length, All,
}
use mure.Sock.{AgentUpdate}
use mure.Daemon.Roster.Buffer.{history}
use mure.Daemon.Roster.Invariant.{Inv, run-Inv, exec-Inv}
use mure.Daemon.Roster.Lookup.{entry, is_about, exec-entry}
use mure.Daemon.Roster.Replica.{View, view, fold_update, replay}
use mure.Daemon.Roster.Replica.Silence.{Silent, run-Silent}
use mure.Daemon.Roster.{
  Subscriber, RosterCore, Event, subscribe, subscribes, new_subscriber, exec, run, snapshot,
}

-- A sidebar that is served: the contents that its snapshot showed, the registry as it is now, and
-- its subscriber there.
pub record Served : Type 0 where
  pub shown : View
  pub roster : RosterCore
  pub subscriber : Option Subscriber

-- `handleSidebar` at the registry `c`, with the requests of others that run behind its call of
-- `Snapshot` and before that of `Subscribe`, and those that run behind that.
abbrev pub handle_sidebar : RosterCore → List Event → List Event → Served
handle_sidebar c between later =
    let shown = view c in
    let before = run c between in
    let now = run (subscribe before) later in
    record {
      shown = shown;
      roster = now;
      subscriber = get_elem? now.subscribers (length before.subscribers);
    }

-- What a sidebar knows: the snapshot with the updates of its channel folded in.
abbrev pub sidebar_view : Served → Subscriber → View
sidebar_view s t = replay (history t.ch) s.shown

replay-other :
    (id : Bytes) (us : List AgentUpdate) (w : View) → Silent id us → replay us w id ≡ w id
replay-other id [] w h = refl
replay-other id (u ∷ us) w h = replay-other id us (fold_update u w) h.1 ∙ rw h.0

run-others :
    (es : List Event) (c : RosterCore) (id : Bytes)
    → All (λ e. is_about e id ≡ false) es
    → entry id (run c es) ≡ entry id c
unfolding run
run-others [] c id w = refl
run-others (e ∷ es) c id w = run-others es (exec e c) id w.1 ∙ exec-entry e c id ∙ rw w.0 refl

-- A sidebar that is still registered, of an agent that the requests between its snapshot and its
-- subscription changed and no later request is about: it knows the agent as it was at the snapshot,
-- and the registry holds it as those requests left it, which is something else.
pub handle_sidebar_loses :
    (c : RosterCore) (between later : List Event) (t : Subscriber) (id : Bytes)
    → Inv c
    → (handle_sidebar c between later).subscriber ≡ some t
    → t.is_registered ≡ true
    → view (run c between) id ≢ view c id
    → All (λ e. is_about e id ≡ false) later
    → let s = handle_sidebar c between later in
      (sidebar_view s t id ≡ view c id)
      × (view s.roster id ≡ view (run c between) id)
      × (sidebar_view s t id ≢ view s.roster id)
unfolding subscribe exec
handle_sidebar_loses c between later t id v at reg changed quiet =
    let before = run c between in
    let added = get_elem?-append_length before.subscribers new_subscriber in
    let held = exec-Inv subscribes before (run-Inv c between v) in
    let silent : Silent id (history t.ch) =
      (run-Silent later (subscribe before) (length before.subscribers) new_subscriber t id held
          added at reg quiet).1
        tt in
    let knows : replay (history t.ch) (view c) id ≡ view c id =
      replay-other id (history t.ch) (view c) silent in
    let holds : view (run (subscribe before) later) id ≡ view before id =
      ap (Option.map snapshot) (run-others later (subscribe before) id quiet) in
    (knows, holds, λ same. changed (sym holds ∙ sym same ∙ knows))
