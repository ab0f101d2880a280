-- ===== src/Tests/Server.antt =====
-- Connections of an agent, of a waiting client and of a sidebar.
use mure.Base.{
  ℕ, ◌≡◌, ◌≢◌, refl, ap, not, Bool, true, false, List, [], ◌∷◌, Option, none, some, codes, is_empty,
  get_elem?, equal, if◌then◌else◌,
}
use mure.Base.Int.{ℤ, pos}
use mure.Sock.{AgentSnapshot}
use mure.Sock.Codec.{Codec}
use mure.Daemon.Roster.{
  Subscriber, Event, applies_result, receives, snapshot, new_agent, subscribe, exec, run,
  apply_result, broadcast, apply_status, with_status, apply_hello_identity, upsert_from_hello,
  offer, receive_from,
}
use mure.Base.Dict.{lookup, insert}
use mure.Daemon.Roster.Buffer.{is_full, receive, send}
use mure.Daemon.Roster.Invariant.{run-empty_core-Inv}
use mure.Daemon.Roster.Replica.{view}
use mure.Daemon.Server.Sidebar.{handle_sidebar, sidebar_view, handle_sidebar_loses}
use mure.Tests.Daemon.{hello, working, done, sample, sample_core, happenings, subscriber_or}

-- A line is the name of its event; an empty line does not decode.
abbrev codec : Codec
codec = record {
  envelope = λ b. if is_empty b then none else some (record { v = pos 1; event = b });
  hello = λ b. some (hello false);
  status = λ b. some working;
  result = λ b. some done;
  wait = λ b. none;
}

abbrev clock : ℕ → ℤ
clock n = pos n

-- The client's subscriber, which has received the two updates.
abbrev waiting : List Event
waiting = applies_result (pos 7) done ∷ receives 1 ∷ receives 1 ∷ []

abbrev waiter : Subscriber
waiter =
    subscriber_or (get_elem? (run (run (subscribe sample_core) happenings) waiting).subscribers 1)

-- What a view shows, or else something.
abbrev snapshot_or : Option AgentSnapshot → AgentSnapshot
snapshot_or none = snapshot (new_agent [] [] (pos 0))
snapshot_or (some a) = a

-- A result that arrives between the snapshot and the subscription, and nothing behind it.
abbrev missed : List Event
missed = applies_result (pos 7) done ∷ []

abbrev late : Subscriber
late = subscriber_or (get_elem? (run (subscribe (run sample_core missed)) []).subscribers 1)

abbrev has_text : Option AgentSnapshot → Bool
has_text none = false
has_text (some a) = not (is_empty a.result)

missed_shows : view (run sample_core missed) (codes "a") ≢ view sample_core (codes "a")
unfolding run exec apply_result broadcast upsert_from_hello lookup insert subscribe equal
    apply_hello_identity
missed_shows e = let t : true ≡ false = ap has_text e in cc

handle_sidebar_loses_example :
    let s = handle_sidebar sample_core missed [] in
    (sidebar_view s late (codes "a") ≡ view sample_core (codes "a"))
    × (view s.roster (codes "a") ≡ view (run sample_core missed) (codes "a"))
    × (sidebar_view s late (codes "a") ≢ view s.roster (codes "a"))
unfolding run exec subscribe apply_result broadcast apply_status upsert_from_hello offer
    receive_from is_full receive send lookup insert equal with_status apply_hello_identity
handle_sidebar_loses_example =
    handle_sidebar_loses sample_core missed [] late (codes "a") (run-empty_core-Inv sample) refl
      refl missed_shows tt
