-- ===== src/Tests/Daemon.antt =====
-- A registry with one agent, its bridge and its log.
use mure.Base.{
  equal, ◌≡◌, refl, Bool, true, false, List, [], ◌∷◌, ◌++◌, Option, none, some, Bytes, codes,
  get_elem?,
}
use mure.Base.Int.{pos}
use mure.Sock.{Hello, Status, Result, status_working, role_agent}
use mure.Daemon.Roster.{
  AgentState, new_agent, RosterCore, Subscriber, Event, upserts, applies_status, applies_result,
  removes, subscribes, cancels, receives, empty_core, subscribe, exec, run, new_subscriber,
  apply_result, broadcast, apply_status, upsert_from_hello, offer, receive_from,
}
use mure.Base.Dict.{lookup, insert}
use mure.Daemon.Roster.Buffer.{history, is_full, receive, send}
use mure.Daemon.Roster.Invariant.{Inv, run-empty_core-Inv}
use mure.Daemon.Roster.Latest.{latest, run-latest}
use mure.Daemon.Roster.Lookup.{entry}
use mure.Daemon.Roster.Replica.{view, replay, subscribe-replay}
use mure.Daemon.Log.{Logger, Outcome, renamed, rename_fails, new_logger_with_limit}
use mure.Daemon.Log.Rotation.{writes, files, last_two, joined, all_succeed, writes-files}
use mure.Daemon.Log.Rotation

abbrev pub hello : Bool → Hello
hello oneshot = record {
  v = pos 1;
  event = codes "hello";
  role = role_agent;
  agent_id = codes "a";
  pane_id = codes "%1";
  agent_role = codes "scout";
  pid = pos 7;
  pi_version = [];
  ts = pos 0;
  oneshot = oneshot;
}

abbrev pub working : Status
working = record {
  v = pos 1;
  event = codes "status";
  agent_id = codes "a";
  status = status_working;
  task = codes "build";
  tool = [];
  ts = pos 9;
}

abbrev pub done : Result
done = record {
  v = pos 1;
  event = codes "result";
  agent_id = codes "a";
  text = codes "ok";
  ts = pos 9;
}

abbrev pub sample : List Event
sample = subscribes ∷ upserts (pos 5) (hello false) ∷ receives 0 ∷ []

abbrev pub happenings : List Event
happenings = applies_status (pos 6) working ∷ receives 1 ∷ applies_result (pos 7) done ∷ []

-- The last subscriber that there is at a place.
abbrev pub subscriber_or : Option Subscriber → Subscriber
subscriber_or none = new_subscriber
subscriber_or (some s) = s

abbrev pub sample_core : RosterCore
sample_core = run empty_core sample

abbrev sample_subscriber : Subscriber
sample_subscriber = subscriber_or (get_elem? (run (subscribe sample_core) happenings).subscribers 1)

run-empty_core-Inv_example : Inv (run empty_core (sample ++ (removes (codes "a") ∷ cancels 0 ∷ [])))
run-empty_core-Inv_example = run-empty_core-Inv (sample ++ (removes (codes "a") ∷ cancels 0 ∷ []))

subscribe-replay_example :
    replay (history sample_subscriber.ch) (view sample_core)
    ≡ view (run (subscribe sample_core) happenings)
unfolding run exec subscribe apply_result broadcast apply_status upsert_from_hello offer
    receive_from is_full receive send lookup insert
subscribe-replay_example =
    subscribe-replay sample_core happenings sample_subscriber (run-empty_core-Inv sample) refl refl

abbrev agent_or_new : Option AgentState → AgentState
agent_or_new none = new_agent [] [] (pos 0)
agent_or_new (some a) = a

abbrev scout : AgentState
scout = agent_or_new (entry (codes "a") sample_core)

-- A status that is not of the turn's end, between a result and a hello that gives no version.
abbrev requests : List Event
requests =
    applies_result (pos 6) done
    ∷ applies_status (pos 7) working
    ∷ removes (codes "b")
    ∷ upserts (pos 8) (hello true)
    ∷ []

run-latest_example :
    entry (codes "a") (run sample_core requests) ≡ some (latest (codes "a") requests scout)
unfolding run exec upsert_from_hello broadcast subscribe receive_from lookup insert equal
run-latest_example =
    run-latest requests sample_core (codes "a") scout refl (refl, (refl, (refl, (refl, tt))))

-- A log of four bytes that may hold six.
abbrev short_log : Logger
short_log = new_logger_with_limit (codes "abcd") none 6

abbrev smooth : Outcome
smooth = record { closes = true; rename = renamed; opens = true; written = 3 }

abbrev no_rename : Outcome
no_rename = record { closes = true; rename = rename_fails; opens = true; written = 3 }

abbrev two_writes : List (Outcome × Bytes)
two_writes = (smooth, codes "e") ∷ (smooth, codes "fgh") ∷ []

writes-files_example :
    let ws = two_writes in
    let (f, fs) = files 6 (codes "abcd") ws in
    (all_succeed ws short_log ≡ true)
    × Rotation.Inv (writes ws short_log)
    × (((writes ws short_log).backup, (writes ws short_log).current) ≡ last_two none f fs)
    × (joined f fs ≡ codes "abcdefgh")
writes-files_example =
    writes-files two_writes short_log (record { open_file = refl; counted = refl })
      (
        record { closes = refl; renames = refl; opens = refl; takes = refl },
        (record { closes = refl; renames = refl; opens = refl; takes = refl }, tt),
      )
