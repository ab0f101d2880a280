-- ===== src/Tests/Lifecycle.antt =====
-- Daemons that are started over one socket.
use mure.Base.{
  ◌&&◌, ℕ, ◌≡◌, refl, true, false, List, [], ◌∷◌, none, some, codes, arith, length-append,
  if◌then◌else◌, ◌==◌, All,
}
use mure.Sock.Frame.{read_frame}
use mure.Sock.Frame.Chunks.{arriving}
use mure.Daemon.Roster.{roster_snapshot}
use mure.Daemon.Connections.{
  Move, accepts, tracks, stops, sweeps, move, moves, empty_front, is_tracked,
}
use mure.Daemon.Connections.Tracked.{is_handled, is_accepted, moves-tracked}
use mure.Daemon.Lifecycle.{
  started, serving, refused, ended, Host, Ping, ping_socket, Call, makes_dir, listens, pings,
  removes, closes, perform, perform_all, listen_calls,
}
use mure.Daemon.Lifecycle.Exclusive.{Holds, IsForeign, IsAnswered, caller, perform_all-Holds}
use mure.Daemon.Lifecycle.Start.{takes, perform_all-listen_calls, results_lose_the_socket}
use mure.Daemon.Lifecycle.Races.{probe_calls, replace_calls, starts_race, late_removal}
use mure.Tests.Crowded.{half, length-half, crowded}

-- Daemon 7 serves; no other has begun.
abbrev one_daemon : Host
one_daemon = record { path = some 7; phase = λ i. if i == 7 then serving else started }

abbrev answer : Ping
answer = record { dials = true; takes_hello = true; chunks = (codes "{}", false) ∷ [] }

abbrev silence : Ping
silence = record { dials = false; takes_hello = false; chunks = [] }

abbrev too_long : Ping
too_long = record { dials = true; takes_hello = true; chunks = arriving (half ∷ []) half [] }

one_daemon-Holds : Holds 7 one_daemon
one_daemon-Holds = record { at_path = refl; serves = refl; alone = λ p other. rw other tt }

abbrev attempts : List Call
attempts =
    makes_dir 1 true
    ∷ makes_dir 2 true
    ∷ listens 2 true
    ∷ listens 1 true
    ∷ pings 1 answer
    ∷ removes 1
    ∷ pings 2 answer
    ∷ closes 2
    ∷ []

foreign : (c : Call) → (caller c == 7) ≡ false → IsAnswered c → IsForeign 7 c
foreign c o a = record { other = o; answered = a }

attempts-IsForeign : All (IsForeign 7) attempts
unfolding ping_socket read_frame
attempts-IsForeign = (
  foreign _ refl tt,
  (
    foreign _ refl tt,
    (
      foreign _ refl tt,
      (
        foreign _ refl tt,
        (foreign _ refl refl, (foreign _ refl tt, (foreign _ refl refl, (foreign _ refl tt, tt)))),
      ),
    ),
  ),
)

perform_all-Holds_example : Holds 7 (perform_all attempts one_daemon)
perform_all-Holds_example =
    perform_all-Holds 7 attempts one_daemon attempts-IsForeign one_daemon-Holds

perform_all-listen_calls_example :
    let h' = perform_all (listen_calls 1 answer) one_daemon in
    (h'.phase 1 ≡ (if takes one_daemon.path answer then serving else refused))
    × (h'.path ≡ (if takes one_daemon.path answer then some 1 else one_daemon.path))
    × ((i : ℕ) → (i == 1) ≡ false → h'.phase i ≡ one_daemon.phase i)
perform_all-listen_calls_example = perform_all-listen_calls 1 answer one_daemon refl

results_lose_the_socket_example :
    let h' = perform_all (listen_calls 1 too_long) one_daemon in
    (h'.phase 7 ≡ serving) × (h'.phase 1 ≡ serving) × (h'.path ≡ some 1)
unfolding roster_snapshot
results_lose_the_socket_example =
    results_lose_the_socket crowded 1 7 too_long one_daemon (half ∷ []) half []
      (omega (arith, length-half)) (omega (arith, length-half, length-append half half)) refl refl
      refl refl refl

abbrev dead : Host
dead = record { path = some 7; phase = λ i. started }

starts_race_example :
    let probed = perform_all (probe_calls 2 silence) (perform_all (probe_calls 1 silence) dead) in
    let h' = perform_all (replace_calls 2) (perform_all (replace_calls 1) probed) in
    (h'.phase 1 ≡ serving) × (h'.phase 2 ≡ serving) × (h'.path ≡ some 2)
unfolding ping_socket
starts_race_example = starts_race 1 2 7 silence silence dead refl refl refl refl refl refl refl

late_removal_example :
    let h' =
      perform (removes 7) (perform_all (listen_calls 1 silence) (perform (closes 7) one_daemon)) in
    (h'.phase 7 ≡ ended) × (h'.phase 1 ≡ serving) × (h'.path ≡ none)
late_removal_example = late_removal 1 7 silence one_daemon refl refl refl refl refl

-- The handler of the second connection has not begun.
abbrev two_connections : List Move
two_connections = accepts 1 ∷ accepts 2 ∷ tracks 1 ∷ []

moves-tracked_example :
    let f = moves two_connections empty_front in
    (is_tracked 2 f.conns ≡ is_handled (f.stage 2))
    × ((move sweeps (move stops f)).is_open 2 ≡ (f.is_open 2 && is_accepted (f.stage 2)))
unfolding move
moves-tracked_example = moves-tracked two_connections 2 refl
