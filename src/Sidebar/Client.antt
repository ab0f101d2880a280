-- ===== src/Sidebar/Client.antt =====
-- internal/sidebar/client.go: a session with the daemon, and the reconnecting loop.
-- Durations are in nanoseconds. The context is not cancelled; `Frames` takes what it is sent.
pub mod Backoff
use mure.Base.{
  ℕ, ◌+◌, ◌*◌, ◌/◌, ◌%◌, ◌^◌, leb, ◌==◌, Bool, true, false, List, [], ◌∷◌, ◌++◌, Option, none, some,
  Bytes, codes, equal, ltb, if◌then◌else◌, map,
}
use mure.Sock.{AgentUpdate}
use mure.Sock
use mure.Sock.Codec.{Codec}
use mure.Sock.Frame.{Outcome, frame, frame_too_large, read_error, decode_envelope}
use mure.Sidebar.Model.{Frame}

-- `json.Unmarshal` into a roster and into an update.
pub record Reader : Type 0 where
  pub codec : Codec
  pub roster : Bytes → Option Sock.Roster
  pub update : Bytes → Option AgentUpdate

abbrev pub connection : Bool → Frame
connection up = record { roster = none; update = none; connect = up }

unfoldable pub on_roster : Option Sock.Roster → List Frame → List Frame
on_roster none later = []
on_roster (some r) later = record { roster = some r; update = none; connect = false } ∷ later

unfoldable pub on_update : Option AgentUpdate → List Frame → List Frame
on_update none later = []
on_update (some u) later = record { roster = none; update = some u; connect = false } ∷ later

unfoldable pub on_event : Reader → Bytes → Option Bytes → List Frame → List Frame
unfolding on_roster on_update
on_event reader b none later = []
on_event reader b (some event) later =
    if equal event (codes "roster")
    then on_roster (reader.roster b) later
    else if equal event (codes "agent_update")
    then on_update (reader.update b) later
    else later

-- The read loop of `session`: what it sends until it returns, which is always with an error.
unfoldable pub read_loop : Reader → List Outcome → List Frame
unfolding on_event decode_envelope
read_loop reader [] = []
read_loop reader (frame b ∷ reads) =
    on_event reader b (decode_envelope reader.codec b) (read_loop reader reads)
read_loop reader (frame_too_large ∷ reads) = []
read_loop reader (read_error ∷ reads) = []

-- How one attempt goes: `Dial` or the hello fails, or there are reads.
pub data Attempt : Type 0 where
  dial_fails hello_fails : Attempt
  connects : List Outcome → Attempt

-- The frames that `session` sends, and whether it returns an error.
unfoldable pub session : Reader → Attempt → List Frame × Bool
unfolding read_loop
session reader dial_fails = ([], true)
session reader hello_fails = ([], true)
session reader (connects reads) = (connection true ∷ read_loop reader reads, true)

-- A duration is an int64, as the number below 2 ^ 64 with its bits.
abbrev pub is_negative : ℕ → Bool
is_negative d = leb (2 ^ 63) d

-- `a > b` of two durations.
abbrev pub exceeds : ℕ → ℕ → Bool
exceeds a b =
    if is_negative a
    then (if is_negative b then ltb b a else false)
    else if is_negative b
    then true
    else ltb b a

-- The delay after a wait; the doubling wraps around.
unfoldable pub next_delay : ℕ → ℕ → ℕ
next_delay max_delay delay =
    let twice = (delay * 2) % 2 ^ 64 in if exceeds twice max_delay then max_delay else twice

-- What the loop does that shows. `panics` is what `rand.Int63n` does where its argument is not
-- positive.
pub data Happening : Type 0 where
  sends : Frame → Happening
  waits : ℕ → Happening
  panics : Happening

-- Behind a session that returned an error; `j` is what `rand.Int63n(delay)` gives.
unfoldable pub on_error : ℕ → ℕ → List Happening → List Happening
on_error delay j later =
    if exceeds delay 0 then waits ((delay / 2 + j) % 2 ^ 64) ∷ later else panics ∷ []

-- `Run`, over how each attempt goes and what `rand.Int63n(delay)` gives after it.
unfoldable pub run_loop : Reader → ℕ → ℕ → ℕ → List (Attempt × ℕ) → List Happening
unfolding session next_delay on_error
run_loop reader base_delay max_delay delay [] = []
run_loop reader base_delay max_delay delay ((a, j) ∷ attempts) =
    let result = session reader a in
    let later =
      run_loop reader base_delay max_delay
        (if result.1 then next_delay max_delay delay else base_delay) attempts in
    map sends result.0
    ++ (sends (connection false) ∷ (if result.1 then on_error delay j later else later))

unfoldable pub run : Reader → ℕ → ℕ → List (Attempt × ℕ) → List Happening
unfolding run_loop
run reader base_delay max_delay attempts = run_loop reader base_delay max_delay base_delay attempts
