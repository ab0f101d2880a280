-- ===== src/Cmd/Client/Overflow.antt =====
-- A registry whose results do not fit into one frame.
use mure.Base.{
  ℕ, ◌<◌, ◌≤◌, ◌≡◌, ap, ◌∙◌, Bool, not, List, ◌∷◌, Option, Bytes, is_empty, if◌then◌else◌, length,
  arith,
}
use mure.Sock.{AgentSnapshot, AgentUpdate, max_frame_size}
use mure.Sock
use mure.Sock.Frame.{Outcome, read_frame}
use mure.Sock.Frame.Chunks.{arriving, joined, read_frame-too_long}
use mure.Daemon.Roster.Lookup.{results_length}
use mure.Daemon.Roster.{RosterCore, roster_snapshot}
use mure.Cmd.Client.{Connection, Output, fails_with, on_snapshot, on_roster, wait, ls}

guarded :
    (conn : Connection) (r : ℕ × Output)
    → r.0 ≡ 1
    → (if is_empty conn.path then fails_with 1 else if not conn.dials then fails_with 1 else r).0
      ≡ 1
guarded conn r e = ground arith

-- Where the results that the registry holds are together longer than a frame may be, and the line of
-- the snapshot is no shorter than they are, `wait` for any agent and `ls` both exit with 1.
pub results_refuse_clients :
    (c : RosterCore) (updates : Bytes → Option AgentUpdate) (rosters : Bytes → Option Sock.Roster)
    (conn : Connection) (id : Bytes) (argv : List Bytes) (json : Bool) (prefixes : List Bytes)
    (last : Bytes) (chunks : List (Bytes × Bool))
    → max_frame_size < results_length (roster_snapshot c).agents
    → results_length (roster_snapshot c).agents ≤ length (joined prefixes last)
    → conn.chunks ≡ arriving prefixes last chunks
    → ((wait updates conn (id ∷ argv)).0 ≡ 1) × ((ls rosters conn json).0 ≡ 1)
unfolding wait ls
results_refuse_clients c updates rosters conn id argv json prefixes last chunks many shown arrives =
    let long = read_frame-too_long prefixes last chunks (omega arith) in
    let read = ap (read_frame max_frame_size) arrives ∙ long in
    (
      guarded conn (on_snapshot updates conn (read_frame max_frame_size conn.chunks))
          (ap (λ o. (on_snapshot updates conn o).0) read),
      guarded conn (on_roster rosters json (read_frame max_frame_size conn.chunks).0)
          (ap (λ (o : Outcome × List (Bytes × Bool)). (on_roster rosters json o.0).0) read),
    )
