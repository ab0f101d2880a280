-- ===== src/Cmd/Client.antt =====
-- cmd/mure/wait.go and ls.go: what the two clients read and print. The connection is what its
-- `ReadLine` returns from the hello on; encoding/json is an argument, and package tabwriter lays out
-- the rows of the table. Deadlines are reads that fail.
pub mod Overflow
use mure.Base.{
  ℕ, Bool, true, false, not, List, [], ◌∷◌, ◌++◌, Option, none, some, Bytes, is_empty,
  if◌then◌else◌,
}
use mure.Base.Strings.{less_bytes}
use mure.Sock.{AgentSnapshot, AgentUpdate, max_frame_size}
use mure.Sock
use mure.Sock.Frame.{Outcome, frame, frame_too_large, read_error, read_frame}
use mure.Harnesses.Markers.{ends_in_newline, newline}

-- The socket's path, whether `dialHello` succeeds and the request is written, and what arrives.
pub record Connection : Type 0 where
  pub path : Bytes
  pub dials : Bool
  pub writes : Bool
  pub chunks : List (Bytes × Bool)

-- A row of the table: name, status, pane and task.
pub record Row : Type 0 where
  pub name : Bytes
  pub status : Bytes
  pub pane : Bytes
  pub task : Bytes

pub data Output : Type 0 where
  text : Bytes → Output
  table : List Row → Output

abbrev pub fails_with : ℕ → ℕ × Output
fails_with n = (n, text [])

abbrev pub print_result : Option AgentUpdate → ℕ × Output
print_result none = fails_with 1
print_result (some upd) =
    if is_empty upd.agent.result then fails_with 1 else (0, text (upd.agent.result ++ newline))

abbrev pub on_reply : (Bytes → Option AgentUpdate) → Outcome → ℕ × Output
on_reply decode (frame b) = print_result (decode b)
on_reply decode _ = fails_with 1

-- Behind the snapshot, with what the connection still holds.
abbrev pub on_snapshot :
    (Bytes → Option AgentUpdate) → Connection → Outcome × List (Bytes × Bool) → ℕ × Output
on_snapshot decode conn (frame b, rest) =
    if not conn.writes then fails_with 1 else on_reply decode (read_frame max_frame_size rest).0
on_snapshot decode conn (_, rest) = fails_with 1

unfoldable pub wait : (Bytes → Option AgentUpdate) → Connection → List Bytes → ℕ × Output
wait decode conn [] = fails_with 2
wait decode conn (id ∷ argv) =
    if is_empty conn.path
    then fails_with 1
    else if not conn.dials
    then fails_with 1
    else on_snapshot decode conn (read_frame max_frame_size conn.chunks)

unfoldable pub insert_by_id : AgentSnapshot → List AgentSnapshot → List AgentSnapshot
insert_by_id a [] = a ∷ []
insert_by_id a (b ∷ bs) =
    let rest = insert_by_id a bs in if less_bytes b.id a.id then b ∷ rest else a ∷ b ∷ bs

unfoldable pub sort_by_id : List AgentSnapshot → List AgentSnapshot
unfolding insert_by_id
sort_by_id [] = []
sort_by_id (a ∷ as') = insert_by_id a (sort_by_id as')

abbrev pub rows : List AgentSnapshot → List Row
rows [] = []
rows (a ∷ as') =
    record {
      name = if is_empty a.role then a.id else a.role;
      status = a.status;
      pane = a.pane;
      task = a.task;
    }
    ∷ rows as'

unfoldable pub render_roster : Sock.Roster → Output
unfolding sort_by_id
render_roster r = table (rows (sort_by_id r.agents))

abbrev pub print_roster : Option Sock.Roster → ℕ × Output
print_roster none = fails_with 1
print_roster (some r) = (0, render_roster r)

abbrev pub on_roster : (Bytes → Option Sock.Roster) → Bool → Outcome → ℕ × Output
on_roster decode json (frame b) =
    if json
    then (0, text (if ends_in_newline b then b else b ++ newline))
    else print_roster (decode b)
on_roster decode json _ = fails_with 1

-- With the flag `--json`, or without.
unfoldable pub ls : (Bytes → Option Sock.Roster) → Connection → Bool → ℕ × Output
unfolding render_roster
ls decode conn json =
    if is_empty conn.path
    then fails_with 1
    else if not conn.dials
    then fails_with 1
    else on_roster decode json (read_frame max_frame_size conn.chunks).0
