-- ===== src/Daemon/Roster.antt =====
-- internal/daemon/roster.go: the agent registry and its subscribers, one request at a time.
-- A pointer to a subscriber is its place in `subscribers`; `is_registered` says whether it is a
-- key of the map of that name. The clock enters as the argument `now` of a request.
pub mod Buffer
pub mod Invariant
pub mod Latest
pub mod Lookup
pub mod Replica
use mure.Base.{
  ℕ, suc, Bool, true, false, not, List, [], ◌∷◌, ◌++◌, map, Option, none, some, Bytes, codes,
  is_empty, equal, if◌then◌else◌, length, modify,
}
use mure.Base.Int.{ℤ, pos, is_zero}
use mure.Base.Dict.{lookup, insert, delete}
use mure.Sock.{protocol_version, status_idle, Hello, AgentSnapshot, AgentUpdate}
use mure.Sock
use Buffer.{Channel, empty_channel, send, close, is_full, receive}

pub record AgentState : Type 0 where
  pub id : Bytes
  pub pane_id : Bytes
  pub role : Bytes
  pub pid : ℤ
  pub pi_version : Bytes
  pub status : Bytes
  pub task : Bytes
  pub created_at : ℤ
  pub last_turn_ended_at : ℤ
  pub result : Bytes

abbrev pub snapshot : AgentState → AgentSnapshot
snapshot a = record {
  id = a.id;
  status = a.status;
  role = a.role;
  task = a.task;
  pane = a.pane_id;
  created_at = a.created_at;
  last_turn_ended_at = a.last_turn_ended_at;
  result = a.result;
}

pub record Subscriber : Type 0 where
  pub ch : Channel
  pub closed : Bool
  pub is_registered : Bool

pub record RosterCore : Type 0 where
  pub agents : List (Bytes × AgentState)
  pub subscribers : List Subscriber
  pub launch_dir : Bytes

abbrev pub empty_core : RosterCore
empty_core = record { agents = []; subscribers = []; launch_dir = [] }

-- What the roster does to one subscriber when it publishes an update: nothing if it is not
-- registered, forget it if it is closed, send, or close and forget it on overflow.
unfoldable pub offer : AgentUpdate → Subscriber → Subscriber
offer upd s =
    if not s.is_registered
    then s
    else if s.closed
    then record s { is_registered = false }
    else if is_full s.ch
    then record { ch = close s.ch; closed = true; is_registered = false }
    else record s { ch = send upd s.ch }

unfoldable pub publish : AgentUpdate → RosterCore → RosterCore
publish upd c = record c { subscribers = map (offer upd) c.subscribers }

abbrev pub event_agent_update : Bytes
event_agent_update = codes "agent_update"

abbrev pub changed : AgentState → AgentUpdate
changed a = record {
  v = pos protocol_version;
  event = event_agent_update;
  agent = snapshot a;
  deleted = false;
}

unfoldable pub broadcast : RosterCore → AgentState → RosterCore
unfolding publish
broadcast c a = publish (changed a) c

-- A Go composite literal with the fields left out at their zero values.
abbrev pub new_agent : Bytes → Bytes → ℤ → AgentState
new_agent id status created_at = record {
  id = id;
  pane_id = [];
  role = [];
  pid = pos 0;
  pi_version = [];
  status = status;
  task = [];
  created_at = created_at;
  last_turn_ended_at = pos 0;
  result = [];
}

unfoldable pub apply_hello_identity : AgentState → Hello → AgentState
apply_hello_identity a h = record a {
  pane_id = if is_empty h.pane_id then a.pane_id else h.pane_id;
  pid = if is_zero h.pid then a.pid else h.pid;
  pi_version = if is_empty h.pi_version then a.pi_version else h.pi_version;
  role = if is_empty h.agent_role then a.role else h.agent_role;
}

-- The agent at a key of the map, or the record that the request makes for it.
abbrev pub agent_or : AgentState → Option AgentState → AgentState
agent_or fresh none = fresh
agent_or fresh (some a) = a

-- Writes through the pointer at `id` and broadcasts the agent.
abbrev pub store : Bytes → AgentState → RosterCore → RosterCore
store id a c = broadcast (record c { agents = insert id a c.agents }) a

unfoldable pub upsert_from_hello : ℤ → Hello → RosterCore → RosterCore
upsert_from_hello now h c =
    let a = agent_or (new_agent h.agent_id status_idle now) (lookup h.agent_id c.agents) in
    store h.agent_id (apply_hello_identity a h) c

-- On what the map holds at the ID of the hello.
unfoldable pub update_identity : Hello → RosterCore → Option AgentState → RosterCore
update_identity h c none = c
update_identity h c (some a) = store h.agent_id (apply_hello_identity a h) c

unfoldable pub update_identity_if_present : Hello → RosterCore → RosterCore
unfolding update_identity
update_identity_if_present h c = update_identity h c (lookup h.agent_id c.agents)

-- The assignments of `ApplyStatus`.
unfoldable pub with_status : AgentState → Sock.Status → AgentState
with_status a s = record a {
  status = s.status;
  task = s.task;
  last_turn_ended_at = if equal s.status status_idle then s.ts else a.last_turn_ended_at;
}

unfoldable pub apply_status : ℤ → Sock.Status → RosterCore → RosterCore
apply_status now s c =
    let a = agent_or (new_agent s.agent_id [] now) (lookup s.agent_id c.agents) in
    store s.agent_id (with_status a s) c

-- The assignment of `ApplyResult`.
abbrev pub with_result : AgentState → Sock.Result → AgentState
with_result a r = record a { result = r.text }

unfoldable pub apply_result : ℤ → Sock.Result → RosterCore → RosterCore
apply_result now r c =
    let a = agent_or (new_agent r.agent_id [] now) (lookup r.agent_id c.agents) in
    store r.agent_id (with_result a r) c

-- An `AgentSnapshot` with only its ID, and the update that `Remove` sends.
abbrev pub removal : Bytes → AgentUpdate
removal id = record {
  v = pos protocol_version;
  event = event_agent_update;
  agent = record {
    id = id;
    status = [];
    role = [];
    task = [];
    pane = [];
    created_at = pos 0;
    last_turn_ended_at = pos 0;
    result = [];
  };
  deleted = true;
}

-- On what the map holds at the ID.
unfoldable pub remove_found : Bytes → RosterCore → Option AgentState → RosterCore
remove_found id c none = c
remove_found id c (some a) = publish (removal id) (record c { agents = delete id c.agents })

unfoldable pub remove : Bytes → RosterCore → RosterCore
unfolding remove_found
remove id c = remove_found id c (lookup id c.agents)

abbrev pub snapshots : List (Bytes × AgentState) → List AgentSnapshot
snapshots [] = []
snapshots ((id, a) ∷ m) = snapshot a ∷ snapshots m

unfoldable pub roster_snapshot : RosterCore → Sock.Roster
roster_snapshot c = record {
  v = pos protocol_version;
  event = codes "roster";
  agents = snapshots c.agents;
  launch_dir = c.launch_dir;
}

unfoldable pub set_launch_dir : Bytes → RosterCore → RosterCore
set_launch_dir dir c = record c { launch_dir = dir }

abbrev pub new_subscriber : Subscriber
new_subscriber = record { ch = empty_channel; closed = false; is_registered = true }

-- The new subscriber's place is the old length.
unfoldable pub subscribe : RosterCore → RosterCore
subscribe c = record c { subscribers = c.subscribers ++ (new_subscriber ∷ []) }

unfoldable pub cancel_subscriber : Subscriber → Subscriber
cancel_subscriber s =
    if not s.is_registered
    then s
    else if s.closed
    then record s { is_registered = false }
    else record { ch = close s.ch; closed = true; is_registered = false }

-- The function that `Subscribe` returns.
unfoldable pub cancel : ℕ → RosterCore → RosterCore
cancel k c = record c { subscribers = modify c.subscribers k cancel_subscriber }

-- What `run` does with the subscribers of its map once `quit` is closed.
unfoldable pub quit_subscriber : Subscriber → Subscriber
quit_subscriber s =
    if not s.is_registered
    then s
    else if s.closed
    then s
    else record s { ch = close s.ch; closed = true }

unfoldable pub receive_from : Subscriber → Subscriber
receive_from s = record s { ch = receive s.ch }

-- What reaches the roster: the requests that its methods submit, each with the time at which it
-- runs; a reader that takes one update off its channel; and `Close`.
pub data Event : Type 0 where
  upserts : ℤ → Hello → Event
  updates_identity : Hello → Event
  applies_status : ℤ → Sock.Status → Event
  applies_result : ℤ → Sock.Result → Event
  removes : Bytes → Event
  sets_launch_dir : Bytes → Event
  subscribes : Event
  cancels : ℕ → Event
  receives : ℕ → Event

unfoldable pub exec : Event → RosterCore → RosterCore
exec (upserts now h) c = upsert_from_hello now h c
exec (updates_identity h) c = update_identity_if_present h c
exec (applies_status now s) c = apply_status now s c
exec (applies_result now r) c = apply_result now r c
exec (removes id) c = remove id c
exec (sets_launch_dir dir) c = set_launch_dir dir c
exec subscribes c = subscribe c
exec (cancels k) c = cancel k c
exec (receives k) c = record c { subscribers = modify c.subscribers k receive_from }

-- The goroutine's loop over the requests, in the order in which they come off its channel.
unfoldable pub run : RosterCore → List Event → RosterCore
run c [] = c
run c (e ∷ es) = run (exec e c) es

-- The end of the loop.
unfoldable pub quit : RosterCore → RosterCore
quit c = record c { subscribers = map quit_subscriber c.subscribers }
