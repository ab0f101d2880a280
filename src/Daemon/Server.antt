-- ===== src/Daemon/Server.antt =====
-- internal/daemon/server.go: what a connection asks of the roster and writes back.
-- A handler's reads are a list of outcomes; a list that ends is a handler that still waits.
pub mod Agent
pub mod Wait
pub mod Sidebar
use mure.Base.{
  ℕ, suc, ◌≡◌, Bool, true, false, List, [], ◌∷◌, ◌++◌, map, Option, none, some, Bytes, codes, equal,
  is_empty, not, ◌&&◌, if◌then◌else◌,
}
use mure.Base.Int.{ℤ, pos}
use mure.Sock.{
  protocol_version, role_agent, role_sidebar, role_cli, Hello, AgentSnapshot, AgentUpdate,
}
use mure.Sock
use mure.Sock.Codec.{Codec}
use mure.Sock.Frame.{decode_envelope}
use mure.Daemon.Roster.{
  RosterCore, Event, upserts, updates_identity, applies_status, applies_result, removes,
  event_agent_update,
}

-- One turn of a handler's loop: `ctx.Err()` is set, `ReadFrame` returns a line, or it fails.
pub data Input : Type 0 where
  cancelled : Input
  line : Bytes → Input
  fails : Input

-- What a handler submits to the roster; the roster reads the clock when it runs the request.
pub data Request : Type 0 where
  upsert identify : Hello → Request
  status : Sock.Status → Request
  result : Sock.Result → Request
  remove : Bytes → Request

abbrev pub at_time : ℤ → Request → Event
at_time now (upsert h) = upserts now h
at_time now (identify h) = updates_identity h
at_time now (status s) = applies_status now s
at_time now (result r) = applies_result now r
at_time now (remove id) = removes id

-- After a status or a result: a oneshot connection applies its identity once more.
abbrev pub and_identity : Hello → List Request → List Request
and_identity h rest = if h.oneshot then identify h ∷ rest else rest

-- The body of the switch; `rest` is what the loop goes on to do.
unfoldable pub on_status : Hello → Option Sock.Status → List Request → List Request
on_status h none rest = []
on_status h (some s) rest = status s ∷ and_identity h rest

unfoldable pub on_result : Hello → Option Sock.Result → List Request → List Request
on_result h none rest = []
on_result h (some r) rest = result r ∷ and_identity h rest

unfoldable pub on_event : Codec → Hello → Bytes → Option Bytes → List Request → List Request
unfolding on_status on_result
on_event codec h b none rest = []
on_event codec h b (some event) rest =
    if equal event (codes "status")
    then on_status h (codec.status b) rest
    else if equal event (codes "result")
    then on_result h (codec.result b) rest
    else if equal event (codes "bye")
    then remove h.agent_id ∷ []
    else rest

unfoldable pub agent_loop : Codec → Hello → List Input → List Request
unfolding on_event
agent_loop codec h [] = []
agent_loop codec h (cancelled ∷ is) = []
agent_loop codec h (fails ∷ is) = if not h.oneshot then remove h.agent_id ∷ [] else []
agent_loop codec h (line b ∷ is) =
    on_event codec h b (decode_envelope codec b) (agent_loop codec h is)

unfoldable pub handle_agent : Codec → Hello → List Input → List Request
handle_agent codec h is = (if h.oneshot then identify h else upsert h) ∷ agent_loop codec h is

-- The handler that `handle` chooses.
pub data Session : Type 0 where
  refused : Session
  agent sidebar cli : Hello → Session

unfoldable pub by_role : Option Hello → Session
by_role none = refused
by_role (some h) =
    if equal h.role role_agent
    then agent h
    else if equal h.role role_sidebar
    then sidebar h
    else if equal h.role role_cli
    then cli h
    else refused

unfoldable pub by_event : Codec → Bytes → Option Bytes → Session
unfolding by_role
by_event codec b none = refused
by_event codec b (some event) =
    if equal event (codes "hello") then by_role (codec.hello b) else refused

-- `handle`, up to its switch; the flag says whether `Check` accepts the peer.
unfoldable pub handle : Codec → Bool → Input → Session
unfolding by_event
handle codec accepted (line b) =
    if accepted then by_event codec b (decode_envelope codec b) else refused
handle codec accepted _ = refused

-- `terminal` of `handleWait`, for the agent that is waited for.
abbrev pub is_awaited : Bytes → AgentSnapshot → Bool
is_awaited id a = equal a.id id && not (is_empty a.result)

-- The loop over the snapshot.
unfoldable pub await_in_snapshot : Bytes → List AgentSnapshot → Option AgentUpdate
await_in_snapshot id [] = none
await_in_snapshot id (a ∷ as') =
    if is_awaited id a
    then some (record {
      v = pos protocol_version;
      event = event_agent_update;
      agent = a;
      deleted = false;
    })
    else await_in_snapshot id as'

-- The loop over the updates that the channel delivers.
unfoldable pub await_in_updates : Bytes → List AgentUpdate → Option AgentUpdate
await_in_updates id [] = none
await_in_updates id (upd ∷ upds) =
    if is_awaited id upd.agent then some upd else await_in_updates id upds

abbrev pub or_else : Option AgentUpdate → Option AgentUpdate → Option AgentUpdate
or_else none o = o
or_else (some upd) o = some upd

-- The frame that `handleWait` writes: from its snapshot and the updates it has received since it
-- subscribed. `none` is a handler that still waits.
unfoldable pub handle_wait : Bytes → Sock.Roster → List AgentUpdate → Option AgentUpdate
handle_wait id snap received =
    or_else (await_in_snapshot id snap.agents) (await_in_updates id received)

-- What the loop of `handleCLI` does, one entry for each answer.
pub data CliAction : Type 0 where
  writes_snapshot shuts_down : CliAction
  waits_for : Bytes → CliAction

unfoldable pub on_wait : Option Sock.Wait → List CliAction
on_wait none = []
on_wait (some w) = waits_for w.agent_id ∷ []

-- `written` says whether the write of the answer succeeds; nothing follows one that fails.
unfoldable pub on_command : Codec → Bool → Bytes → Option Bytes → List CliAction → List CliAction
unfolding on_wait
on_command codec written b none rest = []
on_command codec written b (some event) rest =
    if equal event (codes "shutdown")
    then shuts_down ∷ []
    else if equal event (codes "snapshot")
    then (if written then writes_snapshot ∷ rest else [])
    else if equal event (codes "wait")
    then on_wait (codec.wait b)
    else rest

-- `writes` says for each input whether the write of a snapshot behind it succeeds.
unfoldable pub cli_loop : Codec → (ℕ → Bool) → List Input → List CliAction
unfolding on_command
cli_loop codec writes [] = []
cli_loop codec writes (cancelled ∷ is) = []
cli_loop codec writes (fails ∷ is) = []
cli_loop codec writes (line b ∷ is) =
    on_command codec (writes 0) b (decode_envelope codec b)
      (cli_loop codec (λ n. writes (suc n)) is)

-- The frames that are written, and what else it does. Write 0 is the one that answers the hello.
unfoldable pub handle_cli : Codec → (ℕ → Bool) → List Input → List CliAction
unfolding cli_loop
handle_cli codec writes is =
    if writes 0 then writes_snapshot ∷ cli_loop codec (λ n. writes (suc n)) is else []
