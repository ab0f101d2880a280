-- ===== src/Daemon/Server/Wait.antt =====
-- `handleWait` against the roster: it subscribes first and reads the snapshot afterwards, so no
-- result is lost between the two.
use mathlib.Core.Option
use mure.Base.{◌≡◌, true, Option, none, some, Bytes}
use mure.Sock.{AgentSnapshot, AgentUpdate}
use mure.Daemon.Roster.Replica.{View}
use mure.Daemon.Server.{is_awaited}

-- A reply that answers the request: an update of that agent, with a result.
abbrev pub Answers : Bytes → Option AgentUpdate → Type 0
Answers id none = ⊥
Answers id (some upd) = is_awaited id upd.agent ≡ true

-- The view holds a result of the agent.
abbrev pub HasResult : Bytes → View → Type 0
HasResult id w = (a : AgentSnapshot) × (w id ≡ some a) × (is_awaited id a ≡ true)
