-- ===== src/Sock.antt =====
-- internal/sock/types.go: the frames of the wire protocol and their vocabulary.
pub mod Codec
pub mod Frame
use mure.Base.{ℕ, ◌*◌, Bool, true, false, ◌||◌, List, Bytes, codes, equal}
use mure.Base.Int.{ℤ}

abbrev pub protocol_version : ℕ
protocol_version = 1

abbrev pub max_frame_size : ℕ
max_frame_size = 64 * 1024

abbrev pub status_idle : Bytes
status_idle = codes "idle"

abbrev pub status_working : Bytes
status_working = codes "working"

abbrev pub status_blocked : Bytes
status_blocked = codes "blocked"

unfoldable pub valid_status : Bytes → Bool
valid_status s = equal s status_idle || equal s status_working || equal s status_blocked

abbrev pub role_agent : Bytes
role_agent = codes "agent"

abbrev pub role_sidebar : Bytes
role_sidebar = codes "sidebar"

abbrev pub role_cli : Bytes
role_cli = codes "cli"

pub record Hello : Type 0 where
  pub v : ℤ
  pub event : Bytes
  pub role : Bytes
  pub agent_id : Bytes
  pub pane_id : Bytes
  pub agent_role : Bytes
  pub pid : ℤ
  pub pi_version : Bytes
  pub ts : ℤ
  pub oneshot : Bool

pub record Status : Type 0 where
  pub v : ℤ
  pub event : Bytes
  pub agent_id : Bytes
  pub status : Bytes
  pub task : Bytes
  pub tool : Bytes
  pub ts : ℤ

pub record Result : Type 0 where
  pub v : ℤ
  pub event : Bytes
  pub agent_id : Bytes
  pub text : Bytes
  pub ts : ℤ

pub record Wait : Type 0 where
  pub v : ℤ
  pub event : Bytes
  pub agent_id : Bytes

pub record AgentSnapshot : Type 0 where
  pub id : Bytes
  pub status : Bytes
  pub role : Bytes
  pub task : Bytes
  pub pane : Bytes
  pub created_at : ℤ
  pub last_turn_ended_at : ℤ
  pub result : Bytes

pub record Roster : Type 0 where
  pub v : ℤ
  pub event : Bytes
  pub agents : List AgentSnapshot
  pub launch_dir : Bytes

pub record AgentUpdate : Type 0 where
  pub v : ℤ
  pub event : Bytes
  pub agent : AgentSnapshot
  pub deleted : Bool
