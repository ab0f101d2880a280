-- ===== src/Cmd/Emit.antt =====
-- cmd/mure/emit.go: the frames that a hook sends for its agent, and the exit code.
pub mod Arguments
pub mod Delivery
pub mod Session
use mure.Base.{
  ℕ, Bool, true, false, not, ◌||◌, List, [], ◌∷◌, Option, none, some, Bytes, codes, equal, is_empty,
  if◌then◌else◌,
}
use mure.Base.Int.{ℤ, pos}
use mure.Base.Strings.{has_prefix, trim_prefix, trim_space}
use mure.Sock.{protocol_version, valid_status, role_agent, Hello}
use mure.Sock

-- The variables of the environment, and what the calls of a run return: what tmux displays, what
-- standard input holds, whether the daemon answers the dial and takes each frame, and the clock.
pub record Environment : Type 0 where
  pub socket : Bytes
  pub agent_id : Bytes
  pub pane_id : Bytes
  pub tmux_pane : Bytes
  pub tmux : Bytes
  pub role : Bytes
  pub displayed : Option Bytes
  pub stdin : Option Bytes
  pub dials : Bool
  pub takes_hello : Bool
  pub takes_frame : Bool
  pub hello_time : ℤ
  pub frame_time : ℤ

pub data Frame : Type 0 where
  hello : Hello → Frame
  status : Sock.Status → Frame
  result : Sock.Result → Frame

-- The exit code, and the frames that the connection took.
pub record Run : Type 0 where
  pub code : ℕ
  pub frames : List Frame

abbrev pub exits : ℕ → Run
exits n = record { code = n; frames = [] }

abbrev pub or_empty : Option Bytes → Bytes
or_empty none = []
or_empty (some out) = trim_space out

unfoldable pub emit_pane_id : Environment → Bytes
emit_pane_id env =
    if not (is_empty env.pane_id)
    then env.pane_id
    else if not (is_empty env.tmux_pane)
    then env.tmux_pane
    else if is_empty env.tmux
    then []
    else or_empty env.displayed

unfoldable pub emit_hello : Environment → Hello
unfolding emit_pane_id
emit_hello env = record {
  v = pos protocol_version;
  event = codes "hello";
  role = role_agent;
  agent_id = env.agent_id;
  pane_id = emit_pane_id env;
  agent_role = env.role;
  pid = pos 0;
  pi_version = [];
  ts = env.hello_time;
  oneshot = true;
}

unfoldable pub send_oneshot : Environment → Frame → Run
send_oneshot env frame =
    if not env.dials
    then exits 1
    else if not env.takes_hello
    then exits 1
    else if not env.takes_frame
    then record { code = 1; frames = hello (emit_hello env) ∷ [] }
    else record { code = 0; frames = hello (emit_hello env) ∷ frame ∷ [] }

-- The two guards that both commands share.
abbrev pub with_agent : Environment → Run → Run
with_agent env run =
    if is_empty env.socket then exits 1 else if is_empty env.agent_id then exits 1 else run

-- The positional arguments and the value of `--tool`, or nothing where that has no value. The flag
-- says whether the argument before was `--tool`.
abbrev pub positional : Bytes → Option (List Bytes × Bytes) → Option (List Bytes × Bytes)
positional a none = none
positional a (some (ps, tool)) = some (a ∷ ps, tool)

unfoldable pub parse_arguments : Bool → Bytes → List Bytes → Option (List Bytes × Bytes)
parse_arguments true tool [] = none
parse_arguments false tool [] = some ([], tool)
parse_arguments true tool (a ∷ argv) = parse_arguments false a argv
parse_arguments false tool (a ∷ argv) =
    let is_flag = equal a (codes "--tool") in
    let has_value = has_prefix (codes "--tool=") a in
    let rest =
      parse_arguments is_flag (if has_value then trim_prefix (codes "--tool=") a else tool) argv in
    if is_flag || has_value then rest else positional a rest

abbrev pub status_frame : Environment → Bytes → Bytes → Sock.Status
status_frame env s tool = record {
  v = pos protocol_version;
  event = codes "status";
  agent_id = env.agent_id;
  status = s;
  task = [];
  tool = tool;
  ts = env.frame_time;
}

-- `emitStatus`, on its arguments as they parse.
unfoldable pub emit_parsed : Environment → Option (List Bytes × Bytes) → Run
unfolding send_oneshot
emit_parsed env (some (s ∷ [], tool)) =
    if not (valid_status s)
    then exits 2
    else with_agent env (send_oneshot env (status (status_frame env s tool)))
emit_parsed env _ = exits 2

unfoldable pub emit_status : Environment → List Bytes → Run
unfolding emit_parsed parse_arguments
emit_status env argv = emit_parsed env (parse_arguments false [] argv)

abbrev pub result_frame : Environment → Bytes → Sock.Result
result_frame env body = record {
  v = pos protocol_version;
  event = codes "result";
  agent_id = env.agent_id;
  text = body;
  ts = env.frame_time;
}

-- On what standard input holds.
unfoldable pub emit_body : Environment → Option Bytes → Run
unfolding send_oneshot
emit_body env none = exits 1
emit_body env (some body) = send_oneshot env (result (result_frame env body))

unfoldable pub emit_result : Environment → List Bytes → Run
unfolding emit_body
emit_result env (a ∷ []) =
    if not (equal a (codes "-")) then exits 2 else with_agent env (emit_body env env.stdin)
emit_result env _ = exits 2

unfoldable pub emit : Environment → List Bytes → Run
unfolding emit_status emit_result
emit env [] = exits 2
emit env (a ∷ argv) =
    if equal a (codes "status")
    then emit_status env argv
    else if equal a (codes "result")
    then emit_result env argv
    else exits 2
