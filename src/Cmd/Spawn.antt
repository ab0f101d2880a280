-- ===== src/Cmd/Spawn.antt =====
-- cmd/mure/spawn.go: the command line that a new pane runs, and the choice of the harness.
-- internal/harnesses/taskarg.go: how a harness takes its task.
pub mod Quoting
pub mod Command
use mure.Base.{
  ℕ, Bool, true, false, not, ◌||◌, List, [], ◌∷◌, ◌++◌, Option, none, some, Bytes, codes, equal,
  is_empty, ◌==◌, if◌then◌else◌,
}
use mure.Base.Strings.{cut, cut_prefix, trim_prefix, join}

pub data TaskArg : Type 0 where
  task_arg_none task_arg_positional task_arg_stdin : TaskArg
  task_arg_flag : Bytes → TaskArg

-- Behind `flag:`, or an error where that is no prefix or nothing follows.
unfoldable pub parse_flag : Option Bytes → Option TaskArg
parse_flag none = none
parse_flag (some rest) = if is_empty rest then none else some (task_arg_flag rest)

unfoldable pub parse_task_arg : Bytes → Option TaskArg
unfolding parse_flag
parse_task_arg s =
    if is_empty s || equal s (codes "none")
    then some task_arg_none
    else if equal s (codes "positional")
    then some task_arg_positional
    else if equal s (codes "stdin")
    then some task_arg_stdin
    else parse_flag (cut_prefix (codes "flag:") s)

-- `strings.ReplaceAll` of each single quote.
unfoldable pub escape_quotes : Bytes → Bytes
escape_quotes [] = []
escape_quotes (c ∷ s) =
    let rest = escape_quotes s in
    if c == b'\'' then b'\'' ∷ b'\\' ∷ b'\'' ∷ b'\'' ∷ rest else c ∷ rest

unfoldable pub shell_escape : Bytes → Bytes
unfolding escape_quotes
shell_escape s = b'\'' ∷ (escape_quotes s ++ (b'\'' ∷ []))

pub record SpawnEnv : Type 0 where
  pub agent_id : Bytes
  pub sock_path : Bytes
  pub role : Bytes
  pub task : Bytes
  pub session : Bytes
  pub harness_name : Bytes
  pub command : Bytes
  pub task_arg : TaskArg

abbrev pub assignment : Bytes → Bytes → Bytes
assignment name value = name ++ (b'=' ∷ shell_escape value)

-- What one variable of the environment adds.
unfoldable pub inherit : Bytes × Option Bytes → List Bytes → List Bytes
inherit (name, none) rest = rest
inherit (name, some value) rest =
    if is_empty name || equal name (codes "TMUX_PANE") then rest else assignment name value ∷ rest

unfoldable pub inherited : List Bytes → List Bytes → List Bytes
unfolding inherit
inherited [] rest = rest
inherited (kv ∷ environ) rest = inherit (cut b'=' kv) (inherited environ rest)

-- An assignment that is left out where its value is empty.
abbrev pub optional : Bytes → Bytes → List Bytes
optional name value = if is_empty value then [] else assignment name value ∷ []

unfoldable pub assignments : SpawnEnv → List Bytes → List Bytes
unfolding inherited
assignments se environ = inherited environ (
    codes "MURE_ENV=1"
    ∷ assignment (codes "MURE_AGENT_ID") se.agent_id
    ∷ assignment (codes "MURE_SOCKET") se.sock_path
    ∷ assignment (codes "MURE_HARNESS") se.harness_name
    ∷ codes "MURE_PANE_ID=\"$TMUX_PANE\""
    ∷ (optional (codes "MURE_SESSION") se.session
        ++ (optional (codes "MURE_ROLE") se.role ++ optional (codes "MURE_TASK") se.task)))

unfoldable pub with_task : TaskArg → Bytes → Bytes → Bytes
with_task task_arg_none command task = command
with_task task_arg_positional command task = command ++ (b' ' ∷ shell_escape task)
with_task (task_arg_flag flag) command task =
    command
    ++ (b' '
        ∷ (shell_escape (codes "--" ++ trim_prefix (codes "--") flag)
            ++ (b' ' ∷ shell_escape task)))
with_task task_arg_stdin command task =
    codes "printf %s " ++ (shell_escape task ++ (codes " | " ++ command))

unfoldable pub command_line : SpawnEnv → Bytes
unfolding with_task
command_line se = if is_empty se.task then se.command else with_task se.task_arg se.command se.task

unfoldable pub inner : SpawnEnv → List Bytes → Bytes
unfolding assignments command_line
inner se environ =
    codes "exec env " ++ (join (b' ' ∷ []) (assignments se environ) ++ (b' ' ∷ command_line se))

-- `shell` is the variable `SHELL`.
unfoldable pub spawn_payload : Bytes → SpawnEnv → List Bytes → Bytes
unfolding inner
spawn_payload shell se environ =
    (if is_empty shell then codes "/bin/sh" else shell)
    ++ (codes " -lic " ++ shell_escape (inner se environ))

-- What tmux answers, where it answers with something.
abbrev pub answered : Option Bytes → Option Bytes → Option Bytes
answered none next = next
answered (some v) next = if is_empty v then next else some v

-- `resolveHarness`; `run` is the tmux runner.
unfoldable pub resolve_harness : Bytes → Bytes → (List Bytes → Option Bytes) → Option Bytes
resolve_harness flag_val env_val run =
    if not (is_empty flag_val)
    then some flag_val
    else if not (is_empty env_val)
    then some env_val
    else answered (run (codes "show-option" ∷ codes "-qv" ∷ codes "@mure-harness" ∷ []))
        (answered (run (codes "show-option" ∷ codes "-gqv" ∷ codes "@mure-harness" ∷ [])) none)
