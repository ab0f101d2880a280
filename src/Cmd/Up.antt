-- ===== src/Cmd/Up.antt =====
-- cmd/mure/socket.go and up.go, with internal/daemon/paths.go: which socket a command dials, and the
-- daemon that `mure up` forks. Package os, exec and filepath are what they return.
pub mod Agreement
pub mod Child
use mure.Base.{
  Bool, true, false, not, ◌||◌, List, [], ◌∷◌, ◌++◌, Option, none, some, Bytes, codes, equal,
  is_empty, if◌then◌else◌,
}
use mure.Base.Strings.{trim_space, cut}

-- The variables of the environment that the code reads.
pub record Process : Type 0 where
  pub mure_daemon : Bytes
  pub mure_socket : Bytes
  pub mure_session : Bytes
  pub mure_launch_dir : Bytes
  pub mure_tmux_socket : Bytes
  pub tmux_variable : Bytes

-- What is the same for a process and its child: `uid` is in decimal digits, `make_dir` tells whether
-- `MkdirAll` succeeds, and `tmux` is the output of a run of tmux that exits with 0.
pub record System : Type 0 where
  pub darwin : Bool
  pub home : Option Bytes
  pub xdg_runtime_dir : Bytes
  pub temp_dir : Bytes
  pub uid : Bytes
  pub path_join : Bytes → Bytes → Bytes
  pub make_dir : Bytes → Bool
  pub tmux : List Bytes → Option Bytes

-- The arguments of tmux, on the server that `MURE_TMUX_SOCKET` names.
unfoldable pub tmux_args : Process → List Bytes → List Bytes
tmux_args p args =
    if is_empty p.mure_tmux_socket then args else codes "-S" ∷ p.mure_tmux_socket ∷ args

abbrev pub trimmed : Option Bytes → Option Bytes
trimmed none = none
trimmed (some out) = some (trim_space out)

unfoldable pub tmux_cmd : System → Process → List Bytes → Option Bytes
unfolding tmux_args
tmux_cmd sys p args = trimmed (sys.tmux (tmux_args p args))

abbrev pub session_args : List Bytes
session_args = codes "display-message" ∷ codes "-p" ∷ codes "#S" ∷ []

abbrev pub or_default : Option Bytes → Bytes
or_default none = codes "default"
or_default (some out) = if is_empty (trim_space out) then codes "default" else trim_space out

unfoldable pub resolve_session : System → Process → Bytes
unfolding tmux_args
resolve_session sys p =
    if not (is_empty p.mure_session)
    then p.mure_session
    else if is_empty p.tmux_variable
    then codes "default"
    else or_default (sys.tmux (tmux_args p session_args))

abbrev pub in_caches : System → Option Bytes → Option Bytes
in_caches sys none = none
in_caches sys (some home) = some (
    sys.path_join (sys.path_join (sys.path_join home (codes "Library")) (codes "Caches"))
      (codes "mure"))

unfoldable pub runtime_base : System → Option Bytes
runtime_base sys =
    if sys.darwin
    then in_caches sys sys.home
    else if not (is_empty sys.xdg_runtime_dir)
    then some (sys.path_join sys.xdg_runtime_dir (codes "mure"))
    else some (sys.path_join sys.temp_dir (codes "mure-" ++ sys.uid))

abbrev pub made : System → Bytes → Option Bytes → Option Bytes
made sys session none = none
made sys session (some base) =
    if sys.make_dir (sys.path_join base session) then some (sys.path_join base session) else none

unfoldable pub runtime_dir : System → Bytes → Option Bytes
unfolding runtime_base
runtime_dir sys session = if is_empty session then none else made sys session (runtime_base sys)

abbrev pub socket_path : System → Bytes → Bytes
socket_path sys run_dir = sys.path_join run_dir (codes "daemon.sock")

abbrev pub socket_in : System → Option Bytes → Bytes
socket_in sys none = []
socket_in sys (some run_dir) = socket_path sys run_dir

unfoldable pub resolve_socket : System → Process → Bytes
resolve_socket sys p =
    if not (is_empty p.mure_socket)
    then p.mure_socket
    else socket_in sys (runtime_dir sys (resolve_session sys p))

-- The variables that `mure up` may set for its child; where one is set twice the last holds.
pub data Variable : Type 0 where
  daemon launch_dir tmux_socket session : Variable

abbrev pub set_variable : Variable → Bytes → Process → Process
set_variable daemon v p = record p { mure_daemon = v }
set_variable launch_dir v p = record p { mure_launch_dir = v }
set_variable tmux_socket v p = record p { mure_tmux_socket = v }
set_variable session v p = record p { mure_session = v }

abbrev pub set_all : List (Variable × Bytes) → Process → Process
set_all [] p = p
set_all ((x, v) ∷ xs) p = set_all xs (set_variable x v p)

-- `name=value`, where there is a value and it is not empty.
abbrev pub unless_empty : Variable → Option Bytes → List (Variable × Bytes)
unless_empty x none = []
unless_empty x (some v) = if is_empty v then [] else (x, v) ∷ []

unfoldable pub env_extra : System → Process → Option Bytes → List (Variable × Bytes)
env_extra sys p cwd =
    (daemon, codes "1")
    ∷ ((if is_empty p.mure_launch_dir then unless_empty launch_dir cwd else [])
        ++ (if is_empty p.tmux_variable
            then []
            else (if is_empty p.mure_tmux_socket
                then unless_empty tmux_socket (some (cut b',' p.tmux_variable).0)
                else [])
              ++ (if is_empty p.mure_session
                  then unless_empty session (tmux_cmd sys p session_args)
                  else [])))

unfoldable pub child_process : System → Process → Option Bytes → Process
unfolding env_extra
child_process sys p cwd = set_all (env_extra sys p cwd) p

-- `Config`; `attach` is the arguments of the tmux client, if there is one.
pub record Config : Type 0 where
  pub session : Bytes
  pub socket_path : Bytes
  pub run_dir : Bytes
  pub launch_dir : Bytes
  pub attach : Option (List Bytes)

abbrev pub config_in : System → Process → Bytes → Bytes → Config
config_in sys p name dir = record {
  session = name;
  socket_path = if is_empty p.mure_socket then socket_path sys dir else p.mure_socket;
  run_dir = dir;
  launch_dir = p.mure_launch_dir;
  attach =
      if is_empty p.mure_tmux_socket
      then none
      else some (codes "-S" ∷ p.mure_tmux_socket ∷ codes "attach" ∷ codes "-t" ∷ name ∷ []);
}

-- The first test of `Run`.
abbrev pub is_complete : Config → Bool
is_complete c = not (is_empty c.session || is_empty c.socket_path || is_empty c.run_dir)

abbrev pub config_of : System → Process → Bytes → Option Bytes → Option Config
config_of sys p name none = none
config_of sys p name (some dir) =
    let c = config_in sys p name dir in if is_complete c then some c else none

-- `runDaemon`, up to the logger of `Run`: the configuration that it goes on with, if `Dial` succeeds.
unfoldable pub run_daemon : System → Process → Option Config
run_daemon sys p =
    let name = if is_empty p.mure_session then codes "default" else p.mure_session in
    config_of sys p name (runtime_dir sys name)

-- Whether a daemon answers at a path, whether the executable is found, and whether it starts.
pub record Outside : Type 0 where
  pub pings : Bytes → Bool
  pub finds_executable : Bool
  pub forks : Bool
  pub cwd : Option Bytes

unfoldable pub ping_daemon : Outside → Bytes → Bool
ping_daemon o path = if is_empty path then false else o.pings path

pub data Up : Type 0 where
  becomes_daemon : Option Config → Up
  already_running fails : Up
  started : Process → Up

unfoldable pub cmd_up : System → Outside → Process → Up
unfolding ping_daemon child_process run_daemon
cmd_up sys o p =
    if equal p.mure_daemon (codes "1")
    then becomes_daemon (run_daemon sys p)
    else if ping_daemon o (resolve_socket sys p)
    then already_running
    else if not o.finds_executable
    then fails
    else if not o.forks
    then fails
    else started (child_process sys p o.cwd)
