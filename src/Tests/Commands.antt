-- ===== src/Tests/Commands.antt =====
-- `mure up`, `mure focus` and `mure down` in a tmux session.
use mure.Base.{
  All, ◌≡◌, refl, Bool, true, false, List, [], ◌∷◌, ◌++◌, Option, none, some, Bytes, codes, equal,
  if◌then◌else◌, ◌==◌,
}
use mure.Base.Strings.{has_prefix, trim_space, cut, join}
use mure.Cmd.Up.{
  Process, System, tmux_cmd, resolve_session, resolve_socket, runtime_dir, Config, Outside,
  already_running, cmd_up,
}
use mure.Cmd.Up.Agreement.{cmd_up-reentrant}
use mure.Base.Int.{pos, equal_ℤ}
use mure.Sock.Codec.{Codec}
use mure.Sock.Frame.{decode_envelope, decoded_event}
use mure.Daemon.Server.{cli, line, fails, handle, handle_cli}
use mure.Daemon.Lifecycle.{Host, Phase, serving, ended, perform_all}
use mure.Cmd.Down.{
  Link, greeting, shutdown, cli_hello, shutdown_frame, cmd_down, calls_of, cmd_down-ends,
}
use mure.Cmd.Focus.{cmd_focus}
use mure.Cmd.Focus.Marks.{marked, bare, first_marked, IsLine, Selects, cmd_focus-first_marked}

-- The session is `work`, and the first of its two panes has the mark of an agent.
abbrev answers : List Bytes → Option Bytes
answers (a ∷ args) =
    if equal a (codes "display-message")
    then some (codes "work" ++ (b'\n' ∷ []))
    else if equal a (codes "list-panes")
    then some (codes "%1 scout" ++ (b'\n' ∷ (codes "%2 " ++ (b'\n' ∷ []))))
    else some []
answers _ = some []

abbrev system : System
system = record {
  darwin = false;
  home = none;
  xdg_runtime_dir = codes "/run";
  temp_dir = codes "/tmp";
  uid = codes "1000";
  path_join = λ a b. a ++ (codes "/" ++ b);
  make_dir = λ p. true;
  tmux = answers;
}

abbrev shell : Process
shell = record {
  mure_daemon = [];
  mure_socket = [];
  mure_session = [];
  mure_launch_dir = [];
  mure_tmux_socket = [];
  tmux_variable = codes "/t,1,0";
}

abbrev outside : Bool → Outside
outside up = record {
  pings = λ path. up;
  finds_executable = true;
  forks = true;
  cwd = some (codes "/w");
}

abbrev child : Process
child = record {
  mure_daemon = codes "1";
  mure_socket = [];
  mure_session = codes "work";
  mure_launch_dir = codes "/w";
  mure_tmux_socket = codes "/t";
  tmux_variable = codes "/t,1,0";
}

abbrev config : Config
config = record {
  session = codes "work";
  socket_path = codes "/run/mure/work/daemon.sock";
  run_dir = codes "/run/mure/work";
  launch_dir = codes "/w";
  attach = some (codes "-S" ∷ codes "/t" ∷ codes "attach" ∷ codes "-t" ∷ codes "work" ∷ []);
}

cmd_up-reentrant_example :
    (config.session ≡ resolve_session system shell)
    × (config.socket_path ≡ resolve_socket system shell)
    × (cmd_up system (outside true) shell ≡ already_running)
unfolding cmd_up runtime_dir resolve_session resolve_socket tmux_cmd equal trim_space cut
cmd_up-reentrant_example =
    cmd_up-reentrant system (outside false) (outside true) shell child config refl refl refl

abbrev marked_lines : All IsLine (marked (codes "%1") (codes "scout") ∷ bare (codes "%2") ∷ [])
marked_lines = (
  ((refl, (refl, tt)), (refl, (refl, (refl, (refl, (refl, (refl, (refl, (refl, tt))))))))),
  (((refl, (refl, tt)), (refl, (refl, tt))), tt),
)

cmd_focus-first_marked_example :
    Selects system shell
      (first_marked (codes "scout") (marked (codes "%1") (codes "scout") ∷ bare (codes "%2") ∷ []))
      (cmd_focus system shell (codes "scout" ∷ []))
unfolding tmux_cmd equal trim_space has_prefix join
cmd_focus-first_marked_example =
    cmd_focus-first_marked system shell (codes "scout") (marked (codes "%1") (codes "scout"))
      (bare (codes "%2") ∷ []) refl refl marked_lines

-- The lines `h` and `s` stand for the two frames.
abbrev codec : Codec
codec = record {
  envelope = λ b. some (record {
    v = pos 1;
    event = if equal b (codes "h") then codes "hello" else codes "shutdown";
  });
  hello = λ b. some cli_hello;
  status = λ b. none;
  result = λ b. none;
  wait = λ b. none;
}

abbrev link : Link
link = record { path = codes "/s"; dials = true; takes_hello = true; takes_shutdown = true }

abbrev one_daemon : Host
one_daemon = record { path = some 7; phase = λ i. if i == 7 then serving else Phase.started }

cmd_down-ends_example :
    let h' =
      perform_all
        (calls_of 7 (handle_cli codec (λ n. true) (line (codes "s") ∷ fails ∷ [])))
        one_daemon in
    ((cmd_down link).1 ≡ greeting cli_hello ∷ shutdown shutdown_frame ∷ [])
    × (handle codec true (line (codes "h")) ≡ cli cli_hello)
    × (h'.phase 7 ≡ ended)
    × (h'.path ≡ none)
unfolding cmd_down decode_envelope decoded_event equal_ℤ equal
cmd_down-ends_example =
    cmd_down-ends codec link (λ n. true) (codes "h") (codes "s") 7 one_daemon refl refl refl refl
      refl refl
