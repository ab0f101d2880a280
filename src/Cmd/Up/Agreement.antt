-- ===== src/Cmd/Up/Agreement.antt =====
-- The daemon that `mure up` forks and the command that looks for it.
use mure.Base.{
  ◌≡◌, sym, ap, ◌∙◌, true, false, Option, none, some, Bytes, codes, equal, is_empty, if◌then◌else◌,
  arith,
}
use mure.Cmd.Up.{
  Process, System, resolve_session, runtime_dir, socket_in, resolve_socket, child_process, Config,
  config_of, run_daemon, Outside, ping_daemon, already_running, started, cmd_up,
}
use mure.Cmd.Up.Child.{daemon_session, child-session, child-socket}

configured :
    (sys : System) (q : Process) (name : Bytes) (o : Option Bytes) (c : Config)
    → config_of sys q name o ≡ some c
    → (c.session ≡ name)
      × (c.socket_path ≡ (if is_empty q.mure_socket then socket_in sys o else q.mure_socket))
      × (is_empty c.socket_path ≡ false)
configured sys q name none c h = cc
configured sys q name (some dir) c h = (ground arith, ground arith, ground arith)

started-child :
    (sys : System) (o : Outside) (p child : Process)
    → cmd_up sys o p ≡ started child
    → (child ≡ child_process sys p o.cwd) × (equal p.mure_daemon (codes "1") ≡ false)
unfolding cmd_up
started-child sys o p child h = (ground arith, ground arith)

abbrev socket_of : System → Bytes → Bytes → Bytes
socket_of sys path name = if is_empty path then socket_in sys (runtime_dir sys name) else path

socket_of-resolve_socket :
    (sys : System) (p : Process)
    → socket_of sys p.mure_socket (resolve_session sys p) ≡ resolve_socket sys p
unfolding resolve_socket
socket_of-resolve_socket sys p = ground arith

ping_daemon-answered :
    (o : Outside) (path : Bytes)
    → is_empty path ≡ false
    → o.pings path ≡ true
    → ping_daemon o path ≡ true
unfolding ping_daemon
ping_daemon-answered o path e a = rw (e, a)

finds_running :
    (sys : System) (o : Outside) (p : Process)
    → equal p.mure_daemon (codes "1") ≡ false
    → ping_daemon o (resolve_socket sys p) ≡ true
    → cmd_up sys o p ≡ already_running
unfolding cmd_up
finds_running sys o p parent a = rw (parent, a)

-- Where `mure up` starts a daemon and that comes to its configuration, and tmux and the system answer
-- all alike, the daemon is for the session, and listens at the socket, that a command in the
-- environment of the `mure up` resolves; and once it answers there, a second `mure up` in that
-- environment finds it running and starts none.
pub cmd_up-reentrant :
    (sys : System) (o later : Outside) (p child : Process) (c : Config)
    → cmd_up sys o p ≡ started child
    → run_daemon sys child ≡ some c
    → later.pings c.socket_path ≡ true
    → (c.session ≡ resolve_session sys p)
      × (c.socket_path ≡ resolve_socket sys p)
      × (cmd_up sys later p ≡ already_running)
unfolding run_daemon
cmd_up-reentrant sys o later p child c up run answers =
    let (e, parent) = started-child sys o p child up in
    let name : daemon_session child.mure_session ≡ resolve_session sys p =
      ap (λ q. daemon_session q.mure_session) e ∙ child-session sys p o.cwd in
    let kept : child.mure_socket ≡ p.mure_socket =
      ap (λ q. q.mure_socket) e ∙ child-socket sys p o.cwd in
    let found = configured sys child (daemon_session child.mure_session) _ c run in
    let socket : c.socket_path ≡ resolve_socket sys p =
      found.1
      ∙ ap (λ m. socket_of sys m (daemon_session child.mure_session)) kept
      ∙ ap (socket_of sys p.mure_socket) name
      ∙ socket_of-resolve_socket sys p in
    (
      found.0 ∙ name,
      socket,
      finds_running sys later p parent (
          ap (ping_daemon later) (sym socket)
          ∙ ping_daemon-answered later c.socket_path found.2 answers),
    )
