-- ===== src/Lib.antt =====
-- A model of mure, which runs coding agents in tmux panes and shows them in a sidebar.
--
-- The parts and their files:
-- - Sock (internal/sock/types.go, frame.go): the frames of the wire protocol, WriteFrame,
--   ReadFrame and DecodeEnvelope. encoding/json is a record of functions, Sock.Codec, and bufio.Reader
--   is the list of what its ReadLine returns; Sock.Frame.Stream is that list for a stream of bytes.
-- - Daemon.Roster (internal/daemon/roster.go): the registry of agents. rosterCore is the state, each
--   closure that a method submits is a function on it, and `run` runs the requests in the order in
--   which they come off the channel. A subscriber is a place in a list, its channel a queue with a
--   closed flag and a mark for what Go would panic at (Roster.Buffer). A request that reads the clock
--   has the time as an argument. Roster.Lookup, Roster.Latest, Roster.Invariant and Roster.Replica are the proofs.
-- - Daemon.Server (internal/daemon/server.go): what a connection's handler asks of the registry, as a
--   function of the outcomes of its reads; handleWait and handleSidebar over the registry's steps.
-- - Daemon.Lifecycle (internal/daemon/server.go): Listen, pingSocket, Shutdown and the end of Run, as
--   the system calls of several daemons over one socket path, in any order. A bind fails where a
--   socket is, a listener that closes unlinks the path, and a remove unlinks whichever socket is there.
--   Daemon.Connections is the accept loop, trackConn and the deferred function of Run.
-- - Daemon.Bridge (internal/daemon/tmuxbridge.go): which agents a tick of the poll removes.
-- - Daemon.Log (internal/daemon/log.go): the rotating log over the contents of its two files, with the
--   outcomes of the system calls as an argument.
-- - Tmuxctl.Parse and Tmuxctl.Client (internal/tmuxctl/parse.go, client.go): the lines of tmux's control
--   mode, and the reader and writer goroutines as steps on the state that they share.
-- - Sidebar (internal/sidebar/model.go, client.go, theme.go, themes.go): Update and its handlers, the
--   order of the agents, the layout by height over any kind of line, the glyph and the age of a row, and
--   the reconnecting client. Sidebar.View is View with the rows, cards, details, footer and theme picker
--   that it renders, as the visible runes of each line. Sidebar.Logo is RenderLogo with the colours of
--   its runes; the operations on float64 are a record of functions.
-- - Cmd (cmd/mure/spawn.go, spawn_target.go, emit.go, wait.go, ls.go, integration.go,
--   internal/harnesses/taskarg.go): the command line of a new pane and its quoting, the window that
--   it goes to, and the calls of `mure spawn`, over a tmux runner, what `mure emit` sends for a list
--   of arguments and an environment, what `mure wait` and `mure ls` read and print, and `mure
--   integration` install and uninstall.
-- - Cmd.Up, Cmd.Down, Cmd.Focus and Cmd.Doctor (cmd/mure/socket.go, up.go, down.go, focus.go,
--   doctor.go, internal/daemon/paths.go and the configuration of daemon.go): which session and socket a
--   process resolves from its environment, the environment and the configuration of the daemon that
--   `mure up` forks, the frames of `mure down`, the pane that `mure focus` selects, and the report of
--   `mure doctor`. Cmd.Verbs (main.go) is the choice of the command.
-- - Harnesses (internal/harnesses/registry.go, manifest.go, plan.go, markers.go, apply.go,
--   uninstall.go, state.go): which manifests are loaded, the files that a plan writes, the marked block
--   in a file of the user, Apply and Uninstall over the files that there are, and the receipts that are
--   kept. TOML, JSON, path.Join and the hash are parameters or are taken at what they document.
-- - Base: texts as lists of codes, association lists, and the functions of Go's package strings.
-- - Tests: concrete runs.
--
-- The server turns lines into requests of the registry; the registry sends updates to subscribers,
-- which are the sidebars and the waiting clients; the sidebar's client hands the frames to its model.
-- `mure emit` is the agents' side of the server. A manifest becomes a plan, which Apply carries out, and
-- the receipt that Apply returns is what Uninstall takes back.
--
-- Interleavings are lists of events and steps, taken in any order. The expansion of variables has as
-- much fuel as its text has bytes, and a number has at most 20 digits; the other functions recur on
-- their input. Integers of the wire are unbounded, lengths and counts are natural numbers. The version
-- numbers of `mure doctor` are held to the largest int by Atoi, and the delays of the sidebar's client
-- wrap around as int64 does; no other code modelled here computes near the bounds of its types.
--
-- Not modelled: the colours of lines other than the logo; deadlines, which are reads that fail; the
-- process of tmux and the caller's selects in the control-mode client; the directories that an
-- installation makes and removes; the embedded files of the harnesses; the command sidebar under
-- cmd/mure.
pub mod Base
pub mod Sock
pub mod Daemon
pub mod Tmuxctl
pub mod Sidebar
pub mod Cmd
pub mod Harnesses
pub mod Tests
