-- ===== src/Daemon/Lifecycle.antt =====
-- internal/daemon/server.go: `Listen`, `Run` and `Shutdown` of several daemons over one socket path,
-- a system call at a time. A daemon is named by a number; package net and package os are what they
-- do to the path: a bind fails where a socket is, and a listener that closes unlinks the path.
pub mod At
pub mod Exclusive
pub mod Start
pub mod Races
use mure.Base.{
  ℕ, Bool, true, false, ◌&&◌, List, [], ◌∷◌, Option, none, some, Bytes, if◌then◌else◌, ◌==◌,
}
use mure.Sock.{max_frame_size}
use mure.Sock.Frame.{Outcome, frame, read_frame}

-- Where a daemon is. `clashed`: its first bind failed. `stale`: so did its ping. `unlinked`: it has
-- removed the socket and binds again. `ending`: its accept loop has returned.
pub data Phase : Type 0 where
  started dir_made clashed stale unlinked bound serving ending ended refused failed : Phase

-- Whose listener the socket at the path belongs to, be that still open or not.
pub record Host : Type 0 where
  pub path : Option ℕ
  pub phase : ℕ → Phase

-- What a ping meets until its deadline.
pub record Ping : Type 0 where
  pub dials : Bool
  pub takes_hello : Bool
  pub chunks : List (Bytes × Bool)

abbrev pub is_frame : Outcome → Bool
is_frame (frame b) = true
is_frame _ = false

unfoldable pub ping_socket : Ping → Bool
ping_socket r = r.dials && (r.takes_hello && is_frame (read_frame max_frame_size r.chunks).0)

abbrev pub become : ℕ → Phase → Host → Host
become p x h = record h { phase = λ i. if i == p then x else h.phase i }

-- `net.Listen`, where the flag says whether all but the path allows it.
abbrev pub bind : ℕ → Bool → Phase → Option ℕ → Host → Host
bind p true other none h = become p bound (record h { path = some p })
bind p _ other _ h = become p other h

abbrev pub unlink : Host → Host
unlink h = record h { path = none }

-- A call has an effect only where the daemon is at it.
unfoldable pub on_mkdir : ℕ → Bool → Phase → Host → Host
on_mkdir p ok started h = become p (if ok then dir_made else failed) h
on_mkdir p ok _ h = h

unfoldable pub on_listen : ℕ → Bool → Phase → Host → Host
on_listen p ok dir_made h = bind p ok clashed h.path h
on_listen p ok unlinked h = bind p ok failed h.path h
on_listen p ok _ h = h

unfoldable pub on_ping : ℕ → Ping → Phase → Host → Host
unfolding ping_socket
on_ping p r clashed h = become p (if ping_socket r then refused else stale) h
on_ping p r _ h = h

-- `os.Remove`, before the second bind or behind the accept loop.
unfoldable pub on_remove : ℕ → Phase → Host → Host
on_remove p stale h = become p unlinked (unlink h)
on_remove p ending h = become p ended (unlink h)
on_remove p _ h = h

-- `os.Chmod` of the socket, and the close where it fails.
unfoldable pub on_chmod : ℕ → Bool → Phase → Host → Host
on_chmod p ok bound h = if ok then become p serving h else become p failed (unlink h)
on_chmod p ok _ h = h

-- `Shutdown`, or a context that is done: the listener closes, and `Accept` returns `ErrClosed`.
unfoldable pub on_close : ℕ → Phase → Host → Host
on_close p serving h = become p ending (unlink h)
on_close p _ h = h

-- `Accept` fails otherwise: `Run` returns, with the listener open.
unfoldable pub on_break : ℕ → Phase → Host → Host
on_break p serving h = become p ending h
on_break p _ h = h

pub data Call : Type 0 where
  makes_dir listens chmods : ℕ → Bool → Call
  pings : ℕ → Ping → Call
  removes closes breaks : ℕ → Call

unfoldable pub perform : Call → Host → Host
unfolding on_mkdir on_listen on_ping on_remove on_chmod on_close on_break
perform (makes_dir p ok) h = on_mkdir p ok (h.phase p) h
perform (listens p ok) h = on_listen p ok (h.phase p) h
perform (chmods p ok) h = on_chmod p ok (h.phase p) h
perform (pings p r) h = on_ping p r (h.phase p) h
perform (removes p) h = on_remove p (h.phase p) h
perform (closes p) h = on_close p (h.phase p) h
perform (breaks p) h = on_break p (h.phase p) h

abbrev pub perform_all : List Call → Host → Host
perform_all [] h = h
perform_all (c ∷ cs) h = perform_all cs (perform c h)

-- The calls of `Listen`, where those of package os succeed.
abbrev pub listen_calls : ℕ → Ping → List Call
listen_calls p r =
    makes_dir p true ∷ listens p true ∷ pings p r ∷ removes p ∷ listens p true ∷ chmods p true ∷ []
