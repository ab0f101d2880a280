-- ===== src/Cmd/Down.antt =====
-- cmd/mure/down.go: the frames of `mure down`, and what the daemon does with them.
use mure.Base.{
  ℕ, ◌≡◌, refl, ◌∙◌, Bool, true, false, not, List, [], ◌∷◌, none, some, Bytes, codes, equal,
  is_empty, if◌then◌else◌, arith, ap,
}
use mure.Base.Int.{pos}
use mure.Sock.{Hello, protocol_version, role_cli}
use mure.Sock.Codec.{Codec, Envelope}
use mure.Sock.Frame.{decode_envelope}
use mure.Daemon.Server.{
  cli, line, fails, handle, handle_cli, CliAction, writes_snapshot, shuts_down, waits_for,
}
use mure.Daemon.Lifecycle.{serving, ended, Host, Call, removes, closes, perform_all}
use mure.Daemon.Lifecycle.At.{At, close-At, end-At}

-- The socket that `resolveSocket` finds, and whether the daemon answers the dial and takes each
-- frame.
pub record Link : Type 0 where
  pub path : Bytes
  pub dials : Bool
  pub takes_hello : Bool
  pub takes_shutdown : Bool

pub data Sent : Type 0 where
  greeting : Hello → Sent
  shutdown : Envelope → Sent

-- The hello of `dialHello`; what it leaves out is empty.
abbrev pub cli_hello : Hello
cli_hello = record {
  v = pos protocol_version;
  event = codes "hello";
  role = role_cli;
  agent_id = [];
  pane_id = [];
  agent_role = [];
  pid = pos 0;
  pi_version = [];
  ts = pos 0;
  oneshot = false;
}

abbrev pub shutdown_frame : Envelope
shutdown_frame = record { v = pos protocol_version; event = codes "shutdown" }

-- The exit code and the frames that were sent. The read in between is not looked at.
unfoldable pub cmd_down : Link → ℕ × List Sent
cmd_down link =
    if is_empty link.path
    then (1, [])
    else if not link.dials
    then (1, [])
    else if not link.takes_hello
    then (1, [])
    else if not link.takes_shutdown
    then (1, greeting cli_hello ∷ [])
    else (0, greeting cli_hello ∷ shutdown shutdown_frame ∷ [])

-- The calls of the daemon `q` for the actions of a handler, and the end of its `Run`.
abbrev pub calls_of : ℕ → List CliAction → List Call
calls_of q [] = []
calls_of q (shuts_down ∷ as') = closes q ∷ removes q ∷ calls_of q as'
calls_of q (writes_snapshot ∷ as') = calls_of q as'
calls_of q (waits_for id ∷ as') = calls_of q as'

sent_both :
    (link : Link)
    → (cmd_down link).0 ≡ 0
    → (cmd_down link).1 ≡ greeting cli_hello ∷ shutdown shutdown_frame ∷ []
unfolding cmd_down
sent_both link e = ground arith

shutdown_actions :
    (codec : Codec) (writes : ℕ → Bool) (b : Bytes)
    → writes 0 ≡ true
    → decode_envelope codec b ≡ some (codes "shutdown")
    → handle_cli codec writes (line b ∷ fails ∷ []) ≡ writes_snapshot ∷ shuts_down ∷ []
unfolding handle_cli equal
shutdown_actions codec writes b w d = rw (w, d)

handle-cli :
    (codec : Codec) (b : Bytes)
    → decode_envelope codec b ≡ some (codes "hello")
    → codec.hello b ≡ some cli_hello
    → handle codec true (line b) ≡ cli cli_hello
unfolding handle equal
handle-cli codec b d e = rw (d, e)

-- Where `mure down` exits with 0 it has sent a hello and a shutdown; a daemon that accepts the peer
-- and reads them as such, and whose snapshot is written, takes it for a command, and ends: its listener closes, and the path is left
-- with no socket.
pub cmd_down-ends :
    (codec : Codec) (link : Link) (writes : ℕ → Bool) (b b' : Bytes) (q : ℕ) (h : Host)
    → writes 0 ≡ true
    → (cmd_down link).0 ≡ 0
    → decode_envelope codec b ≡ some (codes "hello")
    → codec.hello b ≡ some cli_hello
    → decode_envelope codec b' ≡ some (codes "shutdown")
    → h.phase q ≡ serving
    → let h' = perform_all (calls_of q (handle_cli codec writes (line b' ∷ fails ∷ []))) h in
      ((cmd_down link).1 ≡ greeting cli_hello ∷ shutdown shutdown_frame ∷ [])
      × (handle codec true (line b) ≡ cli cli_hello)
      × (h'.phase q ≡ ended)
      × (h'.path ≡ none)
cmd_down-ends codec link writes b b' q h w e d k s serves =
    let begun : At h q serving h.path h = record {
      here = serves;
      path = refl;
      rest = λ i o. refl;
    } in
    let over = end-At (close-At begun) in
    let does = ap (λ as'. perform_all (calls_of q as') h) (shutdown_actions codec writes b' w s) in
    (
      sent_both link e,
      handle-cli codec b d k,
      ap (λ x. x.phase q) does ∙ over.here,
      ap (λ x. x.path) does ∙ over.path,
    )
