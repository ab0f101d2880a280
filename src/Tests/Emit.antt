-- ===== src/Tests/Emit.antt =====
-- Hooks of an agent: a status, and a result that is too long for a frame.
use mure.Base.{ℕ, ◌≡◌, ◌<◌, refl, true, [], ◌∷◌, none, some, Bytes, codes, equal, arith, length}
use mure.Base.Int.{ℤ, pos, equal_ℤ}
use mure.Base.Dict.{lookup}
use mure.Base.Strings.{has_prefix}
use mure.Sock.{valid_status, max_frame_size}
use mure.Sock.Codec.{Codec}
use mure.Sock.Frame.{read_frame, decode_envelope, decoded_event}
use mure.Sock.Frame.Chunks.{arriving}
use mure.Daemon.Roster.{AgentState, empty_core}
use mure.Daemon.Roster.Lookup.{entry}
use mure.Daemon.Server.{line, fails, handle_agent, by_role, agent}
use mure.Daemon.Server.Agent.{after}
use mure.Sidebar.Layout.{replicate}
use mure.Tests.Crowded.{length-replicate}
use mure.Cmd.Emit.{
  Environment, hello, status, result, emit_hello, emit_status, emit_result, parse_arguments,
  status_frame, result_frame, emit,
}
use mure.Cmd.Emit.Session.{IsSession, emit-IsSession}
use mure.Cmd.Emit.Delivery.{input_of, held_result, emit_status-delivered, emit_result_too_long}

abbrev environment : Bytes → Environment
environment text = record {
  socket = codes "/s";
  agent_id = codes "a";
  pane_id = codes "%1";
  tmux_pane = [];
  tmux = [];
  role = codes "scout";
  displayed = none;
  stdin = some text;
  dials = true;
  takes_hello = true;
  takes_frame = true;
  hello_time = pos 7;
  frame_time = pos 8;
}

-- A line is the name of its event.
abbrev codec : Codec
codec = record {
  envelope = λ b. some (record { v = pos 1; event = b });
  hello = λ b. none;
  status = λ b. some (status_frame (environment []) (codes "working") (codes "bash"));
  result = λ b. none;
  wait = λ b. none;
}

abbrev clock : ℕ → ℤ
clock n = pos n

emit_status-delivered_example :
    (valid_status (codes "working") ≡ true)
    × ((emit_status (environment []) (codes "working" ∷ codes "--tool" ∷ codes "bash" ∷ [])).frames
        ≡ hello (emit_hello (environment []))
          ∷ status (status_frame (environment []) (codes "working") (codes "bash"))
          ∷ [])
    × (by_role (some (emit_hello (environment []))) ≡ agent (emit_hello (environment [])))
    × ((a : AgentState) × (entry (codes "a") (
            after clock empty_core (
              handle_agent codec
                (emit_hello (environment []))
                (line (codes "status") ∷ fails ∷ [])))
          ≡ some a)
        × (a.status ≡ codes "working"))
    × (entry (codes "b") (
          after clock empty_core
            (handle_agent codec (emit_hello (environment [])) (line (codes "status") ∷ fails ∷ [])))
        ≡ none)
unfolding parse_arguments emit_status equal has_prefix valid_status decode_envelope decoded_event
    equal_ℤ lookup
emit_status-delivered_example =
    emit_status-delivered codec (environment [])
      (codes "working" ∷ codes "--tool" ∷ codes "bash" ∷ []) (codes "working") (codes "bash")
      (codes "status") clock empty_core (codes "b") refl refl refl refl refl

-- A text of `n` bytes for an `n` over the limit; the line that arrives is the text.
unfoldable long_text : Bytes
long_text = replicate 65537 b'x'

long_text-IsLong : max_frame_size < length long_text
unfolding long_text
long_text-IsLong = omega (arith, length-replicate 65537 b'x')

emit_result_too_long_example :
    ((emit_result (environment long_text) (codes "-" ∷ [])).frames
      ≡ hello (emit_hello (environment long_text))
        ∷ result (result_frame (environment long_text) long_text)
        ∷ [])
    × (held_result (
          entry (codes "a") (
            after clock empty_core (
              handle_agent codec
                (emit_hello (environment long_text))
                (input_of (read_frame max_frame_size (arriving [] long_text [])).0 ∷ []))))
        ≡ [])
unfolding emit_result equal lookup
emit_result_too_long_example =
    emit_result_too_long codec (environment long_text) long_text [] long_text [] clock empty_core
      (codes "a") refl refl long_text-IsLong (omega arith)

emit-IsSession_example :
    let sent = emit (environment (codes "done")) (codes "status" ∷ codes "idle" ∷ []) in
    IsSession sent.code sent.frames
emit-IsSession_example =
    emit-IsSession (environment (codes "done")) (codes "status" ∷ codes "idle" ∷ [])
