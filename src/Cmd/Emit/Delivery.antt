-- ===== src/Cmd/Emit/Delivery.antt =====
-- What the frames of `mure emit` do to the daemon's registry.
use mure.Base.{
  ℕ, ◌<◌, ◌≤◌, ◌≡◌, refl, ap, ◌∙◌, Bool, true, false, List, [], ◌∷◌, Option, none, some, Bytes,
  codes, equal, equal_refl, if◌then◌else◌, arith, length,
}
use mure.Base.Int.{ℤ}
use mure.Sock.{Hello, valid_status, role_agent, max_frame_size}
use mure.Sock
use mure.Sock.Codec.{Codec}
use mure.Sock.Frame.{Outcome, frame, frame_too_large, read_frame, decode_envelope}
use mure.Sock.Frame.Chunks.{arriving, joined, read_frame-arriving}
use mure.Daemon.Roster.{
  RosterCore, AgentState, Event, exec, run, updates_identity, applies_status, with_status,
  apply_hello_identity,
}
use mure.Daemon.Roster.Lookup.{entry, updated, is_about, exec-entry, exec-entry_self}
use mure.Daemon.Server.{
  Input, line, fails, Request, identify, agent, by_role, on_event, agent_loop, handle_agent,
}
use mure.Daemon.Server.Agent.{after}
use mure.Cmd.Emit.{
  Environment, hello, status, result, emit_hello, emit_status, emit_parsed, parse_arguments,
  send_oneshot, status_frame, result_frame, emit_result, emit_body,
}

-- What the handler's loop makes of what `ReadFrame` returns.
abbrev pub input_of : Outcome → Input
input_of (frame b) = line b
input_of _ = fails

emit_status-sent :
    (env : Environment) (argv : List Bytes) (s tool : Bytes)
    → parse_arguments false [] argv ≡ some (s ∷ [], tool)
    → (emit_status env argv).code ≡ 0
    → (valid_status s ≡ true)
      × ((emit_status env argv).frames
          ≡ hello (emit_hello env) ∷ status (status_frame env s tool) ∷ [])
unfolding emit_status emit_parsed send_oneshot
emit_status-sent env argv s tool p e = ground (arith, p)

-- The requests of a oneshot connection with one status.
oneshot-status :
    (codec : Codec) (h : Hello) (b : Bytes) (s : Sock.Status)
    → h.oneshot ≡ true
    → decode_envelope codec b ≡ some (codes "status")
    → codec.status b ≡ some s
    → handle_agent codec h (line b ∷ fails ∷ []) ≡ identify h ∷ Request.status s ∷ identify h ∷ []
unfolding handle_agent agent_loop on_event equal
oneshot-status codec h b s one d e = rw (one, d, e) refl

oneshot-result :
    (codec : Codec) (h : Hello) (b : Bytes) (r : Sock.Result)
    → h.oneshot ≡ true
    → decode_envelope codec b ≡ some (codes "result")
    → codec.result b ≡ some r
    → handle_agent codec h (line b ∷ fails ∷ []) ≡ identify h ∷ Request.result r ∷ identify h ∷ []
unfolding handle_agent agent_loop on_event equal
oneshot-result codec h b r one d e = rw (one, d, e) refl

-- The agent as `ApplyStatus` and `ApplyResult` find it or make it, behind a first hello.
abbrev pub identified : Hello → Event → Option AgentState → Option AgentState
identified h e o = updated (updates_identity h) (updated e (updated (updates_identity h) o))

-- A request between two hellos of its agent.
between_hellos :
    (e : Event) (h : Hello) (c : RosterCore)
    → is_about e h.agent_id ≡ true
    → entry h.agent_id (run c (updates_identity h ∷ e ∷ updates_identity h ∷ []))
      ≡ identified h e (entry h.agent_id c)
unfolding run
between_hellos e h c own =
    let id = h.agent_id in
    let hi = updates_identity h in
    exec-entry_self hi (exec e (exec hi c)) id (equal_refl id)
    ∙ ap (updated hi) (exec-entry_self e (exec hi c) id own)
    ∙ ap (λ o. updated hi (updated e o)) (exec-entry_self hi c id (equal_refl id))

-- It leaves the others alone.
between_hellos-other :
    (e : Event) (h : Hello) (c : RosterCore) (id : Bytes)
    → equal h.agent_id id ≡ false
    → is_about e id ≡ false
    → entry id (run c (updates_identity h ∷ e ∷ updates_identity h ∷ [])) ≡ entry id c
unfolding run
between_hellos-other e h c id far apart =
    let hi = updates_identity h in
    rw
      (
        exec-entry hi (exec e (exec hi c)) id,
        far,
        exec-entry e (exec hi c) id,
        apart,
        exec-entry hi c id,
        far,
      )
      refl

-- What an emitted status makes of an agent.
pub with_emitted :
    (h : Hello) (now : ℤ) (s : Sock.Status) (o : Option AgentState)
    → (a : AgentState) × (identified h (applies_status now s) o ≡ some a) × (a.status ≡ s.status)
unfolding with_status apply_hello_identity
with_emitted h now s o = (_, refl, refl)

-- If `mure emit status` exits with code 0, then the status is a valid one, and the connection has
-- taken two frames. Where the daemon decodes them as they were sent, it hands the first to
-- `handleAgent`; with no request of others between, that handler leaves the agent of the
-- environment with this status, and every other agent as it was.
pub emit_status-delivered :
    (codec : Codec) (env : Environment) (argv : List Bytes) (s tool b : Bytes) (clock : ℕ → ℤ)
    (c : RosterCore) (other : Bytes)
    → parse_arguments false [] argv ≡ some (s ∷ [], tool)
    → (emit_status env argv).code ≡ 0
    → decode_envelope codec b ≡ some (codes "status")
    → codec.status b ≡ some (status_frame env s tool)
    → equal env.agent_id other ≡ false
    → (valid_status s ≡ true)
      × ((emit_status env argv).frames
          ≡ hello (emit_hello env) ∷ status (status_frame env s tool) ∷ [])
      × (by_role (some (emit_hello env)) ≡ agent (emit_hello env))
      × ((a : AgentState) × (entry env.agent_id
              (after clock c (handle_agent codec (emit_hello env) (line b ∷ fails ∷ [])))
            ≡ some a)
          × (a.status ≡ s))
      × (entry other (after clock c (handle_agent codec (emit_hello env) (line b ∷ fails ∷ [])))
          ≡ entry other c)
unfolding emit_hello by_role
emit_status-delivered codec env argv s tool b clock c other p e d k apart =
    let (valid, sent) = emit_status-sent env argv s tool p e in
    let h = emit_hello env in
    let frame = status_frame env s tool in
    let asked = oneshot-status codec h b frame refl d k in
    let now = clock 1 in
    let (a, is, st) = with_emitted h now frame (entry env.agent_id c) in
    (
      valid,
      sent,
      unfold equal in refl,
      (
        a,
        ap (λ rs. entry env.agent_id (after clock c rs)) asked
            ∙ between_hellos (applies_status now frame) h c (equal_refl env.agent_id)
            ∙ is,
        st,
      ),
      ap (λ rs. entry other (after clock c rs)) asked
          ∙ between_hellos-other (applies_status now frame) h c other apart apart,
    )

emit_result-sent :
    (env : Environment) (body : Bytes)
    → env.stdin ≡ some body
    → (emit_result env (codes "-" ∷ [])).code ≡ 0
    → (emit_result env (codes "-" ∷ [])).frames
      ≡ hello (emit_hello env) ∷ result (result_frame env body) ∷ []
unfolding emit_result emit_body send_oneshot equal
emit_result-sent env body i e = ground (arith, i)

read_frame-long :
    (prefixes : List Bytes) (last : Bytes) (chunks : List (Bytes × Bool))
    → max_frame_size < length (joined prefixes last)
    → (read_frame max_frame_size (arriving prefixes last chunks)).0 ≡ frame_too_large
read_frame-long prefixes last chunks long =
    ap (λ (r : Outcome × List (Bytes × Bool)). r.0)
      (read_frame-arriving max_frame_size prefixes last chunks)
    ∙ ground arith

abbrev pub held_result : Option AgentState → Bytes
held_result none = []
held_result (some a) = a.result

identity-held_result :
    (h : Hello) (c : RosterCore) (id : Bytes)
    → held_result (entry id (exec (updates_identity h) c)) ≡ held_result (entry id c)
unfolding apply_hello_identity
identity-held_result h c id =
    ap held_result (exec-entry (updates_identity h) c id) ∙ by_entry (entry id c)
  where
    by_entry :
        (o : Option AgentState)
        → held_result (if equal h.agent_id id then updated (updates_identity h) o else o)
          ≡ held_result o
    by_entry none = ground arith
    by_entry (some a) = ground arith

-- A text longer than the limit of a frame, which `mure emit result` reads: where its exit code is 0
-- and the line that arrives is no shorter than the text, the command has sent the result, but the
-- handler reads `ErrFrameTooLarge` and the registry holds the results that it held before.
pub emit_result_too_long :
    (codec : Codec) (env : Environment) (body : Bytes) (prefixes : List Bytes) (last : Bytes)
    (chunks : List (Bytes × Bool)) (clock : ℕ → ℤ) (c : RosterCore) (id : Bytes)
    → env.stdin ≡ some body
    → (emit_result env (codes "-" ∷ [])).code ≡ 0
    → max_frame_size < length body
    → length body ≤ length (joined prefixes last)
    → ((emit_result env (codes "-" ∷ [])).frames
        ≡ hello (emit_hello env) ∷ result (result_frame env body) ∷ [])
      × (held_result (
            entry id (
              after clock c (
                handle_agent codec
                  (emit_hello env)
                  (input_of (read_frame max_frame_size (arriving prefixes last chunks)).0 ∷ []))))
          ≡ held_result (entry id c))
unfolding handle_agent agent_loop run emit_hello
emit_result_too_long codec env body prefixes last chunks clock c id i e long shown =
    let r = read_frame-long prefixes last chunks (omega arith) in
    (
      emit_result-sent env body i e,
      ap
            (λ o.
              held_result
                (entry id (after clock c (handle_agent codec (emit_hello env) (input_of o ∷ [])))))
            r
          ∙ identity-held_result (emit_hello env) c id,
    )
