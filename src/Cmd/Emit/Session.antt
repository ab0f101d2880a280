-- ===== src/Cmd/Emit/Session.antt =====
-- What a connection of `mure emit` carries, as a session type.
use mure.Base.{
  ℕ, ◌≡◌, refl, ◌<◌, Bool, true, false, not, List, [], ◌∷◌, Bytes, codes, equal, is_empty, arith,
  if_ind, Option, none, some,
}
use mure.Base.Int.{pos}
use mure.Sock.{Hello, protocol_version, role_agent, valid_status}
use mure.Cmd.Emit.{
  Environment, Frame, hello, status, result, Run, emit_hello, send_oneshot, with_agent,
  status_frame, result_frame, emit_parsed, emit_status, emit_body, emit_result, emit,
  parse_arguments,
}

-- A hello of an agent that names itself and closes after one frame.
pub record IsGreeting (h : Hello) : Type 0 where
  pub version : h.v ≡ pos protocol_version
  pub event : h.event ≡ codes "hello"
  pub role : h.role ≡ role_agent
  pub named : is_empty h.agent_id ≡ false
  pub once : h.oneshot ≡ true

-- A status or a result that the daemon knows, of the agent that said hello.
abbrev pub IsReport : Bytes → Frame → Type 0
IsReport agent (hello h) = ⊥
IsReport agent (status s) =
    (s.v ≡ pos protocol_version)
    × (s.event ≡ codes "status")
    × (s.agent_id ≡ agent)
    × (valid_status s.status ≡ true)
IsReport agent (result r) =
    (r.v ≡ pos protocol_version) × (r.event ≡ codes "result") × (r.agent_id ≡ agent)

-- Nothing, a greeting alone, or a greeting and one report; exit code 0 only for the last.
abbrev pub IsSession : ℕ → List Frame → Type 0
IsSession code [] = 0 < code
IsSession code (hello h ∷ []) = IsGreeting h × (code ≡ 1)
IsSession code (hello h ∷ f ∷ []) = IsGreeting h × IsReport h.agent_id f × (code ≡ 0)
IsSession code _ = ⊥

abbrev IsTyped : Run → Type 0
IsTyped r = IsSession r.code r.frames

Bool-flip : (b : Bool) → not b ≡ false → b ≡ true
Bool-flip true h = refl
Bool-flip false h = cc

emit_hello-IsGreeting :
    (env : Environment) → is_empty env.agent_id ≡ false → IsGreeting (emit_hello env)
unfolding emit_hello
emit_hello-IsGreeting env n = record {
  version = refl;
  event = refl;
  role = refl;
  named = n;
  once = refl;
}

send_oneshot-IsTyped :
    (env : Environment) (f : Frame)
    → is_empty env.agent_id ≡ false
    → IsReport (emit_hello env).agent_id f
    → IsTyped (send_oneshot env f)
unfolding send_oneshot
send_oneshot-IsTyped env f n w =
    let g = emit_hello-IsGreeting env n in
    if_ind IsTyped (not env.dials) _ _ (λ _. omega arith)
      (λ _.
        if_ind IsTyped (not env.takes_hello) _ _ (λ _. omega arith)
          (λ _. if_ind IsTyped (not env.takes_frame) _ _ (λ _. (g, refl)) (λ _. (g, w, refl))))

with_agent-IsTyped :
    (env : Environment) (r : Run)
    → (is_empty env.agent_id ≡ false → IsTyped r)
    → IsTyped (with_agent env r)
with_agent-IsTyped env r t =
    if_ind IsTyped (is_empty env.socket) _ _ (λ _. omega arith)
      (λ _. if_ind IsTyped (is_empty env.agent_id) _ _ (λ _. omega arith) t)

emit_parsed-IsTyped :
    (env : Environment) (o : Option (List Bytes × Bytes)) → IsTyped (emit_parsed env o)
unfolding emit_parsed emit_hello
emit_parsed-IsTyped env none = omega arith
emit_parsed-IsTyped env (some ([], tool)) = omega arith
emit_parsed-IsTyped env (some (s ∷ [], tool)) =
    if_ind IsTyped (not (valid_status s)) _ _ (λ _. omega arith)
      (λ valid. with_agent-IsTyped env _ (λ n.
        send_oneshot-IsTyped env (status (status_frame env s tool)) n
          (refl, refl, refl, Bool-flip _ valid)))
emit_parsed-IsTyped env (some (s ∷ a ∷ ps, tool)) = omega arith

emit_body-IsTyped :
    (env : Environment) (o : Option Bytes)
    → is_empty env.agent_id ≡ false
    → IsTyped (emit_body env o)
unfolding emit_body emit_hello
emit_body-IsTyped env none n = omega arith
emit_body-IsTyped env (some body) n =
    send_oneshot-IsTyped env (result (result_frame env body)) n (refl, refl, refl)

emit_result-IsTyped : (env : Environment) (argv : List Bytes) → IsTyped (emit_result env argv)
unfolding emit_result
emit_result-IsTyped env [] = omega arith
emit_result-IsTyped env (a ∷ []) =
    if_ind IsTyped (not (equal a (codes "-"))) _ _ (λ _. omega arith)
      (λ _. with_agent-IsTyped env _ (emit_body-IsTyped env env.stdin))
emit_result-IsTyped env (a ∷ b ∷ argv) = omega arith

-- Whatever the arguments, the environment and the failures on the way, what the connection takes
-- from `mure emit` is nothing, an agent's greeting, or a greeting and one report: protocol version
-- 1, the event of its kind, an agent ID that is not empty and is the same in both, a status that
-- the protocol knows. The exit code is 0 where both frames are sent, 1 where only the greeting is,
-- and not 0 where nothing is.
pub emit-IsSession :
    (env : Environment) (argv : List Bytes) → IsSession (emit env argv).code (emit env argv).frames
unfolding emit emit_status
emit-IsSession env [] = omega arith
emit-IsSession env (a ∷ argv) =
    if_ind IsTyped (equal a (codes "status")) _ _
      (λ _. emit_parsed-IsTyped env (parse_arguments false [] argv))
      (λ _.
        if_ind IsTyped (equal a (codes "result")) _ _ (λ _. emit_result-IsTyped env argv)
          (λ _. omega arith))
