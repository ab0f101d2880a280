-- ===== src/Daemon/Server/Agent.antt =====
-- `handleAgent` against the roster: who may create and who may remove an agent.
use mure.Base.{
  ℕ, suc, ◌≡◌, ◌≢◌, refl, sym, ap, ◌∙◌, true, false, List, [], ◌∷◌, ◌++◌, append_assoc, map, Option,
  none, some, Bytes, codes, equal, equal_refl, arith, All,
}
use mure.Base.Int.{ℤ}
use mure.Sock.{Hello}
use mure.Sock
use mure.Sock.Codec.{Codec}
use mure.Sock.Frame.{decode_envelope}
use mure.Daemon.Roster.{RosterCore, Event, exec, run, removes}
use mure.Daemon.Roster.Lookup.{entry, exec-entry, exec-entry_self, exec-keeps, is_removal}
use mure.Daemon.Server.{
  Input, cancelled, line, fails, Request, upsert, identify, status, result, remove, at_time,
  on_event, agent_loop, handle_agent,
}

-- The requests as the roster runs them, each at the time that the clock then shows.
abbrev pub stamp : (ℕ → ℤ) → ℕ → List Request → List Event
stamp clock n [] = []
stamp clock n (r ∷ rs) = at_time (clock n) r ∷ stamp clock (suc n) rs

-- The registry after a session, if no other request comes between.
abbrev pub after : (ℕ → ℤ) → RosterCore → List Request → RosterCore
after clock c rs = run c (stamp clock 0 rs)

-- A line that the loop reads past: it decodes, and is no `bye`.
pub record IsOrdinary (codec : Codec) (b : Bytes) : Type 0 where
  pub event : Bytes
  pub decodes : decode_envelope codec b ≡ some event
  pub no_bye : equal event (codes "bye") ≡ false
  pub status_decodes : equal event (codes "status") ≡ true → codec.status b ≢ none
  pub result_decodes : equal event (codes "result") ≡ true → codec.result b ≢ none

run-append_remove :
    (clock : ℕ → ℤ) (n : ℕ) (c : RosterCore) (rs : List Request) (id : Bytes)
    → entry id (run c (stamp clock n (rs ++ (remove id ∷ [])))) ≡ none
unfolding run
run-append_remove clock n c [] id = exec-entry_self (removes id) c id (equal_refl id)
run-append_remove clock n c (r ∷ rs) id =
    run-append_remove clock (suc n) (exec (at_time (clock n) r) c) rs id

-- An ordinary line adds requests in front of what the loop does next.
on_event-IsOrdinary :
    (codec : Codec) (h : Hello) (b : Bytes) (rest : List Request)
    → IsOrdinary codec b
    → (rs : List Request) × (on_event codec h b (decode_envelope codec b) rest ≡ rs ++ rest)
unfolding on_event
on_event-IsOrdinary codec h b rest v =
    (on_event codec h b (decode_envelope codec b) [], ground arith)

agent_loop_drop :
    (codec : Codec) (h : Hello) (bs : List Bytes)
    → h.oneshot ≡ false
    → All (IsOrdinary codec) bs
    → (rs : List Request) × (agent_loop codec h (map line bs ++ (fails ∷ []))
        ≡ rs ++ (remove h.agent_id ∷ []))
unfolding agent_loop
agent_loop_drop codec h [] own v = ([], ground arith)
agent_loop_drop codec h (b ∷ bs) own v =
    let (rs, e) = agent_loop_drop codec h bs own v.1 in
    let (qs, f) = on_event-IsOrdinary codec h b (rs ++ (remove h.agent_id ∷ [])) v.0 in
    (qs ++ rs, rw e (f ∙ sym (append_assoc qs rs _)))

-- A connection that owns its agent (its hello is not oneshot) leaves no entry for it once the
-- socket drops, whatever ordinary lines came before.
pub handle_agent_drop :
    (codec : Codec) (h : Hello) (bs : List Bytes) (clock : ℕ → ℤ) (c : RosterCore)
    → h.oneshot ≡ false
    → All (IsOrdinary codec) bs
    → entry h.agent_id (after clock c (handle_agent codec h (map line bs ++ (fails ∷ [])))) ≡ none
unfolding handle_agent
handle_agent_drop codec h bs clock c own v =
    let (rs, e) = agent_loop_drop codec h bs own v in
    rw e (run-append_remove clock 0 c (_ ∷ rs) h.agent_id)

-- What a oneshot connection without `bye` submits.
abbrev pub IsMild : Request → Type 0
IsMild (upsert h) = ⊥
IsMild (identify h) = Unit {0}
IsMild (status s) = Unit {0}
IsMild (result r) = Unit {0}
IsMild (remove id) = ⊥

-- No line that decodes is a `bye`.
abbrev pub NoBye : Codec → Input → Type 0
NoBye codec (line b) =
    (event : Bytes) → decode_envelope codec b ≡ some event → equal event (codes "bye") ≡ false
NoBye codec _ = Unit {0}

on_event-IsMild :
    (codec : Codec) (h : Hello) (b : Bytes) (o : Option Bytes) (rest : List Request)
    → h.oneshot ≡ true
    → ((event : Bytes) → o ≡ some event → equal event (codes "bye") ≡ false)
    → All IsMild rest
    → All IsMild (on_event codec h b o rest)
unfolding on_event
on_event-IsMild codec h b none rest one v m = tt
on_event-IsMild codec h b (some event) rest one v m = ground (arith, v event refl)

agent_loop-IsMild :
    (codec : Codec) (h : Hello) (is : List Input)
    → h.oneshot ≡ true
    → All (NoBye codec) is
    → All IsMild (agent_loop codec h is)
unfolding agent_loop
agent_loop-IsMild codec h [] one v = tt
agent_loop-IsMild codec h (cancelled ∷ is) one v = tt
agent_loop-IsMild codec h (fails ∷ is) one v = rw one tt
agent_loop-IsMild codec h (line b ∷ is) one v =
    on_event-IsMild codec h b (decode_envelope codec b) _ one v.0
      (agent_loop-IsMild codec h is one v.1)

mild-is_removal : (now : ℤ) (r : Request) → IsMild r → is_removal (at_time now r) ≡ false
mild-is_removal now (upsert h) m = absurd m
mild-is_removal now (remove id) m = absurd m
mild-is_removal now _ m = refl

run-keeps :
    (clock : ℕ → ℤ) (n : ℕ) (c : RosterCore) (rs : List Request) (id : Bytes)
    → All IsMild rs
    → entry id c ≢ none
    → entry id (run c (stamp clock n rs)) ≢ none
unfolding run
run-keeps clock n c [] id m p = p
run-keeps clock n c (r ∷ rs) id m p =
    run-keeps clock (suc n) _ rs id m.1
      (exec-keeps (at_time (clock n) r) c id (mild-is_removal (clock n) r m.0) p)

-- A oneshot connection that sends no `bye` removes no agent, however it ends.
pub handle_agent-oneshot_keeps :
    (codec : Codec) (h : Hello) (is : List Input) (clock : ℕ → ℤ) (c : RosterCore) (id : Bytes)
    → h.oneshot ≡ true
    → All (NoBye codec) is
    → entry id c ≢ none
    → entry id (after clock c (handle_agent codec h is)) ≢ none
unfolding handle_agent
handle_agent-oneshot_keeps codec h is clock c id one v p =
    run-keeps clock 0 c (handle_agent codec h is) id
      (ground arith, agent_loop-IsMild codec h is one v) p

-- A oneshot status for an agent that the registry does not hold creates its entry, with the
-- identity of the hello, although the hello alone leaves the registry as it was.
pub oneshot_status_creates :
    (codec : Codec) (h : Hello) (s : Sock.Status) (b : Bytes) (clock : ℕ → ℤ) (c : RosterCore)
    → h.oneshot ≡ true
    → decode_envelope codec b ≡ some (codes "status")
    → codec.status b ≡ some s
    → s.agent_id ≡ h.agent_id
    → entry h.agent_id c ≡ none
    → (entry h.agent_id (after clock c (handle_agent codec h [])) ≡ none)
      × (entry h.agent_id (after clock c (handle_agent codec h (line b ∷ []))) ≢ none)
unfolding handle_agent agent_loop on_event run
oneshot_status_creates codec h s b clock c one d e own absent =
    let hello = at_time (clock 0) (identify h) in
    let c' = exec hello c in
    let c'' = exec (at_time (clock 1) (status s)) c' in
    ground (
      arith,
      exec-entry hello c h.agent_id,
      exec-entry (at_time (clock 1) (status s)) c' h.agent_id,
      exec-entry (at_time (clock 2) (identify h)) c'' h.agent_id,
      ap equal own,
      equal_refl h.agent_id,
      equal_refl (codes "status"),
    )

-- A connection that owns its agent leaves its entry behind when a line does not decode: the
-- handler returns without the removal that a dropped socket gets.
pub handle_agent_malformed :
    (codec : Codec) (h : Hello) (b : Bytes) (is : List Input) (clock : ℕ → ℤ) (c : RosterCore)
    → h.oneshot ≡ false
    → decode_envelope codec b ≡ none
    → entry h.agent_id (after clock c (handle_agent codec h (line b ∷ is))) ≢ none
unfolding handle_agent agent_loop on_event run
handle_agent_malformed codec h b is clock c own d =
    ground (arith, exec-entry (at_time (clock 0) (upsert h)) c h.agent_id, equal_refl h.agent_id)
