-- ===== src/Daemon/Roster/Replica/Silence.antt =====
-- Requests for other agents send a subscriber nothing of an agent.
use mathlib.Core.Option.{some_inj}
use mure.Base.{
  ℕ, ◌≡◌, refl, sym, ◌∙◌, true, false, List, [], ◌∷◌, ◌++◌, Option, none, some, Bytes, equal,
  get_elem?, All, All-get_elem?, subst,
}
use mure.Base.Dict.{lookup, Entries-lookup}
use mure.Sock.{Hello, AgentUpdate}
use mure.Daemon.Roster.Buffer.{history}
use mure.Daemon.Roster.Invariant.{IsSound, Inv, exec-Inv, agent_or_id}
use mure.Daemon.Roster.{
  AgentState, Subscriber, RosterCore, Event, exec, run, apply_hello_identity, with_status, upserts,
  updates_identity, applies_status, applies_result, removes,
}
use mure.Daemon.Roster.Lookup.{is_about}
use mure.Daemon.Roster.Replica.{published, published_identity, published_removal, exec-Step}

abbrev pub Silent : Bytes → List AgentUpdate → Type 0
Silent id = All (λ (u : AgentUpdate). equal u.agent.id id ≡ false)

Silent-append :
    (id : Bytes) (us vs : List AgentUpdate) → Silent id us → Silent id vs → Silent id (us ++ vs)
Silent-append id [] vs h k = k
Silent-append id (u ∷ us) vs h k = (h.0, Silent-append id us vs h.1 k)

published_identity-Silent :
    (h : Hello) (c : RosterCore) (o : Option AgentState) (id : Bytes)
    → Inv c
    → lookup h.agent_id c.agents ≡ o
    → equal h.agent_id id ≡ false
    → Silent id (published_identity h o)
unfolding published_identity apply_hello_identity
published_identity-Silent h c none id v e other = tt
published_identity-Silent h c (some a) id v e other =
    (rw (Entries-lookup _ h.agent_id c.agents v.keyed e) other, tt)

published_removal-Silent :
    (k : Bytes) (o : Option AgentState) (id : Bytes)
    → equal k id ≡ false
    → Silent id (published_removal k o)
unfolding published_removal
published_removal-Silent k none id other = tt
published_removal-Silent k (some a) id other = (other, tt)

published-Silent :
    (e : Event) (c : RosterCore) (id : Bytes)
    → Inv c
    → is_about e id ≡ false
    → Silent id (published e c)
unfolding published apply_hello_identity with_status
published-Silent (upserts now h) c id v other = (rw (agent_or_id c h.agent_id _ now v) other, tt)
published-Silent (updates_identity h) c id v other = published_identity-Silent h c _ id v refl other
published-Silent (applies_status now s) c id v other =
    (rw (agent_or_id c s.agent_id _ now v) other, tt)
published-Silent (applies_result now r) c id v other =
    (rw (agent_or_id c r.agent_id _ now v) other, tt)
published-Silent (removes k) c id v other = published_removal-Silent k _ id other
published-Silent _ c id v other = tt

-- A channel that has got nothing of an agent, and requests for others only: it still has not.
pub run-Silent :
    (es : List Event) (c : RosterCore) (k : ℕ) (s t : Subscriber) (id : Bytes)
    → Inv c
    → get_elem? c.subscribers k ≡ some s
    → get_elem? (run c es).subscribers k ≡ some t
    → t.is_registered ≡ true
    → All (λ e. is_about e id ≡ false) es
    → (s.is_registered ≡ true) × (Silent id (history s.ch) → Silent id (history t.ch))
unfolding run
run-Silent [] c k s t id v es et r w =
    let same = some_inj.0 (sym es ∙ et) in
    (
      subst (λ (u : Subscriber). u.is_registered ≡ true) (sym same) r,
      subst (λ (u : Subscriber). Silent id (history u.ch)) same,
    )
run-Silent (e ∷ es) c k s t id v es' et r w =
    let (s', at, follows) =
      exec-Step e k s c (All-get_elem? IsSound c.subscribers k v.sound es') es' in
    let (r', later) = run-Silent es (exec e c) k s' t id (exec-Inv e c v) at et r w.1 in
    let (r'', sent) = follows r' in
    (
      r'',
      λ quiet. later (
          subst (Silent id) (sym sent) (
            Silent-append id (history s.ch) (published e c) quiet (published-Silent e c id v w.0))),
    )
