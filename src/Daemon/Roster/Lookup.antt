-- ===== src/Daemon/Roster/Lookup.antt =====
-- What each request does to the entry at a key of the registry.
use mure.Base.{
  ℕ, ◌+◌, ◌≡◌, ◌≢◌, refl, Bool, true, false, List, [], ◌∷◌, length, Option, none, some, Bytes,
  arith, equal, equal_iff, if◌then◌else◌,
}
use mure.Base.Dict.{lookup, lookup-insert, lookup-delete}
use mure.Sock.{AgentSnapshot, Hello, status_idle}
use mure.Daemon.Roster.{
  AgentState, RosterCore, agent_or, new_agent, apply_hello_identity, with_status, with_result,
  publish, broadcast, upsert_from_hello, update_identity, update_identity_if_present, apply_status,
  apply_result, remove_found, remove, set_launch_dir, subscribe, cancel, Event, exec, upserts,
  updates_identity, applies_status, applies_result, removes, sets_launch_dir, subscribes, cancels,
  receives,
}

-- The entry after a request, from the entry before it.
abbrev pub entry : Bytes → RosterCore → Option AgentState
entry id c = lookup id c.agents

-- The entry at an event's own key after the event.
abbrev pub updated : Event → Option AgentState → Option AgentState
updated (upserts now h) o =
    some (apply_hello_identity (agent_or (new_agent h.agent_id status_idle now) o) h)
updated (updates_identity h) none = none
updated (updates_identity h) (some a) = some (apply_hello_identity a h)
updated (applies_status now s) o = some (with_status (agent_or (new_agent s.agent_id [] now) o) s)
updated (applies_result now r) o = some (with_result (agent_or (new_agent r.agent_id [] now) o) r)
updated (removes id) o = none
updated _ o = o

-- The agent that an event is about; the others are about none.
abbrev pub is_about : Event → Bytes → Bool
is_about (upserts now h) id = equal h.agent_id id
is_about (updates_identity h) id = equal h.agent_id id
is_about (applies_status now s) id = equal s.agent_id id
is_about (applies_result now r) id = equal r.agent_id id
is_about (removes k) id = equal k id
is_about _ id = false

identity-entry :
    (h : Hello) (c : RosterCore) (id : Bytes) (o : Option AgentState)
    → entry h.agent_id c ≡ o
    → entry id (update_identity h c o)
      ≡ (if equal h.agent_id id then updated (updates_identity h) o else entry id c)
unfolding update_identity broadcast publish
identity-entry h c id none e = ground (arith, equal_iff h.agent_id id)
identity-entry h c id (some a) e = lookup-insert h.agent_id id _ c.agents

removed-entry :
    (k : Bytes) (c : RosterCore) (id : Bytes) (o : Option AgentState)
    → entry k c ≡ o
    → entry id (remove_found k c o) ≡ (if equal k id then none else entry id c)
unfolding remove_found publish
removed-entry k c id none e = ground (arith, equal_iff k id)
removed-entry k c id (some a) e = lookup-delete k id c.agents

-- A request changes the entry of its own agent, as `updated` says, and no other.
pub exec-entry :
    (e : Event) (c : RosterCore) (id : Bytes)
    → entry id (exec e c) ≡ (if is_about e id then updated e (entry id c) else entry id c)
unfolding exec upsert_from_hello update_identity_if_present apply_status apply_result remove
    set_launch_dir subscribe cancel broadcast publish
exec-entry (upserts now h) c id = ground (
  arith,
  equal_iff h.agent_id id,
  lookup-insert h.agent_id id
      (apply_hello_identity
        (agent_or (new_agent h.agent_id status_idle now) (lookup h.agent_id c.agents)) h)
      c.agents,
)
exec-entry (updates_identity h) c id =
    ground (arith, equal_iff h.agent_id id, identity-entry h c id (entry h.agent_id c) refl)
exec-entry (applies_status now s) c id = ground (
  arith,
  equal_iff s.agent_id id,
  lookup-insert s.agent_id id
      (with_status (agent_or (new_agent s.agent_id [] now) (lookup s.agent_id c.agents)) s)
      c.agents,
)
exec-entry (applies_result now r) c id = ground (
  arith,
  equal_iff r.agent_id id,
  lookup-insert r.agent_id id
      (with_result (agent_or (new_agent r.agent_id [] now) (lookup r.agent_id c.agents)) r)
      c.agents,
)
exec-entry (removes k) c id = ground (arith, equal_iff k id, removed-entry k c id (entry k c) refl)
exec-entry _ c id = refl

-- What an agent's entry becomes when it is asked about: the entry of the event's own agent.
pub exec-entry_self :
    (e : Event) (c : RosterCore) (id : Bytes)
    → is_about e id ≡ true
    → entry id (exec e c) ≡ updated e (entry id c)
exec-entry_self e c id h = rw (exec-entry e c id, h)

-- Only a removal takes an agent out of the registry.
abbrev pub is_removal : Event → Bool
is_removal (removes id) = true
is_removal _ = false

pub exec-keeps :
    (e : Event) (c : RosterCore) (id : Bytes)
    → is_removal e ≡ false
    → entry id c ≢ none
    → entry id (exec e c) ≢ none
exec-keeps (upserts now h) c id r p = ground (arith, exec-entry (upserts now h) c id)
exec-keeps (updates_identity h) c id r p = ground (arith, exec-entry (updates_identity h) c id)
exec-keeps (applies_status now s) c id r p = ground (arith, exec-entry (applies_status now s) c id)
exec-keeps (applies_result now s) c id r p = ground (arith, exec-entry (applies_result now s) c id)
exec-keeps (removes k) c id r p = cc
exec-keeps (sets_launch_dir d) c id r p = ground (arith, exec-entry (sets_launch_dir d) c id)
exec-keeps subscribes c id r p = ground (arith, exec-entry subscribes c id)
exec-keeps (cancels k) c id r p = ground (arith, exec-entry (cancels k) c id)
exec-keeps (receives k) c id r p = ground (arith, exec-entry (receives k) c id)

-- The bytes of all results.
abbrev pub results_length : List AgentSnapshot → ℕ
results_length [] = 0
results_length (a ∷ as') = length a.result + results_length as'
