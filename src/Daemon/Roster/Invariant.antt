-- ===== src/Daemon/Roster/Invariant.antt =====
-- What every request keeps of the registry: unique keys that are their agents' IDs, bounded
-- channels, and no send on or second close of a closed channel.
use mure.Base.{
  ◌≤◌, ◌≡◌, refl, ap, true, false, List, [], ◌∷◌, Option, none, some, Bytes, arith, length,
  length-append, All, All-append, All-map, All-modify, inl, inr, Option-cases,
}
use mure.Base.Int.{ℤ}
use mure.Base.Dict.{
  lookup, HasUniqueKeys, HasUniqueKeys-insert, HasUniqueKeys-delete, Entries, Entries-insert,
  Entries-delete, Entries-lookup,
}
use mure.Sock.{Hello, AgentUpdate}
use mure.Daemon.Roster.Buffer.{subscriber_buf_size, is_full, send, close, dequeue, receive}
use mure.Daemon.Roster.{
  AgentState, Subscriber, RosterCore, Event, offer, publish, broadcast, store, agent_or,
  apply_hello_identity, update_identity, remove_found, with_status, upsert_from_hello,
  update_identity_if_present, apply_status, apply_result, remove, set_launch_dir, subscribe,
  cancel_subscriber, cancel, quit_subscriber, quit, receive_from, exec, run, new_agent, empty_core,
  upserts, updates_identity, applies_status, applies_result, new_subscriber, removes,
  sets_launch_dir, subscribes, cancels, receives,
}

pub record IsSound (s : Subscriber) : Type 0 where
  pub bounded : length s.ch.queue ≤ subscriber_buf_size
  pub unpanicked : s.ch.has_panicked ≡ false
  pub flag_agrees : s.closed ≡ s.ch.is_closed
  pub open_if_registered : s.is_registered ≡ true → s.closed ≡ false

pub record Inv (c : RosterCore) : Type 0 where
  pub unique : HasUniqueKeys c.agents
  pub keyed : Entries (λ k (a : AgentState). a.id ≡ k) c.agents
  pub sound : All IsSound c.subscribers

offer-IsSound : (upd : AgentUpdate) (s : Subscriber) → IsSound s → IsSound (offer upd s)
unfolding offer send close is_full
offer-IsSound upd s v = ground (arith, length-append s.ch.queue (upd ∷ []))

cancel_subscriber-IsSound : (s : Subscriber) → IsSound s → IsSound (cancel_subscriber s)
unfolding cancel_subscriber close
cancel_subscriber-IsSound s v = ground arith

dequeue-IsSound :
    (s : Subscriber) (q : List AgentUpdate)
    → s.ch.queue ≡ q
    → IsSound s
    → IsSound (record s { ch = dequeue s.ch q })
unfolding dequeue
dequeue-IsSound s [] e v = v
dequeue-IsSound s (upd ∷ rest) e v = record {
  bounded = omega (arith, v.bounded, ap length e);
  unpanicked = v.unpanicked;
  flag_agrees = v.flag_agrees;
  open_if_registered = v.open_if_registered;
}

receive_from-IsSound : (s : Subscriber) → IsSound s → IsSound (receive_from s)
unfolding receive_from receive
receive_from-IsSound s v = dequeue-IsSound s s.ch.queue refl v

publish-Inv : (upd : AgentUpdate) {c : RosterCore} → Inv c → Inv (publish upd c)
unfolding publish
publish-Inv upd {c} v = record {
  unique = v.unique;
  keyed = v.keyed;
  sound = All-map IsSound IsSound (offer upd) c.subscribers (offer-IsSound upd) v.sound;
}

store-Inv : (id : Bytes) (a : AgentState) {c : RosterCore} → a.id ≡ id → Inv c → Inv (store id a c)
unfolding broadcast
store-Inv id a {c} e v = publish-Inv _ (record {
  unique = HasUniqueKeys-insert id a c.agents v.unique;
  keyed = Entries-insert (λ k (a : AgentState). a.id ≡ k) id a c.agents e v.keyed;
  sound = v.sound;
})

-- The agent found or made for a key has it as its ID.
pub agent_or_id :
    (c : RosterCore) (id status : Bytes) (now : ℤ)
    → Inv c
    → (agent_or (new_agent id status now) (lookup id c.agents)).id ≡ id
agent_or_id c id status now v = elim (Option-cases (lookup id c.agents)) [
  | inl e ↦ rw e
  | inr (a, e) ↦ rw e (Entries-lookup _ id c.agents v.keyed e)
]

update_identity-Inv :
    (h : Hello) (c : RosterCore) (o : Option AgentState)
    → lookup h.agent_id c.agents ≡ o
    → Inv c
    → Inv (update_identity h c o)
unfolding update_identity apply_hello_identity
update_identity-Inv h c none e v = v
update_identity-Inv h c (some a) e v =
    store-Inv _ _ (Entries-lookup _ h.agent_id c.agents v.keyed e) v

remove_found-Inv :
    (id : Bytes) (c : RosterCore) (o : Option AgentState) → Inv c → Inv (remove_found id c o)
unfolding remove_found
remove_found-Inv id c none v = v
remove_found-Inv id c (some a) v = publish-Inv _ (record {
  unique = HasUniqueKeys-delete id c.agents v.unique;
  keyed = Entries-delete (λ k (a : AgentState). a.id ≡ k) id c.agents v.keyed;
  sound = v.sound;
})

new_subscriber-IsSound : IsSound new_subscriber
new_subscriber-IsSound = record {
  bounded = omega arith;
  unpanicked = refl;
  flag_agrees = refl;
  open_if_registered = λ _. refl;
}

-- Every request, and every receive, keeps the invariant.
pub exec-Inv : (e : Event) (c : RosterCore) → Inv c → Inv (exec e c)
unfolding exec upsert_from_hello update_identity_if_present apply_status apply_result remove
    set_launch_dir subscribe cancel with_status apply_hello_identity
exec-Inv (upserts now h) c v = store-Inv _ _ (agent_or_id c h.agent_id _ now v) v
exec-Inv (updates_identity h) c v = update_identity-Inv h c _ refl v
exec-Inv (applies_status now s) c v = store-Inv _ _ (agent_or_id c s.agent_id _ now v) v
exec-Inv (applies_result now r) c v = store-Inv _ _ (agent_or_id c r.agent_id _ now v) v
exec-Inv (removes id) c v = remove_found-Inv id c _ v
exec-Inv (sets_launch_dir dir) c v = record { unique = v.unique; keyed = v.keyed; sound = v.sound }
exec-Inv subscribes c v = record {
  unique = v.unique;
  keyed = v.keyed;
  sound = All-append IsSound c.subscribers _ v.sound (new_subscriber-IsSound, tt);
}
exec-Inv (cancels k) c v = record {
  unique = v.unique;
  keyed = v.keyed;
  sound = All-modify IsSound cancel_subscriber c.subscribers k cancel_subscriber-IsSound v.sound;
}
exec-Inv (receives k) c v = record {
  unique = v.unique;
  keyed = v.keyed;
  sound = All-modify IsSound receive_from c.subscribers k receive_from-IsSound v.sound;
}

pub run-Inv : (c : RosterCore) (es : List Event) → Inv c → Inv (run c es)
unfolding run
run-Inv c [] v = v
run-Inv c (e ∷ es) v = run-Inv (exec e c) es (exec-Inv e c v)

-- From a new roster, in whatever order requests and receives come: keys are unique and are the IDs
-- of their agents, no channel holds more than `subscriberBufSize` updates, none was sent to or
-- closed after it was closed, and each registered subscriber is open.
pub run-empty_core-Inv : (es : List Event) → Inv (run empty_core es)
run-empty_core-Inv es = run-Inv empty_core es (record { unique = tt; keyed = tt; sound = tt })

-- What holds of a subscriber once the loop has ended.
pub record IsQuit (s : Subscriber) : Type 0 where
  pub unpanicked : s.ch.has_panicked ≡ false
  pub is_shut : s.is_registered ≡ true → s.ch.is_closed ≡ true

quit_subscriber-IsQuit : (s : Subscriber) → IsSound s → IsQuit (quit_subscriber s)
unfolding quit_subscriber close
quit_subscriber-IsQuit s v = ground arith

-- The end of the loop closes the channel of every registered subscriber, and none of them twice.
pub quit-IsQuit : (es : List Event) → All IsQuit (quit (run empty_core es)).subscribers
unfolding quit
quit-IsQuit es =
    All-map IsSound IsQuit quit_subscriber _ quit_subscriber-IsQuit (run-empty_core-Inv es).sound
