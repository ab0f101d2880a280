-- ===== src/Daemon/Roster/Replica.antt =====
-- Subscribers as replicas: a registry's contents at the time of `Subscribe`, with the updates of
-- the channel folded in, are its contents now.
pub mod Silence
use mathlib.Core.Option
use mathlib.Core.Option.{some_inj}
use mathlib.Core.Path.{fun_ext}
use mure.Base.{
  ℕ, ◌≡◌, refl, sym, ap, subst, ◌∙◌, true, List, [], ◌∷◌, ◌++◌, map, Option, none, some, Bytes,
  append-nil, append_assoc, arith, equal, equal_iff, if◌then◌else◌, ◌==◌, length, get_elem?,
  get_elem?-append_left, get_elem?-append_length, get_elem?-map, get_elem?-modify, modify,
  All-get_elem?, inl, inr, Bool-cases,
}
use mure.Base.Dict.{lookup, lookup-insert, lookup-delete, Entries-lookup}
use mure.Sock.{Hello, AgentSnapshot, AgentUpdate, status_idle}
use mure.Daemon.Roster.Buffer.{history, history-receive, send, close}
use mure.Daemon.Roster.Invariant.{IsSound, Inv, exec-Inv, agent_or_id}
use mure.Daemon.Roster.{
  AgentState, Subscriber, RosterCore, Event, snapshot, changed, removal, offer, publish, broadcast,
  store, agent_or, apply_hello_identity, update_identity, remove_found, with_status, with_result,
  upsert_from_hello, update_identity_if_present, apply_status, apply_result, remove, set_launch_dir,
  subscribe, new_subscriber, cancel_subscriber, cancel, receive_from, exec, run, new_agent, upserts,
  updates_identity, applies_status, applies_result, removes, sets_launch_dir, subscribes, cancels,
  receives,
}

-- The contents of a registry as a reader sees them.
abbrev pub View : Type 0
View = Bytes → Option AgentSnapshot

abbrev pub view : RosterCore → View
view c id = Option.map snapshot (lookup id c.agents)

-- An update folded into a view: the agent is replaced, added or deleted.
abbrev pub fold_update : AgentUpdate → View → View
fold_update upd w id =
    if equal upd.agent.id id then (if upd.deleted then none else some upd.agent) else w id

abbrev pub replay : List AgentUpdate → View → View
replay [] w = w
replay (upd ∷ upds) w = replay upds (fold_update upd w)

pub replay-append :
    (us vs : List AgentUpdate) (w : View) → replay (us ++ vs) w ≡ replay vs (replay us w)
replay-append [] vs w = refl
replay-append (u ∷ us) vs w = replay-append us vs (fold_update u w)

-- What an event publishes.
pub published_identity : Hello → Option AgentState → List AgentUpdate
published_identity h none = []
published_identity h (some a) = changed (apply_hello_identity a h) ∷ []

pub published_removal : Bytes → Option AgentState → List AgentUpdate
published_removal id none = []
published_removal id (some a) = removal id ∷ []

pub published : Event → RosterCore → List AgentUpdate
unfolding published_identity published_removal
published (upserts now h) c =
    let a = agent_or (new_agent h.agent_id status_idle now) (lookup h.agent_id c.agents) in
    changed (apply_hello_identity a h) ∷ []
published (updates_identity h) c = published_identity h (lookup h.agent_id c.agents)
published (applies_status now s) c =
    changed (with_status (agent_or (new_agent s.agent_id [] now) (lookup s.agent_id c.agents)) s)
    ∷ []
published (applies_result now r) c =
    let a = agent_or (new_agent r.agent_id [] now) (lookup r.agent_id c.agents) in
    changed (with_result a r) ∷ []
published (removes id) c = published_removal id (lookup id c.agents)
published _ c = []

-- What happens to the view.
store-view :
    (id : Bytes) (a : AgentState) (c : RosterCore)
    → a.id ≡ id
    → view (store id a c) ≡ replay (changed a ∷ []) (view c)
unfolding broadcast publish
store-view id a c e =
    fun_ext λ j.
      ground (arith, ap equal e, lookup-insert id j a c.agents, equal_iff id j, equal_iff a.id j)

identity-view :
    (h : Hello) (c : RosterCore) (o : Option AgentState)
    → lookup h.agent_id c.agents ≡ o
    → Inv c
    → view (update_identity h c o) ≡ replay (published_identity h o) (view c)
unfolding update_identity published_identity apply_hello_identity
identity-view h c none e v = refl
identity-view h c (some a) e v = store-view _ _ c (Entries-lookup _ h.agent_id c.agents v.keyed e)

removal-view :
    (id : Bytes) (c : RosterCore) (o : Option AgentState)
    → lookup id c.agents ≡ o
    → view (remove_found id c o) ≡ replay (published_removal id o) (view c)
unfolding remove_found published_removal publish
removal-view id c none e = refl
removal-view id c (some a) e = fun_ext λ j. ground (arith, lookup-delete id j c.agents)

exec-view : (e : Event) (c : RosterCore) → Inv c → view (exec e c) ≡ replay (published e c) (view c)
unfolding exec published upsert_from_hello update_identity_if_present apply_status apply_result
    remove set_launch_dir subscribe cancel with_status apply_hello_identity
exec-view (upserts now h) c v = store-view _ _ c (agent_or_id c h.agent_id _ now v)
exec-view (updates_identity h) c v = identity-view h c _ refl v
exec-view (applies_status now s) c v = store-view _ _ c (agent_or_id c s.agent_id _ now v)
exec-view (applies_result now r) c v = store-view _ _ c (agent_or_id c r.agent_id _ now v)
exec-view (removes id) c v = removal-view id c _ refl
exec-view _ c v = refl

-- What happens to a subscriber: while it stays registered, its channel gets what is published.
abbrev Follows : Subscriber → Subscriber → List AgentUpdate → Type 0
Follows s t upds =
    t.is_registered ≡ true → (s.is_registered ≡ true) × (history t.ch ≡ history s.ch ++ upds)

offer-Follows :
    (upd : AgentUpdate) (s : Subscriber) → IsSound s → Follows s (offer upd s) (upd ∷ [])
unfolding offer send close
offer-Follows upd s v h = ground (arith, append_assoc s.ch.received s.ch.queue (upd ∷ []))

Follows-refl : (s : Subscriber) → Follows s s []
Follows-refl s h = (h, sym (append-nil _))

cancel_subscriber-Follows : (s : Subscriber) → Follows s (cancel_subscriber s) []
unfolding cancel_subscriber
cancel_subscriber-Follows s h = ground (arith, append-nil (history s.ch))

receive_from-Follows : (s : Subscriber) → Follows s (receive_from s) []
unfolding receive_from
receive_from-Follows s h = (h, history-receive s.ch ∙ sym (append-nil _))

-- The subscriber at place `k` after an event, with what its channel got.
abbrev Step : ℕ → Subscriber → List Subscriber → List AgentUpdate → Type 0
Step k s ts upds = (t : Subscriber) × (get_elem? ts k ≡ some t) × Follows s t upds

publish-Step :
    (k : ℕ) (s : Subscriber) (upd : AgentUpdate) (ss : List Subscriber)
    → IsSound s
    → get_elem? ss k ≡ some s
    → Step k s (map (offer upd) ss) (upd ∷ [])
publish-Step k s upd ss v e = (offer upd s, get_elem?-map (offer upd) ss k e, offer-Follows upd s v)

stay-Step :
    (k : ℕ) (s : Subscriber) (ss : List Subscriber) → get_elem? ss k ≡ some s → Step k s ss []
stay-Step k s ss e = (s, e, Follows-refl s)

modify-Step :
    (f : Subscriber → Subscriber) (i k : ℕ) (s : Subscriber) (ss : List Subscriber)
    → ((t : Subscriber) → Follows t (f t) [])
    → get_elem? ss k ≡ some s
    → Step k s (modify ss i f) []
modify-Step f i k s ss h e = (
  if i == k then f s else s,
  get_elem?-modify f ss i k e,
  elim (Bool-cases (i == k)) [ inl hit ↦ rw hit (h s) | inr miss ↦ rw miss (Follows-refl s) ],
)

identity-Step :
    (k : ℕ) (s : Subscriber) (h : Hello) (c : RosterCore) (o : Option AgentState)
    → IsSound s
    → get_elem? c.subscribers k ≡ some s
    → Step k s (update_identity h c o).subscribers (published_identity h o)
unfolding update_identity published_identity broadcast publish
identity-Step k s h c none v e = stay-Step k s _ e
identity-Step k s h c (some a) v e = publish-Step k s _ _ v e

removal-Step :
    (k : ℕ) (s : Subscriber) (id : Bytes) (c : RosterCore) (o : Option AgentState)
    → IsSound s
    → get_elem? c.subscribers k ≡ some s
    → Step k s (remove_found id c o).subscribers (published_removal id o)
unfolding remove_found published_removal publish
removal-Step k s id c none v e = stay-Step k s _ e
removal-Step k s id c (some a) v e = publish-Step k s _ _ v e

pub exec-Step :
    (e : Event) (k : ℕ) (s : Subscriber) (c : RosterCore)
    → IsSound s
    → get_elem? c.subscribers k ≡ some s
    → Step k s (exec e c).subscribers (published e c)
unfolding exec published upsert_from_hello update_identity_if_present apply_status apply_result
    remove set_launch_dir subscribe cancel broadcast publish
exec-Step (upserts now h) k s c v e = publish-Step k s _ _ v e
exec-Step (updates_identity h) k s c v e = identity-Step k s h c _ v e
exec-Step (applies_status now st) k s c v e = publish-Step k s _ _ v e
exec-Step (applies_result now r) k s c v e = publish-Step k s _ _ v e
exec-Step (removes id) k s c v e = removal-Step k s id c _ v e
exec-Step (sets_launch_dir dir) k s c v e = stay-Step k s _ e
exec-Step subscribes k s c v e = (s, get_elem?-append_left c.subscribers _ k e, Follows-refl s)
exec-Step (cancels i) k s c v e = modify-Step cancel_subscriber i k s _ cancel_subscriber-Follows e
exec-Step (receives i) k s c v e = modify-Step receive_from i k s _ receive_from-Follows e

-- From any registry, the updates that a subscriber's channel gets while it stays registered lead
-- from the old view to the new one.
pub run-replay :
    (es : List Event) (c : RosterCore) (k : ℕ) (s t : Subscriber)
    → Inv c
    → get_elem? c.subscribers k ≡ some s
    → get_elem? (run c es).subscribers k ≡ some t
    → t.is_registered ≡ true
    → (upds : List AgentUpdate) × (s.is_registered ≡ true)
      × (history t.ch ≡ history s.ch ++ upds)
      × (view (run c es) ≡ replay upds (view c))
unfolding run
run-replay [] c k s t v es et r =
    let same = some_inj.0 (sym es ∙ et) in
    (
      [],
      subst (λ (u : Subscriber). u.is_registered ≡ true) (sym same) r,
      subst (λ (u : Subscriber). history u.ch ≡ history s.ch ++ []) same (sym (append-nil _)),
      refl,
    )
run-replay (e ∷ es) c k s t v es' et r =
    let (s', at, follows) =
      exec-Step e k s c (All-get_elem? IsSound c.subscribers k v.sound es') es' in
    let (upds, r', sent, seen) = run-replay es (exec e c) k s' t (exec-Inv e c v) at et r in
    let (r'', sent') = follows r' in
    (
      published e c ++ upds,
      r'',
      sent ∙ ap (λ us. us ++ upds) sent' ∙ append_assoc _ _ upds,
      seen ∙ ap (replay upds) (exec-view e c v) ∙ sym (replay-append (published e c) upds (view c)),
    )

-- A place once taken stays taken.
pub run-at :
    (es : List Event) (c : RosterCore) (k : ℕ) (s : Subscriber)
    → Inv c
    → get_elem? c.subscribers k ≡ some s
    → (t : Subscriber) × (get_elem? (run c es).subscribers k ≡ some t)
unfolding run
run-at [] c k s v at = (s, at)
run-at (e ∷ es) c k s v at =
    let (s', at', _) = exec-Step e k s c (All-get_elem? IsSound c.subscribers k v.sound at) at in
    run-at es (exec e c) k s' (exec-Inv e c v) at'

-- Whoever subscribes and then has all that was sent folded into the contents at that time has the
-- contents now, whatever happened in between, as long as it was not dropped.
pub subscribe-replay :
    (c : RosterCore) (es : List Event) (t : Subscriber)
    → Inv c
    → get_elem? (run (subscribe c) es).subscribers (length c.subscribers) ≡ some t
    → t.is_registered ≡ true
    → replay (history t.ch) (view c) ≡ view (run (subscribe c) es)
unfolding subscribe exec
subscribe-replay c es t v et r =
    let added = get_elem?-append_length c.subscribers new_subscriber in
    let (upds, _, sent, seen) =
      run-replay es (subscribe c) (length c.subscribers) new_subscriber t (exec-Inv subscribes c v)
        added et r in
    ap (λ us. replay us (view c)) sent ∙ sym seen
