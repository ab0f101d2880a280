-- ===== src/Daemon/Roster/Latest.antt =====
-- What an agent's entry is after any requests, field by field, from the last request that says it.
use mure.Base.{
  ◌≡◌, refl, ◌∙◌, Bool, false, List, [], ◌∷◌, Option, none, some, Bytes, codes, arith, equal,
  is_empty, if◌then◌else◌, All, Bool-cases, inl, inr, zero, suc,
}
use mure.Base.Int.{ℤ, pos, negsuc, is_zero}
use mure.Sock.{Hello}
use mure.Daemon.Roster.{
  AgentState, RosterCore, Event, exec, run, upserts, updates_identity, applies_status,
  applies_result, removes, with_status, apply_hello_identity, set_launch_dir, subscribe, cancel,
}
use mure.Daemon.Roster.Lookup.{entry, exec-entry}

-- A text that is not empty.
abbrev pub given : Bytes → Option Bytes
given [] = none
given (b ∷ s) = some (b ∷ s)

-- What the hellos of an agent say of it.
abbrev pub in_hello : {A : Type 0} → (Hello → Option A) → Bytes → Event → Option A
in_hello f id (upserts now h) = if equal h.agent_id id then f h else none
in_hello f id (updates_identity h) = if equal h.agent_id id then f h else none
in_hello f id _ = none

abbrev pub given_pid : ℤ → Option ℤ
given_pid (pos zero) = none
given_pid n = some n

-- What its statuses and results say.
abbrev pub said_status : Bytes → Event → Option Bytes
said_status id (applies_status now s) = if equal s.agent_id id then some s.status else none
said_status id _ = none

abbrev pub said_task : Bytes → Event → Option Bytes
said_task id (applies_status now s) = if equal s.agent_id id then some s.task else none
said_task id _ = none

-- The time of a turn's end: that of a status of `idle`, and of no other.
abbrev pub said_end : Bytes → Event → Option ℤ
said_end id (applies_status now s) =
    if equal s.agent_id id
    then (if equal s.status (codes "idle") then some s.ts else none)
    else none
said_end id _ = none

abbrev pub said_result : Bytes → Event → Option Bytes
said_result id (applies_result now r) = if equal r.agent_id id then some r.text else none
said_result id _ = none

abbrev pub or : {A : Type 0} → Option A → A → A
or none d = d
or (some x) d = x

-- The last that the events say, or else `d`.
abbrev pub last : {A : Type 0} → (Event → Option A) → List Event → A → A
last f [] d = d
last f (e ∷ es) d = last f es (or (f e) d)

abbrev pub latest : Bytes → List Event → AgentState → AgentState
latest id es a = record {
  id = a.id;
  pane_id = last (in_hello (λ h. given h.pane_id) id) es a.pane_id;
  role = last (in_hello (λ h. given h.agent_role) id) es a.role;
  pid = last (in_hello (λ h. given_pid h.pid) id) es a.pid;
  pi_version = last (in_hello (λ h. given h.pi_version) id) es a.pi_version;
  status = last (said_status id) es a.status;
  task = last (said_task id) es a.task;
  created_at = a.created_at;
  last_turn_ended_at = last (said_end id) es a.last_turn_ended_at;
  result = last (said_result id) es a.result;
}

abbrev pub is_removal_of : Bytes → Event → Bool
is_removal_of id (removes k) = equal k id
is_removal_of id _ = false

given-or : (s d : Bytes) → or (given s) d ≡ (if is_empty s then d else s)
given-or [] d = refl
given-or (b ∷ s) d = refl

given_pid-or : (n d : ℤ) → or (given_pid n) d ≡ (if is_zero n then d else n)
given_pid-or (pos zero) d = refl
given_pid-or (pos (suc n)) d = ground arith
given_pid-or (negsuc n) d = refl

-- One hello, where it is for the agent or not.
hello-latest :
    (h : Hello) (id : Bytes) (a : AgentState)
    → (if equal h.agent_id id then some (apply_hello_identity a h) else some a)
      ≡ some (latest id (updates_identity h ∷ []) a)
unfolding apply_hello_identity
hello-latest h id a = elim (Bool-cases (equal h.agent_id id)) [
  | inl own ↦
      rw
        (
          own,
          given-or h.pane_id a.pane_id,
          given-or h.agent_role a.role,
          given_pid-or h.pid a.pid,
          given-or h.pi_version a.pi_version,
        )
        refl
  | inr other ↦ rw other refl
]

exec-latest :
    (e : Event) (c : RosterCore) (id : Bytes) (a : AgentState)
    → entry id c ≡ some a
    → is_removal_of id e ≡ false
    → entry id (exec e c) ≡ some (latest id (e ∷ []) a)
unfolding exec with_status set_launch_dir subscribe cancel
exec-latest (upserts now h) c id a at k =
    exec-entry (upserts now h) c id ∙ rw at (hello-latest h id a)
exec-latest (updates_identity h) c id a at k =
    exec-entry (updates_identity h) c id ∙ rw at (hello-latest h id a)
exec-latest (applies_status now s) c id a at k =
    exec-entry (applies_status now s) c id ∙ rw at (ground arith)
exec-latest (applies_result now r) c id a at k =
    exec-entry (applies_result now r) c id ∙ rw at (ground arith)
exec-latest (removes j) c id a at k = exec-entry (removes j) c id ∙ rw (k, at) refl
exec-latest _ c id a at k = at

-- While an agent is not removed, its entry keeps its ID and the time at which it was created; its
-- status, its task, its result, its pane, its role, its process and its version are those of the last
-- request that gave one, and its turn ended last at the time of the last status of `idle`, whatever
-- the other requests and those for other agents did meanwhile.
pub run-latest :
    (es : List Event) (c : RosterCore) (id : Bytes) (a : AgentState)
    → entry id c ≡ some a
    → All (λ e. is_removal_of id e ≡ false) es
    → entry id (run c es) ≡ some (latest id es a)
unfolding run
run-latest [] c id a at none_removes = at
run-latest (e ∷ es) c id a at k =
    run-latest es (exec e c) id (latest id (e ∷ []) a) (exec-latest e c id a at k.0) k.1
