-- ===== src/Cmd/Spawn/Command/Report.antt =====
-- What `mure spawn` reports, and which of its calls have succeeded where it exits with 0.
use mure.Base.{
  ℕ, ◌≡◌, refl, true, false, List, [], ◌∷◌, Option, none, some, Bytes, codes, is_empty, arith, ◌⊎◌,
  inl, inr, ◌≢◌, Bool-cases, Option-cases, if_ind,
}
use mure.Base.Strings.{join}
use mure.Harnesses.Manifest.{Manifest}
use mure.Harnesses.Registry.{get}
use mure.Cmd.Spawn.{TaskArg, parse_task_arg, resolve_harness}
use mure.Cmd.Target.{Runner, PostCreate, nothing, marks_window, lays_out, SpawnTargetPlan}
use mure.Cmd.Spawn.Command.{
  Call, stops, leaves, post_create, in_pane, with_plan, with_task_arg, with_manifest, with_harness,
  spawn_words, spawn, succeeds,
}
use mure.Cmd.Spawn.Command.Ends.{
  sets, lays, asks_window, marks, IsPosted, FailsPost, plan_of, IsPlanned, IsReport,
}

succeeds_cases :
    (o : Option Bytes) → ((succeeds o ≡ true) × (o ≢ none)) ⊎ ((succeeds o ≡ false) × (o ≡ none))
succeeds_cases none = inr (refl, refl)
succeeds_cases (some out) = inl (refl, λ e. cc)

post_create_cases :
    (run : Runner) (post : PostCreate) (pane : Bytes)
    → ((post_create run post pane ≡ true) × IsPosted run post pane)
      ⊎ ((post_create run post pane ≡ false) × FailsPost run post pane)
unfolding post_create
post_create_cases run nothing pane = inl (refl, tt)
post_create_cases run (lays_out wid) pane = succeeds_cases (run (lays wid))
post_create_cases run marks_window pane = elim (Option-cases (run (asks_window pane))) [
  | inl fails ↦ inr (rw fails refl, inl fails)
  | inr (wid, e) ↦ elim (succeeds_cases (run (marks wid))) [
    | inl (ok, is) ↦ inl (rw e ok, (wid, e, is))
    | inr (ko, is) ↦ inr (rw e ko, inr (wid, e, is))
  ]
]

module _ (run : Runner) (c : Call) where
  no_plan :
      (n : ℕ)
      → n ≢ 0
      → ¬ ((role : Bytes) × (plan : SpawnTargetPlan) × IsPlanned run c role plan)
      → IsReport run c (stops n)
  no_plan n h p = inr (h, refl, inl (refl, p))

  call_fails :
      (role : Bytes) (plan : SpawnTargetPlan) (pane : Bytes)
      → IsPlanned run c role plan
      → run plan.argv ≡ some pane
      → FailsPost run plan.post_create pane
        ⊎ ((run (sets pane (codes "@mure-role") role) ≡ none)
            ⊎ (run (sets pane (codes "@mure-spawned-at") c.now) ≡ none))
      → IsReport run c (leaves pane)
  call_fails role plan pane p e w =
      inr (omega arith, refl, inr (role, plan, p, inr (pane, e, refl, w)))

  created-IsReport :
      (role : Bytes) (plan : SpawnTargetPlan) (pane : Bytes)
      → IsPlanned run c role plan
      → run plan.argv ≡ some pane
      → IsReport run c (in_pane run c role plan.post_create (some pane))
  created-IsReport role plan pane p e = elim (post_create_cases run plan.post_create pane) [
    | inr (ko, is) ↦ rw ko (call_fails role plan pane p e (inl is))
    | inl (ok, posted) ↦ elim (succeeds_cases (run (sets pane (codes "@mure-role") role))) [
      | inr (ko, is) ↦ rw (ok, ko) (call_fails role plan pane p e (inr (inl is)))
      | inl (ok', role_set) ↦
          elim (succeeds_cases (run (sets pane (codes "@mure-spawned-at") c.now))) [
            | inr (ko, is) ↦ rw (ok, ok', ko) (call_fails role plan pane p e (inr (inr is)))
            | inl (ok'', time_set) ↦
                rw (ok, ok', ok'')
                  (inl (record {
                    role = role;
                    plan = plan;
                    new_pane = pane;
                    is_planned = p;
                    created = e;
                    posted = posted;
                    role_set = role_set;
                    time_set = time_set;
                    code = refl;
                    pane = refl;
                    printed = refl;
                  }))
          ]
    ]
  ]

  in_pane-IsReport :
      (role : Bytes) (plan : SpawnTargetPlan)
      → IsPlanned run c role plan
      → IsReport run c (in_pane run c role plan.post_create (run plan.argv))
  in_pane-IsReport role plan p = elim (Option-cases (run plan.argv)) [
    | inl fails ↦ rw fails (inr (omega arith, refl, inr (role, plan, p, inl (fails, refl))))
    | inr (pane, e) ↦ rw e (created-IsReport role plan pane p e)
  ]

  -- What a plan rests on is there only once.
  not_planned :
      {role role' : Bytes} {words : List Bytes} {name : Bytes} {m : Manifest} {t : TaskArg}
      → {plan : SpawnTargetPlan} → IsPlanned run c role' plan
      → c.words ≡ role ∷ words
      → resolve_harness c.harness_flag c.harness_env run ≡ some name
      → get c.loading.manifests name ≡ some m
      → parse_task_arg m.task_arg ≡ some t
      → plan_of run c role words m t ≢ none
  not_planned p called resolved found parsed unplanned =
      let e1 = p.called in
      let e2 = p.resolved in let e3 = p.found in let e4 = p.parsed in let e5 = p.planned in cc

  planned-IsReport :
      (role : Bytes) (words : List Bytes) (name : Bytes) (m : Manifest) (t : TaskArg)
      → c.words ≡ role ∷ words
      → is_empty c.socket ≡ false
      → resolve_harness c.harness_flag c.harness_env run ≡ some name
      → c.loading.is_sound ≡ true
      → get c.loading.manifests name ≡ some m
      → parse_task_arg m.task_arg ≡ some t
      → IsReport run c (with_plan run c role (plan_of run c role words m t))
  planned-IsReport role words name m t called has_socket resolved sound found parsed =
      elim (Option-cases (plan_of run c role words m t)) [
        | inl unplanned ↦ rw unplanned (
            no_plan 1 (omega arith)
              (λ (_, _, p). not_planned p called resolved found parsed unplanned))
        | inr (plan, planned) ↦ rw planned (
            in_pane-IsReport role plan (record {
              words = words;
              name = name;
              manifest = m;
              task_arg = t;
              called = called;
              has_socket = has_socket;
              resolved = resolved;
              sound = sound;
              found = found;
              parsed = parsed;
              planned = planned;
            }))
      ]

  parsed-IsReport :
      (role : Bytes) (words : List Bytes) (name : Bytes) (m : Manifest)
      → c.words ≡ role ∷ words
      → is_empty c.socket ≡ false
      → resolve_harness c.harness_flag c.harness_env run ≡ some name
      → c.loading.is_sound ≡ true
      → get c.loading.manifests name ≡ some m
      → (o : Option TaskArg) → parse_task_arg m.task_arg ≡ o
      → IsReport run c (with_task_arg run c role (join (b' ' ∷ []) words) m o)
  parsed-IsReport role words name m called has_socket resolved sound found none unknown =
      no_plan 1 (omega arith)
        (λ (_, _, p). let e = p.resolved in let e' = p.found in let e'' = p.parsed in cc)
  parsed-IsReport role words name m called has_socket resolved sound found (some t) parsed =
      planned-IsReport role words name m t called has_socket resolved sound found parsed

  found-IsReport :
      (role : Bytes) (words : List Bytes) (name : Bytes)
      → c.words ≡ role ∷ words
      → is_empty c.socket ≡ false
      → resolve_harness c.harness_flag c.harness_env run ≡ some name
      → c.loading.is_sound ≡ true
      → (o : Option Manifest) → get c.loading.manifests name ≡ o
      → IsReport run c (with_manifest run c role (join (b' ' ∷ []) words) o)
  found-IsReport role words name called has_socket resolved sound none missing =
      no_plan 1 (omega arith) (λ (_, _, p). let e = p.resolved in let e' = p.found in cc)
  found-IsReport role words name called has_socket resolved sound (some m) found =
      parsed-IsReport role words name m called has_socket resolved sound found
        (parse_task_arg m.task_arg) refl

  named-IsReport :
      (role : Bytes) (words : List Bytes) (name : Bytes)
      → c.words ≡ role ∷ words
      → is_empty c.socket ≡ false
      → resolve_harness c.harness_flag c.harness_env run ≡ some name
      → IsReport run c (with_harness run c role (join (b' ' ∷ []) words) (some name))
  named-IsReport role words name called has_socket resolved =
      if_ind (IsReport run c) c.loading.is_sound _ _
        (λ sound.
          found-IsReport role words name called has_socket resolved sound
            (get c.loading.manifests name) refl)
        (λ ko. no_plan 1 (omega arith) (λ (_, _, p). let e = p.sound in cc))

  words-IsReport : (words : List Bytes) → c.words ≡ words → IsReport run c (spawn_words run c words)
  words-IsReport [] called = no_plan 2 (omega arith) (λ (_, _, p). let e = p.called in cc)
  words-IsReport (role ∷ words) called = elim (Bool-cases (is_empty c.socket)) [
    | inl no_socket ↦
        rw no_socket (no_plan 1 (omega arith) (λ (_, _, p). let e = p.has_socket in cc))
    | inr has_socket ↦ elim (Option-cases (resolve_harness c.harness_flag c.harness_env run)) [
      | inl unnamed ↦
          rw (has_socket, unnamed) (no_plan 1 (omega arith) (λ (_, _, p). let e = p.resolved in cc))
      | inr (name, resolved) ↦
          rw (has_socket, resolved) (named-IsReport role words name called has_socket resolved)
    ]
  ]

-- Whatever tmux answers, `mure spawn` ends in one of two ways. It exits with 0, has created a pane and
-- prints the agent's ID and that pane: then there was a plan for the call, and the calls of tmux that
-- create the pane, lay out or mark its window and mark the pane with the role and the time have all
-- succeeded. Or it exits with another code and prints nothing: then there was no plan, for want of a
-- role, a socket, a harness or a place, and no pane is created, or one of these calls has failed.
pub spawn-IsReport : (run : Runner) (c : Call) → IsReport run c (spawn run c)
unfolding spawn
spawn-IsReport run c = words-IsReport run c c.words refl
