-- ===== src/Cmd/Spawn/Command/Ends.antt =====
-- How `mure spawn` ends: the calls of tmux that have succeeded, or failed, for each way.
use mure.Base.{
  ◌≡◌, true, false, List, [], ◌∷◌, ◌++◌, Option, none, some, Bytes, codes, is_empty, ◌⊎◌, ◌≢◌,
}
use mure.Base.Strings.{join}
use mure.Harnesses.Manifest.{Manifest}
use mure.Harnesses.Registry.{get}
use mure.Cmd.Spawn.{TaskArg, parse_task_arg, spawn_payload, resolve_harness}
use mure.Cmd.Target.{
  Runner, PostCreate, nothing, marks_window, lays_out, SpawnTargetPlan, pick_spawn_target,
}
use mure.Cmd.Spawn.Command.{Call, Spawned, target_or_empty, spawn_env}

abbrev pub sets : Bytes → Bytes → Bytes → List Bytes
sets pane name value = codes "set-option" ∷ codes "-p" ∷ codes "-t" ∷ pane ∷ name ∷ value ∷ []

abbrev pub lays : Bytes → List Bytes
lays wid = codes "select-layout" ∷ codes "-t" ∷ wid ∷ codes "even-horizontal" ∷ []

abbrev pub asks_window : Bytes → List Bytes
asks_window pane =
    codes "display-message" ∷ codes "-p" ∷ codes "-t" ∷ pane ∷ codes "#{window_id}" ∷ []

abbrev pub marks : Bytes → List Bytes
marks wid =
    codes "set-option"
    ∷ codes "-w"
    ∷ codes "-t"
    ∷ wid
    ∷ codes "@mure-subagents-window"
    ∷ codes "1"
    ∷ []

-- The calls that a plan asks for behind the pane have all succeeded.
abbrev pub IsPosted : Runner → PostCreate → Bytes → Type 0
IsPosted run nothing pane = Unit {0}
IsPosted run (lays_out wid) pane = run (lays wid) ≢ none
IsPosted run marks_window pane =
    (wid : Bytes) × (run (asks_window pane) ≡ some wid) × (run (marks wid) ≢ none)

-- One of them has failed.
abbrev pub FailsPost : Runner → PostCreate → Bytes → Type 0
FailsPost run nothing pane = ⊥
FailsPost run (lays_out wid) pane = run (lays wid) ≡ none
FailsPost run marks_window pane =
    (run (asks_window pane) ≡ none)
    ⊎ ((wid : Bytes) × (run (asks_window pane) ≡ some wid) × (run (marks wid) ≡ none))

abbrev pub target_args : List Bytes
target_args = codes "show-option" ∷ codes "-gv" ∷ codes "@mure-spawn-target" ∷ []

abbrev pub plan_of :
    Runner → Call → Bytes → List Bytes → Manifest → TaskArg → Option SpawnTargetPlan
plan_of run c role words m t =
    pick_spawn_target run c.tmux_pane (target_or_empty (run target_args))
      (spawn_payload c.shell (spawn_env c role (join (b' ' ∷ []) words) m t) c.environ)

-- The call is complete, and there is a plan for its pane.
pub record IsPlanned (run : Runner) (c : Call) (role : Bytes) (plan : SpawnTargetPlan)
    : Type 0 where
  pub words : List Bytes
  pub name : Bytes
  pub manifest : Manifest
  pub task_arg : TaskArg
  pub called : c.words ≡ role ∷ words
  pub has_socket : is_empty c.socket ≡ false
  pub resolved : resolve_harness c.harness_flag c.harness_env run ≡ some name
  pub sound : c.loading.is_sound ≡ true
  pub found : get c.loading.manifests name ≡ some manifest
  pub parsed : parse_task_arg manifest.task_arg ≡ some task_arg
  pub planned : plan_of run c role words manifest task_arg ≡ some plan

-- Every call has succeeded: the one that creates the pane, those behind it and the two marks.
pub record Succeeds (run : Runner) (c : Call) (r : Spawned) : Type 0 where
  pub role : Bytes
  pub plan : SpawnTargetPlan
  pub new_pane : Bytes
  pub is_planned : IsPlanned run c role plan
  pub created : run plan.argv ≡ some new_pane
  pub posted : IsPosted run plan.post_create new_pane
  pub role_set : run (sets new_pane (codes "@mure-role") role) ≢ none
  pub time_set : run (sets new_pane (codes "@mure-spawned-at") c.now) ≢ none
  pub code : r.code ≡ 0
  pub pane : r.pane ≡ some new_pane
  pub printed : r.printed ≡ c.agent_id ++ (b' ' ∷ (new_pane ++ (b'\n' ∷ [])))

-- A call behind the plan has failed; the pane stays if it had been created.
abbrev pub FailsCall : Runner → Call → Bytes → SpawnTargetPlan → Option Bytes → Type 0
FailsCall run c role plan pane =
    ((run plan.argv ≡ none) × (pane ≡ none))
    ⊎ ((new_pane : Bytes) × (run plan.argv ≡ some new_pane)
        × (pane ≡ some new_pane)
        × (FailsPost run plan.post_create new_pane
            ⊎ ((run (sets new_pane (codes "@mure-role") role) ≡ none)
                ⊎ (run (sets new_pane (codes "@mure-spawned-at") c.now) ≡ none))))

-- There is no plan, or a call has failed.
abbrev pub Fails : Runner → Call → Spawned → Type 0
Fails run c r =
    (r.code ≢ 0)
    × (r.printed ≡ [])
    × (((r.pane ≡ none) × ¬ ((role : Bytes) × (plan : SpawnTargetPlan) × IsPlanned run c role plan))
        ⊎ ((role : Bytes) × (plan : SpawnTargetPlan) × IsPlanned run c role plan
            × FailsCall run c role plan r.pane))

abbrev pub IsReport : Runner → Call → Spawned → Type 0
IsReport run c r = Succeeds run c r ⊎ Fails run c r
