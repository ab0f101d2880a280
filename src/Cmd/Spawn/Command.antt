-- ===== src/Cmd/Spawn/Command.antt =====
-- cmd/mure/spawn.go: `cmdSpawn`, behind its flags, with the calls of tmux that it makes; and what
-- `PostCreate` of cmd/mure/spawn_target.go runs. A call of the runner is its answer.
pub mod Ends
pub mod Report
use mure.Base.{
  ℕ, Bool, true, false, List, [], ◌∷◌, ◌++◌, Option, none, some, Bytes, codes, is_empty,
  if◌then◌else◌,
}
use mure.Base.Strings.{join}
use mure.Harnesses.Manifest.{Manifest}
use mure.Harnesses.Registry.{Loading, get}
use mure.Cmd.Spawn.{SpawnEnv, TaskArg, parse_task_arg, spawn_payload, resolve_harness}
use mure.Cmd.Target.{
  Runner, PostCreate, nothing, marks_window, lays_out, SpawnTargetPlan, pick_spawn_target,
}

-- The flag and the words behind it, the environment, the harnesses that `Load` returns, the random
-- ID, and the time in milliseconds as a text.
pub record Call : Type 0 where
  pub harness_flag : Bytes
  pub words : List Bytes
  pub socket : Bytes
  pub harness_env : Bytes
  pub tmux_pane : Bytes
  pub shell : Bytes
  pub environ : List Bytes
  pub loading : Loading
  pub agent_id : Bytes
  pub session : Bytes
  pub now : Bytes

-- The exit code, the pane that was created, and what is printed.
pub record Spawned : Type 0 where
  pub code : ℕ
  pub pane : Option Bytes
  pub printed : Bytes

abbrev pub stops : ℕ → Spawned
stops n = record { code = n; pane = none; printed = [] }

abbrev pub leaves : Bytes → Spawned
leaves pane = record { code = 1; pane = some pane; printed = [] }

abbrev pub succeeds : Option Bytes → Bool
succeeds none = false
succeeds (some out) = true

abbrev pub mark : Runner → Option Bytes → Bool
mark run none = false
mark run (some wid) = succeeds (
    run (
      codes "set-option"
      ∷ codes "-w"
      ∷ codes "-t"
      ∷ wid
      ∷ codes "@mure-subagents-window"
      ∷ codes "1"
      ∷ []))

unfoldable pub post_create : Runner → PostCreate → Bytes → Bool
post_create run nothing pane = true
post_create run (lays_out wid) pane =
    succeeds (run (codes "select-layout" ∷ codes "-t" ∷ wid ∷ codes "even-horizontal" ∷ []))
post_create run marks_window pane =
    mark run
      (run (codes "display-message" ∷ codes "-p" ∷ codes "-t" ∷ pane ∷ codes "#{window_id}" ∷ []))

abbrev pub set_on_pane : Runner → Bytes → Bytes → Bytes → Bool
set_on_pane run pane name value =
    succeeds (run (codes "set-option" ∷ codes "-p" ∷ codes "-t" ∷ pane ∷ name ∷ value ∷ []))

-- Behind the call that creates the pane.
abbrev pub in_pane : Runner → Call → Bytes → PostCreate → Option Bytes → Spawned
in_pane run c role post none = stops 1
in_pane run c role post (some pane) =
    if post_create run post pane
    then (if set_on_pane run pane (codes "@mure-role") role
        then (if set_on_pane run pane (codes "@mure-spawned-at") c.now
            then record {
              code = 0;
              pane = some pane;
              printed = c.agent_id ++ (b' ' ∷ (pane ++ (b'\n' ∷ [])));
            }
            else leaves pane)
        else leaves pane)
    else leaves pane

abbrev pub with_plan : Runner → Call → Bytes → Option SpawnTargetPlan → Spawned
with_plan run c role none = stops 1
with_plan run c role (some plan) = in_pane run c role plan.post_create (run plan.argv)

abbrev pub target_or_empty : Option Bytes → Bytes
target_or_empty none = []
target_or_empty (some target) = target

abbrev pub spawn_env : Call → Bytes → Bytes → Manifest → TaskArg → SpawnEnv
spawn_env c role task m t = record {
  agent_id = c.agent_id;
  sock_path = c.socket;
  role = role;
  task = task;
  session = c.session;
  harness_name = m.name;
  command = m.command;
  task_arg = t;
}

abbrev pub with_task_arg : Runner → Call → Bytes → Bytes → Manifest → Option TaskArg → Spawned
with_task_arg run c role task m none = stops 1
with_task_arg run c role task m (some t) =
    let target =
      target_or_empty (run (codes "show-option" ∷ codes "-gv" ∷ codes "@mure-spawn-target" ∷ [])) in
    let payload = spawn_payload c.shell (spawn_env c role task m t) c.environ in
    with_plan run c role (pick_spawn_target run c.tmux_pane target payload)

abbrev pub with_manifest : Runner → Call → Bytes → Bytes → Option Manifest → Spawned
with_manifest run c role task none = stops 1
with_manifest run c role task (some m) = with_task_arg run c role task m (parse_task_arg m.task_arg)

abbrev pub with_harness : Runner → Call → Bytes → Bytes → Option Bytes → Spawned
with_harness run c role task none = stops 1
with_harness run c role task (some name) =
    if c.loading.is_sound
    then with_manifest run c role task (get c.loading.manifests name)
    else stops 1

abbrev pub spawn_words : Runner → Call → List Bytes → Spawned
spawn_words run c [] = stops 2
spawn_words run c (role ∷ words) =
    if is_empty c.socket
    then stops 1
    else with_harness run c role (join (b' ' ∷ []) words)
        (resolve_harness c.harness_flag c.harness_env run)

unfoldable pub spawn : Runner → Call → Spawned
unfolding post_create
spawn run c = spawn_words run c c.words
