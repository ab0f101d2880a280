-- ===== src/Tests/Cmd.antt =====
-- A task with quotes, and a session with two windows.
use mure.Base.{◌≡◌, refl, true, false, [], ◌∷◌, ◌++◌, map, some, Bytes, codes, if◌then◌else◌}
use mure.Base.Strings.{join}
use mure.Cmd.Spawn.{SpawnEnv, task_arg_positional, inner, spawn_payload}
use mure.Cmd.Spawn.Quoting.{bare, read_word, spawn_payload-read_word}
use mure.Tests.Harnesses.{manifest}
use mure.Cmd.Spawn.Command.{Call, spawn}
use mure.Cmd.Spawn.Command.Ends.{IsReport}
use mure.Cmd.Spawn.Command.Report.{spawn-IsReport}
use mure.Cmd.Target.{find_window, or_else}
use mure.Cmd.Target.Windows.{Window, window_line, first_marked, first_named, find_window-join}

abbrev scout_env : SpawnEnv
scout_env = record {
  agent_id = codes "agent-1";
  sock_path = codes "/tmp/s";
  role = codes "scout";
  task = codes "fix 'a'";
  session = [];
  harness_name = codes "pi";
  command = codes "pi";
  task_arg = task_arg_positional;
}

spawn_payload-read_word_example :
    (w : Bytes) × (spawn_payload [] scout_env (codes "A=1" ∷ [])
      ≡ (if true then codes "/bin/sh" else []) ++ (codes " -lic " ++ w))
    × (read_word bare w ≡ some (inner scout_env (codes "A=1" ∷ [])))
spawn_payload-read_word_example = spawn_payload-read_word [] scout_env (codes "A=1" ∷ [])

abbrev editor : Window
editor = record { id = codes "@1"; name = codes "vi"; is_marked = false; is_trimmed = false }

abbrev agents : Window
agents = record { id = codes "@2"; name = codes "w"; is_marked = true; is_trimmed = true }

find_window-join_example :
    find_window (join (b'\n' ∷ []) (map window_line (editor ∷ agents ∷ [])))
    ≡ or_else (first_marked (editor ∷ agents ∷ [])) (first_named (editor ∷ agents ∷ []))
find_window-join_example = find_window-join editor (agents ∷ []) (
  record {
    solid_id = (refl, (refl, tt));
    some_id = refl;
    solid_name = (refl, (refl, tt));
    some_name = refl;
  },
  (
    record {
      solid_id = (refl, (refl, tt));
      some_id = refl;
      solid_name = (refl, tt);
      some_name = refl;
    },
    tt,
  ),
)

-- tmux answers every call with the name of a pane, so the agent is spawned.
abbrev call : Call
call = record {
  harness_flag = codes "pi";
  words = codes "scout" ∷ codes "look" ∷ [];
  socket = codes "/s";
  harness_env = [];
  tmux_pane = [];
  shell = [];
  environ = [];
  loading = record { manifests = manifest ∷ []; is_sound = true };
  agent_id = codes "agent-1";
  session = [];
  now = codes "1";
}

spawn-IsReport_example :
    IsReport (λ argv. some (codes "%9")) call (spawn (λ argv. some (codes "%9")) call)
spawn-IsReport_example = spawn-IsReport (λ argv. some (codes "%9")) call
