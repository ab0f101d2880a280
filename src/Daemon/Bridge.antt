-- ===== src/Daemon/Bridge.antt =====
-- internal/daemon/tmuxbridge.go: which agents a tick of the poll prunes.
pub mod Reconcile
use mure.Base.{
  Bool, true, false, not, ◌&&◌, List, [], ◌∷◌, ◌++◌, Option, none, some, Bytes, codes, equal,
  is_empty, if◌then◌else◌,
}
use mure.Base.Strings.{split, trim_space, trim_prefix}
use mure.Sock.{AgentSnapshot}
use mure.Daemon.Roster.{RosterCore, Event, roster_snapshot, removes}

-- The commands of `SetupSession`, in order.
unfoldable pub setup_commands : Bytes → Bytes → Bytes → List Bytes
setup_commands session run_dir sock_path =
    (codes "set-environment -t " ++ (session ++ codes " MURE_ENV 1"))
    ∷ (codes "set-environment -t " ++ (session ++ (codes " MURE_SESSION " ++ session)))
    ∷ (codes "set-environment -t " ++ (session ++ (codes " MURE_RUN_DIR " ++ run_dir)))
    ∷ (codes "set-environment -t " ++ (session ++ (codes " MURE_SOCKET " ++ sock_path)))
    ∷ codes "refresh-client -f no-output"
    ∷ []

abbrev pub id_prefix : Bytes
id_prefix = codes "p="

unfoldable pub line_id : Bytes → Bytes
line_id ln = trim_space (trim_prefix id_prefix (trim_space ln))

-- The keys of `live`, one for each line with an ID.
unfoldable pub line_ids : List Bytes → List Bytes
line_ids [] = []
line_ids (ln ∷ lns) =
    let rest = line_ids lns in if is_empty (line_id ln) then rest else line_id ln ∷ rest

unfoldable pub live_ids : Bytes → List Bytes
live_ids out = line_ids (split b'\n' out)

unfoldable pub contains : Bytes → List Bytes → Bool
contains id [] = false
contains id (j ∷ js) = if equal j id then true else contains id js

-- Pane IDs are compared with those of tmux; an agent with none is left alone.
abbrev pub is_pruned : List Bytes → AgentSnapshot → Bool
is_pruned live a = not (is_empty a.pane) && not (contains a.pane live)

unfoldable pub pruned_ids : List Bytes → List AgentSnapshot → List Bytes
pruned_ids live [] = []
pruned_ids live (a ∷ as') =
    let rest = pruned_ids live as' in if is_pruned live a then a.id ∷ rest else rest

abbrev pub removals : List Bytes → List Event
removals [] = []
removals (id ∷ ids) = removes id ∷ removals ids

-- The requests of `reconcile`, from the reply to `list-panes`; a failure prunes nobody.
unfoldable pub reconcile : Option Bytes → RosterCore → List Event
reconcile none c = []
reconcile (some out) c = removals (pruned_ids (live_ids out) (roster_snapshot c).agents)
