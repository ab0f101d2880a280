-- ===== src/Cmd/Integration/Actions.antt =====
-- cmd/mure/integration.go: the choice of the action, and the table of `list`.
pub mod Listing
use mure.Base.{
  ℕ, Bool, true, false, not, ◌||◌, List, [], ◌∷◌, Option, none, some, Bytes, codes, equal,
  if◌then◌else◌,
}
use mure.Harnesses.Manifest.{Manifest}
use mure.Harnesses.Registry.{Loading}
use mure.Harnesses.State.{Kept, kept, read_state}
use mure.Cmd.Integration.{World, System, integration_install, integration_uninstall}

-- A row of the table; its note is `degraded` where the flag is set, and empty otherwise.
pub record Listed : Type 0 where
  pub name : Bytes
  pub display : Bytes
  pub installed : Bool
  pub spawn : Bool
  pub status : Bool
  pub result : Bool
  pub is_degraded : Bool

abbrev pub is_kept : Kept → Bool
is_kept (kept r) = true
is_kept _ = false

unfoldable pub list_row : World → System → Manifest → Listed
list_row w s m = record {
  name = m.name;
  display = m.display;
  installed = is_kept (read_state w.state_faults m.name s.receipts);
  spawn = m.capabilities.spawn;
  status = m.capabilities.status;
  result = m.capabilities.result;
  is_degraded = not m.capabilities.status || not m.capabilities.result;
}

unfoldable pub integration_list : World → System → List Manifest → List Listed
unfolding list_row
integration_list w s [] = []
integration_list w s (m ∷ ms) = list_row w s m ∷ integration_list w s ms

-- The exit code, the system, and the rows that are printed.
pub record Ran : Type 0 where
  pub code : ℕ
  pub system : System
  pub rows : List Listed

abbrev pub ran : ℕ × System → Ran
ran (n, s) = record { code = n; system = s; rows = [] }

abbrev pub install_named : World → Loading → List Bytes → System → Ran
install_named w l [] s = ran (2, s)
install_named w l (name ∷ _) s = ran (integration_install w l.manifests name s)

abbrev pub uninstall_named : World → List Bytes → System → Ran
uninstall_named w [] s = ran (2, s)
uninstall_named w (name ∷ _) s = ran (integration_uninstall w name s)

unfoldable pub cmd_integration : World → Loading → List Bytes → System → Ran
unfolding integration_list
cmd_integration w l [] s = ran (2, s)
cmd_integration w l (action ∷ argv) s =
    if equal action (codes "list")
    then record { code = 0; system = s; rows = integration_list w s l.manifests }
    else if equal action (codes "install")
    then (if l.is_sound then install_named w l argv s else ran (1, s))
    else if equal action (codes "uninstall")
    then uninstall_named w argv s
    else ran (2, s)
