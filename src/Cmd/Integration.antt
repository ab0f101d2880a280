-- ===== src/Cmd/Integration.antt =====
-- cmd/mure/integration.go: installing a harness and taking it back. The harnesses that `Load` finds are
-- an argument.
pub mod Actions
pub mod Failure
pub mod Cycle
use mure.Base.{ℕ, Bool, true, false, List, [], ◌∷◌, Option, none, some, Bytes, equal, if◌then◌else◌}
use mure.Harnesses.Manifest.{Manifest}
use mure.Harnesses.Plan.{Host, build_plan}
use mure.Harnesses.Install.{Files, Faults, FileOp, Receipt, Applied, apply, uninstall}
use mure.Harnesses.Registry.{get}
use mure.Harnesses.State.{
  Receipts, StateFaults, Kept, kept, not_kept, unreadable, write_state, read_state, clear_state,
}

-- What a run may change.
pub record System : Type 0 where
  pub files : Files
  pub receipts : Receipts

-- What the calls of a run do: the plan's host, the faults, and the hash.
pub record World : Type 0 where
  pub host : Host
  pub faults : Faults
  pub state_faults : StateFaults
  pub sum : Bytes → Bytes

-- The exit code and the system.
abbrev pub install_receipt : World → Bytes → Applied → Receipts → ℕ × System
install_receipt w name a rs =
    let (written, rs') =
      write_state w.state_faults name (record { harness = name; files = a.receipts }) rs in
    if a.succeeds
    then ((if written then 0 else 1), record { files = a.files; receipts = rs' })
    else (1, record { files = a.files; receipts = rs })

abbrev pub install_plan : World → Bytes → System → Option (List FileOp) → ℕ × System
install_plan w name s none = (1, s)
install_plan w name s (some ops) =
    install_receipt w name (apply w.faults w.sum name ops s.files) s.receipts

abbrev pub install_manifest : World → Bytes → System → Option Manifest → ℕ × System
install_manifest w name s none = (2, s)
install_manifest w name s (some m) = install_plan w name s (build_plan w.host m)

unfoldable pub integration_install : World → List Manifest → Bytes → System → ℕ × System
unfolding get write_state
integration_install w ms name s = install_manifest w name s (get ms name)

abbrev pub uninstall_kept : World → Bytes → System → Kept → ℕ × System
uninstall_kept w name s unreadable = (1, s)
uninstall_kept w name s not_kept = (0, s)
uninstall_kept w name s (kept r) =
    let (warns, files) = uninstall w.faults w.sum r s.files in
    let (cleared, rs) = clear_state w.state_faults name s.receipts in
    ((if cleared then 0 else 1), record { files = files; receipts = rs })

unfoldable pub integration_uninstall : World → Bytes → System → ℕ × System
unfolding read_state clear_state
integration_uninstall w name s = uninstall_kept w name s (read_state w.state_faults name s.receipts)
