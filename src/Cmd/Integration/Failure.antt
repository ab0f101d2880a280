-- ===== src/Cmd/Integration/Failure.antt =====
-- An installation that fails in the middle.
use mure.Base.{◌≡◌, refl, false, List, none, some, Bytes}
use mure.Base.Dict.{lookup}
use mure.Harnesses.Manifest.{Manifest}
use mure.Harnesses.Plan.{build_plan}
use mure.Harnesses.Install.{FileOp, apply}
use mure.Harnesses.State.{read_state}
use mure.Harnesses.Registry.{get}
use mure.Cmd.Integration.{System, World, integration_install, integration_uninstall}

-- Where no receipt of a known harness with a plan is kept yet and the receipts can be read: if `Apply`
-- fails, whatever it has written by then, `install` exits with 1 and keeps no receipt, so `uninstall`
-- exits with 0 and leaves the files as `Apply` left them.
pub failed_install_stays :
    (w : World) (ms : List Manifest) (name : Bytes) (s : System) (m : Manifest) (ops : List FileOp)
    → get ms name ≡ some m
    → build_plan w.host m ≡ some ops
    → (apply w.faults w.sum name ops s.files).succeeds ≡ false
    → lookup name s.receipts ≡ none
    → w.state_faults.unplaced ≡ false
    → w.state_faults.read_fails ≡ false
    → ((integration_install w ms name s).0 ≡ 1)
      × (integration_uninstall w name (integration_install w ms name s).1 ≡ (
        0,
        record { files = (apply w.faults w.sum name ops s.files).files; receipts = s.receipts },
      ))
unfolding integration_install integration_uninstall read_state
failed_install_stays w ms name s m ops g p a n u r = rw (g, p, a, n, u, r) (refl, refl)
