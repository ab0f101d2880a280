-- ===== src/Cmd/Integration/Cycle.antt =====
-- An installation and its removal.
use mure.Base.{◌≢◌, ◌≡◌, refl, false, List, Option, none, some, Bytes, equal_refl}
use mure.Base.Strings.{Lacks}
use mure.Base.Dict.{lookup, lookup-insert, lookup-delete}
use mure.Harnesses.Manifest.{Manifest}
use mure.Harnesses.Plan.{Host, build_plan}
use mure.Harnesses.Install.{FileOp, Receipt, apply}
use mure.Harnesses.Install.Step.{no_faults}
use mure.Harnesses.Install.Restore.{AreRestorable, uninstall-apply}
use mure.Harnesses.State.{StateFaults, read_state, write_state, clear_state}
use mure.Harnesses.Registry.{Entry, load, get}
use mure.Harnesses.Registry.Loaded.{get-load}
use mure.Harnesses.Plan.Merges.{valid_plan_succeeds}
use mure.Cmd.Integration.{System, World, integration_install, integration_uninstall}

abbrev pub no_state_faults : StateFaults
no_state_faults = record {
  unplaced = false;
  mkdir_fails = false;
  read_fails = false;
  write_fails = false;
  remove_fails = false;
}

abbrev pub sound_world : Host → (Bytes → Bytes) → World
sound_world host sum = record {
  host = host;
  faults = no_faults;
  state_faults = no_state_faults;
  sum = sum;
}

-- Let the plan of a known harness, whose name has no newline, have no path twice, and find at each
-- path nothing or, for an append, lines of the user's own with no marker of the harness, and append
-- no line that begins with its end marker. Where no call fails, `install` and then `uninstall` both
-- exit with 0, every path has the contents or the absence that it had before, and no receipt of the
-- harness is kept.
pub integration_uninstall-install :
    (host : Host) (sum : Bytes → Bytes) (ms : List Manifest) (name : Bytes) (s : System)
    (m : Manifest) (ops : List FileOp) (p : Bytes)
    → get ms name ≡ some m
    → build_plan host m ≡ some ops
    → Lacks b'\n' name
    → AreRestorable name ops s.files
    → ((integration_install (sound_world host sum) ms name s).0 ≡ 0)
      × ((integration_uninstall
            (sound_world host sum)
            name
            (integration_install (sound_world host sum) ms name s).1).0
          ≡ 0)
      × (lookup p
            (integration_uninstall
              (sound_world host sum)
              name
              (integration_install (sound_world host sum) ms name s).1).1.files
          ≡ lookup p s.files)
      × (lookup name
            (integration_uninstall
              (sound_world host sum)
              name
              (integration_install (sound_world host sum) ms name s).1).1.receipts
          ≡ none)
unfolding integration_install integration_uninstall read_state write_state clear_state
integration_uninstall-install host sum ms name s m ops p g b n r =
    let (done, restored) = uninstall-apply sum name ops s.files p n r in
    let receipt : Receipt = record {
      harness = name;
      files = (apply no_faults sum name ops s.files).receipts;
    } in
    rw (g, b, done, lookup-insert name name receipt s.receipts, equal_refl name)
      (refl, refl, restored, rw (lookup-delete name name _, equal_refl name) refl)

-- A harness that `Load` finds, and that has a plan: where no call fails, `install` exits with 0,
-- whatever files there are, and a receipt of the harness is kept. No merge mode is unknown to `Apply`.
pub loaded-install_succeeds :
    (host : Host) (sum : Bytes → Bytes) (toml : Bytes → Option Manifest) (es : List Entry)
    (name : Bytes) (s : System) (m : Manifest) (ops : List FileOp)
    → get (load toml es).manifests name ≡ some m
    → build_plan host m ≡ some ops
    → ((integration_install (sound_world host sum) (load toml es).manifests name s).0 ≡ 0)
      × (lookup name
            (integration_install (sound_world host sum) (load toml es).manifests name s).1.receipts
          ≢ none)
unfolding integration_install write_state
loaded-install_succeeds host sum toml es name s m ops g b =
    let (same, valid) = get-load toml es name m g in
    let done = valid_plan_succeeds host m ops sum name s.files valid b in
    let receipt : Receipt = record {
      harness = name;
      files = (apply no_faults sum name ops s.files).receipts;
    } in
    rw (g, b, done, lookup-insert name name receipt s.receipts, equal_refl name) (refl, λ e. cc)
