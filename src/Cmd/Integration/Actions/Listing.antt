-- ===== src/Cmd/Integration/Actions/Listing.antt =====
-- What `list` shows after an install.
use mure.Base.{
  ◌≡◌, refl, ap, ◌∙◌, true, false, ◌||◌, List, [], ◌∷◌, Option, none, some, Bytes, codes, equal,
  arith,
}
use mure.Base.Dict.{insert, lookup-insert}
use mure.Harnesses.Manifest.{Manifest}
use mure.Harnesses.Plan.{build_plan}
use mure.Harnesses.Install.{Receipt, FileOp, Applied, apply}
use mure.Harnesses.Registry.{Loading, get}
use mure.Harnesses.State.{Receipts, StateFaults, read_state, write_state}
use mure.Cmd.Integration.{
  World, System, install_receipt, install_plan, install_manifest, integration_install,
}
use mure.Cmd.Integration.Actions.{Listed, is_kept, list_row, integration_list, cmd_integration}

-- A receipt was added under the name.
record IsAdded (name : Bytes) (s t : System) : Type 0 where
  receipt : Receipt
  added : t.receipts ≡ insert name receipt s.receipts

write_state-added :
    (f : StateFaults) (name : Bytes) (r : Receipt) (rs : Receipts)
    → (write_state f name r rs).0 ≡ true
    → (write_state f name r rs).1 ≡ insert name r rs
unfolding write_state
write_state-added f name r rs h = ground arith

install_receipt-IsAdded :
    (w : World) (name : Bytes) (a : Applied) (s : System)
    → (install_receipt w name a s.receipts).0 ≡ 0
    → IsAdded name s (install_receipt w name a s.receipts).1
install_receipt-IsAdded w name a s h =
    let r : Receipt = record { harness = name; files = a.receipts } in
    record {
      receipt = r;
      added = ground (arith, write_state-added w.state_faults name r s.receipts);
    }

install_plan-IsAdded :
    (w : World) (name : Bytes) (s : System) (o : Option (List FileOp))
    → (install_plan w name s o).0 ≡ 0
    → IsAdded name s (install_plan w name s o).1
install_plan-IsAdded w name s none h = absurd (omega arith)
install_plan-IsAdded w name s (some ops) h =
    install_receipt-IsAdded w name (apply w.faults w.sum name ops s.files) s h

install_manifest-IsAdded :
    (w : World) (name : Bytes) (s : System) (o : Option Manifest)
    → (install_manifest w name s o).0 ≡ 0
    → IsAdded name s (install_manifest w name s o).1
install_manifest-IsAdded w name s none h = absurd (omega arith)
install_manifest-IsAdded w name s (some m) h = install_plan-IsAdded w name s (build_plan w.host m) h

install-IsAdded :
    (w : World) (ms : List Manifest) (name : Bytes) (s : System)
    → (integration_install w ms name s).0 ≡ 0
    → IsAdded name s (integration_install w ms name s).1
unfolding integration_install
install-IsAdded w ms name s h = install_manifest-IsAdded w name s (get ms name) h

-- The rows with the harness of that name shown as installed, and the others as they are.
abbrev pub marked : Bytes → List Listed → List Listed
marked name [] = []
marked name (r ∷ rs) = record r { installed = equal name r.name || r.installed } ∷ marked name rs

kept-insert :
    (f : StateFaults) (name n : Bytes) (r : Receipt) (rs : Receipts)
    → f.unplaced ≡ false
    → f.read_fails ≡ false
    → is_kept (read_state f n (insert name r rs)) ≡ (equal name n || is_kept (read_state f n rs))
unfolding read_state
kept-insert f name n r rs u k = rw (u, k, lookup-insert) (ground arith)

list-marked :
    (w : World) (name : Bytes) (s t : System) (ms : List Manifest)
    → IsAdded name s t
    → w.state_faults.unplaced ≡ false
    → w.state_faults.read_fails ≡ false
    → integration_list w t ms ≡ marked name (integration_list w s ms)
unfolding integration_list
list-marked w name s t [] a u k = refl
list-marked w name s t (m ∷ ms) a u k =
    let kept : is_kept (read_state w.state_faults m.name t.receipts)
        ≡ (equal name m.name || is_kept (read_state w.state_faults m.name s.receipts)) =
      ap (λ rs. is_kept (read_state w.state_faults m.name rs)) a.added
      ∙ kept-insert w.state_faults name m.name a.receipt s.receipts u k in
    let row : Listed = list_row w s m in
    ap (λ b. record row { installed = b } ∷ integration_list w t ms) kept
    ∙ ap (◌∷◌ (record row { installed = equal name m.name || row.installed }))
        (list-marked w name s t ms a u k)

-- An install that exits with 0 shows in the next `list`: where receipts can be read, the rows are
-- those of before with the harness installed.
pub cmd_integration-list :
    (w : World) (l : Loading) (name : Bytes) (rest more : List Bytes) (s : System)
    → l.is_sound ≡ true
    → w.state_faults.unplaced ≡ false
    → w.state_faults.read_fails ≡ false
    → (cmd_integration w l (codes "install" ∷ name ∷ rest) s).code ≡ 0
    → let t = (cmd_integration w l (codes "install" ∷ name ∷ rest) s).system in
      (cmd_integration w l (codes "list" ∷ more) t).rows
      ≡ marked name (cmd_integration w l (codes "list" ∷ more) s).rows
unfolding cmd_integration equal
cmd_integration-list w l name rest more s sound u k h =
    let installs : (integration_install w l.manifests name s).0 ≡ 0 = rw sound at h in
    rw sound (
      list-marked w name s (integration_install w l.manifests name s).1 l.manifests
        (install-IsAdded w l.manifests name s installs) u k)
