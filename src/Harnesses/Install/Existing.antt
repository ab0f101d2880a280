-- ===== src/Harnesses/Install/Existing.antt =====
-- A file that was there before it was to be created.
use mure.Base.{◌≡◌, refl, ap, [], ◌∷◌, none, some, Bytes, codes, equal, equal_refl}
use mure.Base.Dict.{lookup, lookup-delete}
use mure.Harnesses.Install.{
  Files, FileOp, create_if_missing, merge_of, merge_or_replace, merge_op, receipt_of, apply,
  read_file, unmerge, uninstall_file, uninstall_files, uninstall, found, read_or_empty,
}
use mure.Harnesses.Install.Step.{no_faults, merge_to, apply-step}

existing-stays :
    (h : Bytes) (op : FileOp) (d : Files) (b : Bytes)
    → lookup op.dst d ≡ some b
    → merge_op no_faults h op d create_if_missing ≡ (some b, d)
unfolding merge_op read_file
existing-stays h op d b l = rw l (ap (λ o. (some (read_or_empty (found o)), d)) l)

merge_to-create :
    (op : FileOp) → op.merge ≡ codes "create-if-missing" → merge_to op ≡ create_if_missing
unfolding merge_of merge_or_replace equal
merge_to-create op m = ap (λ s. merge_of (merge_or_replace s)) m

unmerge-removes :
    (sum : Bytes → Bytes) (h : Bytes) (op : FileOp) (d : Files) (b : Bytes)
    → lookup op.dst d ≡ some b
    → lookup op.dst (unmerge no_faults sum h (receipt_of sum op b) d create_if_missing).1 ≡ none
unfolding unmerge read_file
unmerge-removes sum h op d b l =
    rw (l, equal_refl (sum b), lookup-delete op.dst op.dst d, equal_refl op.dst) refl

-- Where a file exists that is only to be created if it is missing, and no call fails, `Apply` leaves
-- it as it is, but `Uninstall` of the receipt deletes it.
pub uninstall-create_if_missing_removes :
    (sum : Bytes → Bytes) (h : Bytes) (op : FileOp) (d : Files) (b : Bytes)
    → op.merge ≡ codes "create-if-missing"
    → lookup op.dst d ≡ some b
    → ((apply no_faults sum h (op ∷ []) d).files ≡ d)
      × (lookup op.dst
            (uninstall no_faults sum
              (record { harness = h; files = (apply no_faults sum h (op ∷ []) d).receipts })
              d).1
          ≡ none)
unfolding uninstall uninstall_files uninstall_file
uninstall-create_if_missing_removes sum h op d b m l =
    let k = merge_to-create op m in
    rw (apply-step sum h op [] d d b (rw k (existing-stays h op d b l)))
      (unfold apply in refl, unfold apply in rw k (unmerge-removes sum h op d b l))
