-- ===== src/Harnesses/Install/Restore.antt =====
-- `Apply` and then `Uninstall` of its receipt, file by file.
use mure.Base.{
  ◌≡◌, inl, inr, refl, sym, ap, ◌∙◌, subst, true, false, List, [], ◌∷◌, Bytes, equal, equal_iff,
  equal_refl, Bool-cases, arith, All,
}
use mure.Base.Strings.{Lacks}
use mure.Base.Dict.{lookup, insert, lookup-insert}
use mure.Harnesses.Install.{
  Files, FileOp, receipt_of, Applied, apply, uninstall_file, uninstall_files, uninstall,
}
use mure.Harnesses.Install.Uninstall.{uninstall_file-other}
use mure.Harnesses.Install.Step.{
  no_faults, IsRestorable, Installs, merge_to, op-Installs, apply-step,
}

-- Each operation has a path of its own and finds there what can be given back.
abbrev pub AreRestorable : Bytes → List FileOp → Files → Type 0
AreRestorable h [] d = Unit {0}
AreRestorable h (op ∷ ops) d =
    IsRestorable h (merge_to op) op.content (lookup op.dst d)
    × All (λ (o : FileOp). equal op.dst o.dst ≡ false) ops
    × AreRestorable h ops d

AreRestorable-insert :
    (h : Bytes) (ops : List FileOp) (p b : Bytes) (d : Files)
    → All (λ (o : FileOp). equal p o.dst ≡ false) ops
    → AreRestorable h ops d
    → AreRestorable h ops (insert p b d)
AreRestorable-insert h [] p b d a r = tt
AreRestorable-insert h (op ∷ ops) p b d a (r, apart, rs) =
    let e : lookup op.dst (insert p b d) ≡ lookup op.dst d =
      rw (lookup-insert p op.dst b d, a.0) refl in
    (
      subst (IsRestorable h (merge_to op) op.content) (sym e) r,
      apart,
      AreRestorable-insert h ops p b d a.1 rs,
    )

-- What `Apply` and `Uninstall` leave at a path that no operation names.
apply-other :
    (sum : Bytes → Bytes) (h : Bytes) (ops : List FileOp) (d : Files) (p : Bytes)
    → Lacks b'\n' h
    → AreRestorable h ops d
    → All (λ (o : FileOp). equal p o.dst ≡ false) ops
    → (lookup p (apply no_faults sum h ops d).files ≡ lookup p d)
      × ((e : Files)
          → lookup p (uninstall_files no_faults sum h (apply no_faults sum h ops d).receipts e).1
            ≡ lookup p e)
unfolding uninstall_files
apply-other sum h [] d p n r a = (unfold apply in refl, λ e. unfold apply in refl)
apply-other sum h (op ∷ ops) d p n (r, apart, rs) a =
    let i = op-Installs sum h op d n r in
    let d' = insert op.dst i.text d in
    let miss : equal op.dst p ≡ false =
      ground (arith, equal_iff op.dst p, equal_iff p op.dst, a.0) in
    let (kept, left) =
      apply-other sum h ops d' p n (AreRestorable-insert h ops op.dst i.text d apart rs) a.1 in
    rw (apply-step sum h op ops d (insert op.dst i.text d) i.text i.stores) (
      kept ∙ rw (lookup-insert op.dst p i.text d, miss) refl,
      λ e.
          left (uninstall_file no_faults sum h (receipt_of sum op i.text) e).1
          ∙ uninstall_file-other no_faults sum h (receipt_of sum op i.text) p e miss,
    )

undone_own :
    (sum : Bytes → Bytes) (h : Bytes) (op : FileOp) (ops : List FileOp) (d e : Files)
    → (n : Lacks b'\n' h) → (i : Installs sum h (merge_to op) op d (lookup op.dst d))
    → All (λ (o : FileOp). equal op.dst o.dst ≡ false) ops
    → AreRestorable h ops (insert op.dst i.text d)
    → lookup op.dst e ≡ lookup op.dst (apply no_faults sum h ops (insert op.dst i.text d)).files
    → lookup op.dst
        (uninstall_files no_faults sum h
          (apply no_faults sum h ops (insert op.dst i.text d)).receipts
          (uninstall_file no_faults sum h (receipt_of sum op i.text) e).1).1
      ≡ lookup op.dst d
unfolding uninstall_file
undone_own sum h op ops d e n i apart rs l =
    let (kept, left) = apply-other sum h ops (insert op.dst i.text d) op.dst n rs apart in
    left (uninstall_file no_faults sum h (receipt_of sum op i.text) e).1
    ∙ i.undoes e (l ∙ kept ∙ rw (lookup-insert op.dst op.dst i.text d, equal_refl op.dst) refl)

-- A file of an operation is taken back from any files that hold there what `Apply` left.
apply-undone :
    (sum : Bytes → Bytes) (h : Bytes) (ops : List FileOp) (d e : Files) (p : Bytes)
    → Lacks b'\n' h
    → AreRestorable h ops d
    → lookup p e ≡ lookup p (apply no_faults sum h ops d).files
    → lookup p (uninstall_files no_faults sum h (apply no_faults sum h ops d).receipts e).1
      ≡ lookup p d
unfolding uninstall_files
apply-undone sum h [] d e p n r l = unfold apply in l
apply-undone sum h (op ∷ ops) d e p n (r, apart, rs) l =
    let i = op-Installs sum h op d n r in
    let d' = insert op.dst i.text d in
    let rs' = AreRestorable-insert h ops op.dst i.text d apart rs in
    let step = apply-step sum h op ops d (insert op.dst i.text d) i.text i.stores in
    let l' : lookup p e ≡ lookup p (apply no_faults sum h ops d').files =
      l ∙ ap (λ (a : Applied). lookup p a.files) step in
    let receipt = receipt_of sum op i.text in
    rw step (elim (Bool-cases (equal op.dst p)) [
      | inl hit ↦
          let same = (equal_iff op.dst p).0 hit in
          ap
            (λ q.
              lookup q
                (uninstall_files no_faults sum h (apply no_faults sum h ops d').receipts
                  (uninstall_file no_faults sum h receipt e).1).1)
            (sym same)
          ∙ undone_own sum h op ops d e n i apart rs' (
              subst (λ q. lookup q e ≡ lookup q (apply no_faults sum h ops d').files) (sym same) l')
          ∙ ap (λ q. lookup q d) same
      | inr miss ↦
          apply-undone sum h ops d' (uninstall_file no_faults sum h receipt e).1 p n rs'
            (uninstall_file-other no_faults sum h receipt p e miss ∙ l')
          ∙ rw (lookup-insert op.dst p i.text d, miss) refl
    ])

apply-succeeds :
    (sum : Bytes → Bytes) (h : Bytes) (ops : List FileOp) (d : Files)
    → Lacks b'\n' h
    → AreRestorable h ops d
    → (apply no_faults sum h ops d).succeeds ≡ true
apply-succeeds sum h [] d n r = unfold apply in refl
apply-succeeds sum h (op ∷ ops) d n (r, apart, rs) =
    let i = op-Installs sum h op d n r in
    rw (apply-step sum h op ops d (insert op.dst i.text d) i.text i.stores) (
      apply-succeeds sum h ops (insert op.dst i.text d) n
        (AreRestorable-insert h ops op.dst i.text d apart rs))

-- If every operation has a path of its own, and finds there no file, or, as an append, the user's
-- own lines with a newline at the end, then, where no call fails, `Apply` succeeds, and `Uninstall`
-- of its receipt gives every path the contents or the absence that it had.
pub uninstall-apply :
    (sum : Bytes → Bytes) (h : Bytes) (ops : List FileOp) (d : Files) (p : Bytes)
    → Lacks b'\n' h
    → AreRestorable h ops d
    → ((apply no_faults sum h ops d).succeeds ≡ true)
      × (lookup p
            (uninstall no_faults sum
              (record { harness = h; files = (apply no_faults sum h ops d).receipts })
              (apply no_faults sum h ops d).files).1
          ≡ lookup p d)
unfolding uninstall
uninstall-apply sum h ops d p n r = (
  apply-succeeds sum h ops d n r,
  apply-undone sum h ops d (apply no_faults sum h ops d).files p n r refl,
)
