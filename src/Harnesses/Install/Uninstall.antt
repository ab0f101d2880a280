-- ===== src/Harnesses/Install/Uninstall.antt =====
-- Which files `Uninstall` leaves alone.
use mure.Base.{
  ◌≡◌, ◌≢◌, ◌⊎◌, inl, inr, refl, ap, ◌∙◌, Bool, false, not, List, [], ◌∷◌, some, Bytes, equal,
  equal_iff, is_empty, if_ind, Bool-cases, All,
}
use mure.Base.Dict.{lookup, lookup-insert, lookup-delete}
use mure.Harnesses.Markers.{strip_block}
use mure.Harnesses.Install.{
  Files, Faults, FileReceipt, Receipt, Merge, create_if_missing, append, replace, unknown, merge_of,
  Read, contents, read_file, write_file, remove_file, strip_file, remove_own, unmerge,
  uninstall_file, uninstall_files, uninstall,
}

pub write_file-other :
    (f : Faults) (p q b : Bytes) (d : Files)
    → equal p q ≡ false
    → lookup q (write_file f p b d).1 ≡ lookup q d
write_file-other f p q b d e =
    if_ind (λ (r : Bool × Files). lookup q r.1 ≡ lookup q d) (f.write_fails p) _ _ (λ _. refl)
      (λ _. rw (lookup-insert p q b d, e))

remove_file-other :
    (f : Faults) (p q : Bytes) (d : Files)
    → equal p q ≡ false
    → lookup q (remove_file f p d).1 ≡ lookup q d
remove_file-other f p q d e =
    if_ind (λ (r : Bool × Files). lookup q r.1 ≡ lookup q d) (f.remove_fails p) _ _ (λ _. refl)
      (λ _. rw (lookup-delete p q d, e))

strip_file-other :
    (f : Faults) (h : Bytes) (r : FileReceipt) (q : Bytes) (d : Files) (o : Read)
    → equal r.dst q ≡ false
    → lookup q (strip_file f h r d o).1 ≡ lookup q d
strip_file-other f h r q d (contents b) e =
    if_ind (λ (r : Bool × Files). lookup q r.1 ≡ lookup q d) (is_empty (strip_block b h)) _ _
      (λ _. remove_file-other f r.dst q d e) (λ _. write_file-other f r.dst q (strip_block b h) d e)
strip_file-other f h r q d _ e = refl

remove_own-other :
    (f : Faults) (sum : Bytes → Bytes) (r : FileReceipt) (q : Bytes) (d : Files) (o : Read)
    → equal r.dst q ≡ false
    → lookup q (remove_own f sum r d o).1 ≡ lookup q d
remove_own-other f sum r q d (contents b) e =
    if_ind (λ (r : Bool × Files). lookup q r.1 ≡ lookup q d) (not (equal (sum b) r.sha)) _ _
      (λ _. refl) (λ _. remove_file-other f r.dst q d e)
remove_own-other f sum r q d _ e = refl

unmerge-other :
    (f : Faults) (sum : Bytes → Bytes) (h : Bytes) (r : FileReceipt) (q : Bytes) (d : Files)
    (m : Merge)
    → equal r.dst q ≡ false
    → lookup q (unmerge f sum h r d m).1 ≡ lookup q d
unfolding unmerge
unmerge-other f sum h r q d append e = strip_file-other f h r q d (read_file f r.dst d) e
unmerge-other f sum h r q d create_if_missing e =
    remove_own-other f sum r q d (read_file f r.dst d) e
unmerge-other f sum h r q d replace e = remove_own-other f sum r q d (read_file f r.dst d) e
unmerge-other f sum h r q d unknown e = refl

-- A receipt changes no file but its own.
pub uninstall_file-other :
    (f : Faults) (sum : Bytes → Bytes) (h : Bytes) (r : FileReceipt) (q : Bytes) (d : Files)
    → equal r.dst q ≡ false
    → lookup q (uninstall_file f sum h r d).1 ≡ lookup q d
unfolding uninstall_file
uninstall_file-other f sum h r q d e = unmerge-other f sum h r q d (merge_of r.merge) e

-- The receipt is about another file, or it is no append and its hash is not that of the contents.
abbrev pub IsForeign : (Bytes → Bytes) → Bytes → Bytes → FileReceipt → Type 0
IsForeign sum p b r =
    (equal r.dst p ≡ false) ⊎ ((merge_of r.merge ≢ append) × (equal (sum b) r.sha ≡ false))

remove_own-modified :
    (f : Faults) (sum : Bytes → Bytes) (r : FileReceipt) (b : Bytes) (d : Files)
    → lookup r.dst d ≡ some b
    → equal (sum b) r.sha ≡ false
    → (remove_own f sum r d (read_file f r.dst d)).1 ≡ d
unfolding read_file
remove_own-modified f sum r b d l e =
    if_ind (λ o. (remove_own f sum r d o).1 ≡ d) (f.read_fails r.dst) _ _ (λ _. refl)
      (λ _. rw (l, e))

unmerge-modified :
    (f : Faults) (sum : Bytes → Bytes) (h : Bytes) (r : FileReceipt) (b : Bytes) (d : Files)
    (m : Merge)
    → lookup r.dst d ≡ some b
    → m ≢ append
    → equal (sum b) r.sha ≡ false
    → (unmerge f sum h r d m).1 ≡ d
unfolding unmerge
unmerge-modified f sum h r b d append l n e = absurd (n refl)
unmerge-modified f sum h r b d create_if_missing l n e = remove_own-modified f sum r b d l e
unmerge-modified f sum h r b d replace l n e = remove_own-modified f sum r b d l e
unmerge-modified f sum h r b d unknown l n e = refl

uninstall_file-foreign :
    (f : Faults) (sum : Bytes → Bytes) (h : Bytes) (r : FileReceipt) (p b : Bytes) (d : Files)
    → lookup p d ≡ some b
    → IsForeign sum p b r
    → lookup p (uninstall_file f sum h r d).1 ≡ some b
unfolding uninstall_file
uninstall_file-foreign f sum h r p b d l (inl other) = uninstall_file-other f sum h r p d other ∙ l
uninstall_file-foreign f sum h r p b d l (inr (n, e)) = elim (Bool-cases (equal r.dst p)) [
  | inl hit ↦
      let same = (equal_iff r.dst p).0 hit in
      ap (lookup p)
        (unmerge-modified f sum h r b d (merge_of r.merge) (ap (λ q. lookup q d) same ∙ l) n e)
      ∙ l
  | inr miss ↦ uninstall_file-other f sum h r p d miss ∙ l
]

uninstall_files-foreign :
    (f : Faults) (sum : Bytes → Bytes) (h : Bytes) (rs : List FileReceipt) (p b : Bytes) (d : Files)
    → lookup p d ≡ some b
    → All (IsForeign sum p b) rs
    → lookup p (uninstall_files f sum h rs d).1 ≡ some b
unfolding uninstall_files
uninstall_files-foreign f sum h [] p b d l a = l
uninstall_files-foreign f sum h (r ∷ rs) p b d l a =
    uninstall_files-foreign f sum h rs p b (uninstall_file f sum h r d).1
      (uninstall_file-foreign f sum h r p b d l a.0) a.1

-- Whichever calls fail, `Uninstall` neither removes nor changes a file that the receipt does not
-- list, or lists without a marked block and with another hash than that of its contents.
pub uninstall-foreign :
    (f : Faults) (sum : Bytes → Bytes) (r : Receipt) (p b : Bytes) (d : Files)
    → lookup p d ≡ some b
    → All (IsForeign sum p b) r.files
    → lookup p (uninstall f sum r d).1 ≡ some b
unfolding uninstall
uninstall-foreign f sum r p b d l a = uninstall_files-foreign f sum r.harness r.files p b d l a
