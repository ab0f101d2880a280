-- ===== src/Harnesses/Install/Step.antt =====
-- One operation and its receipt: what it stores, and that the receipt takes it back.
use mure.Base.{
  ap, List, ℕ, ◌≡◌, ◌⊎◌, inl, inr, refl, sym, ◌∙◌, subst, false, [], ◌∷◌, Option, none, some, Bytes,
  equal_refl, is_empty, if◌then◌else◌,
}
use mure.Base.Strings.{Lacks}
use mure.Base.Dict.{lookup, insert, lookup-insert, lookup-delete}
use mure.Harnesses.Markers.Block.{has_line}
use mure.Harnesses.Markers.{replace_or_append_block, strip_block}
use mure.Harnesses.Markers.RoundTrip.{IsOthers, IsBody, strip_block-replace_or_append_block}
use mure.Harnesses.Install.{
  apply, apply_op, add_receipt, Files, Faults, FileOp, Merge, create_if_missing, append, replace,
  unknown, merge_of, merge_or_replace, read_file, append_to, append_block, merge_op, receipt_of,
  remove_own, unmerge,
}

-- Every call succeeds that can.
abbrev pub no_faults : Faults
no_faults = record {
  mkdir_fails = λ _. false;
  stat_fails = λ _. false;
  read_fails = λ _. false;
  write_fails = λ _. false;
  remove_fails = λ _. false;
}

-- What an operation finds at its path, such that uninstalling can give it back: nothing, or, for an
-- append, a text of the user's own that ends in a newline.
pub data IsRestorable (h : Bytes) (m : Merge) (content : Bytes) : Option Bytes → Type 0 where
  new_file : (m ≡ replace) ⊎ (m ≡ create_if_missing) → IsRestorable h m content none
  new_block : m ≡ append → IsBody h content → IsRestorable h m content none
  added_block :
      (c : ℕ) (s : Bytes)
      → m ≡ append
      → IsBody h content
      → IsOthers h (c ∷ s)
      → IsRestorable h m content (some (c ∷ s))

-- Where the receipt's file holds `b`, removing the receipt leaves `o` there.
abbrev pub Undoes : (Bytes → Bytes) → Bytes → Merge → FileOp → Bytes → Option Bytes → Type 0
Undoes sum h m op b o =
    (e : Files)
    → lookup op.dst e ≡ some b
    → lookup op.dst (unmerge no_faults sum h (receipt_of sum op b) e m).1 ≡ o

-- What an operation writes, and that its receipt takes it back.
pub record Installs (sum : Bytes → Bytes) (h : Bytes) (m : Merge) (op : FileOp) (d : Files)
    (o : Option Bytes) : Type 0 where
  pub text : Bytes
  pub stores : merge_op no_faults h op d m ≡ (some text, insert op.dst text d)
  pub undoes : Undoes sum h m op text o

remove_own-Undoes :
    (sum : Bytes → Bytes) (op : FileOp) (b : Bytes) (e : Files)
    → lookup op.dst e ≡ some b
    → lookup op.dst
        (remove_own no_faults sum (receipt_of sum op b) e (read_file no_faults op.dst e)).1
      ≡ none
unfolding read_file
remove_own-Undoes sum op b e l =
    rw (l, equal_refl (sum b), lookup-delete op.dst op.dst e, equal_refl op.dst) refl

new_file-Installs :
    (sum : Bytes → Bytes) (h : Bytes) (op : FileOp) (d : Files) (m : Merge)
    → lookup op.dst d ≡ none
    → (m ≡ replace) ⊎ (m ≡ create_if_missing)
    → Installs sum h m op d none
unfolding merge_op unmerge
new_file-Installs sum h op d create_if_missing l k = record {
  text = op.content;
  stores = rw l refl;
  undoes = remove_own-Undoes sum op op.content;
}
new_file-Installs sum h op d replace l k = record {
  text = op.content;
  stores = refl;
  undoes = remove_own-Undoes sum op op.content;
}
new_file-Installs sum h op d append l (inl k) = cc
new_file-Installs sum h op d append l (inr k) = cc
new_file-Installs sum h op d unknown l (inl k) = cc
new_file-Installs sum h op d unknown l (inr k) = cc

append-stores :
    (h : Bytes) (op : FileOp) (d : Files) (b : Bytes)
    → append_block no_faults h op d (read_file no_faults op.dst d) ≡ append_to no_faults h op d b
    → merge_op no_faults h op d append ≡ (
      some (replace_or_append_block b h op.content),
      insert op.dst (replace_or_append_block b h op.content) d,
    )
unfolding merge_op
append-stores h op d b e = e

strip-Undoes :
    (sum : Bytes → Bytes) (h : Bytes) (op : FileOp) (b s : Bytes)
    → strip_block b h ≡ s
    → Undoes sum h append op b (if is_empty s then none else some s)
unfolding unmerge read_file
strip-Undoes sum h op b [] t e l = rw (l, t, lookup-delete op.dst op.dst e, equal_refl op.dst) refl
strip-Undoes sum h op b (c ∷ s) t e l =
    rw (l, t, lookup-insert op.dst op.dst (c ∷ s) e, equal_refl op.dst) refl

append-Installs :
    (sum : Bytes → Bytes) (h : Bytes) (op : FileOp) (d : Files) (b : Bytes)
    → Lacks b'\n' h
    → IsOthers h b
    → IsBody h op.content
    → append_block no_faults h op d (read_file no_faults op.dst d) ≡ append_to no_faults h op d b
    → Installs sum h append op d (if is_empty b then none else some b)
append-Installs sum h op d b n o body e = record {
  text = replace_or_append_block b h op.content;
  stores = append-stores h op d b e;
  undoes = strip-Undoes sum h op (replace_or_append_block b h op.content) b (
      strip_block-replace_or_append_block h b op.content n o.no_marker body
      ∙ rw o.whole_lines refl);
}

merge_op-Installs :
    (sum : Bytes → Bytes) (h : Bytes) (op : FileOp) (d : Files) (m : Merge) (o : Option Bytes)
    → Lacks b'\n' h
    → lookup op.dst d ≡ o
    → IsRestorable h m op.content o
    → Installs sum h m op d o
unfolding read_file
merge_op-Installs sum h op d m o n l (new_file k) = new_file-Installs sum h op d m l k
merge_op-Installs sum h op d m o n l (new_block k body) =
    subst (λ m. Installs sum h m op d none) (sym k)
      (append-Installs sum h op d [] n
        (record { no_marker = (unfold has_line in refl); whole_lines = refl }) body (rw l refl))
merge_op-Installs sum h op d m o n l (added_block c s k body others) =
    subst (λ m. Installs sum h m op d (some (c ∷ s))) (sym k)
      (append-Installs sum h op d (c ∷ s) n others body (rw l refl))

-- The merge that an operation names, and the one that its receipt names.
abbrev pub merge_to : FileOp → Merge
merge_to op = merge_of (merge_or_replace op.merge)

pub op-Installs :
    (sum : Bytes → Bytes) (h : Bytes) (op : FileOp) (d : Files)
    → Lacks b'\n' h
    → IsRestorable h (merge_to op) op.content (lookup op.dst d)
    → Installs sum h (merge_to op) op d (lookup op.dst d)
op-Installs sum h op d n r = merge_op-Installs sum h op d (merge_to op) (lookup op.dst d) n refl r

-- The first operation succeeds, and the others go on from what it leaves.
pub apply-step :
    (sum : Bytes → Bytes) (h : Bytes) (op : FileOp) (ops : List FileOp) (d d' : Files) (b : Bytes)
    → merge_op no_faults h op d (merge_to op) ≡ (some b, d')
    → apply no_faults sum h (op ∷ ops) d
      ≡ add_receipt (receipt_of sum op b) (apply no_faults sum h ops d')
unfolding apply apply_op
apply-step sum h op ops d d' b e =
    rw (e, apply)
      (ap
        (λ (r : Option Bytes × Files).
          add_receipt (receipt_of sum op b) (apply no_faults sum h ops r.1))
        e)
