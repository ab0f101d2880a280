-- ===== src/Harnesses/Plan/Merges.antt =====
-- The merge modes of a plan.
use mure.Base.{
  ℕ, ◌≡◌, ◌≢◌, refl, true, not, List, [], ◌∷◌, Option, none, some, Bytes, codes, equal, is_empty,
  if_ind, arith, All, subst, equal_refl,
}
use mure.Harnesses.Manifest.{Manifest, Skill, File, valid_merge, valid_skill, decode_manifest}
use mure.Harnesses.Plan.{
  Host, file_op, skill_op, copy_op, in_front, copy_ops, build_plan, expand_path, parse_mode,
}
use mure.Base.Dict.{lookup}
use mure.Harnesses.Install.{
  FileOp, Merge, create_if_missing, append, replace, create_missing, append_block, found, unknown,
  merge_of, merge_or_replace, Files, apply, merge_op, read_file,
}
use mure.Harnesses.Install.Step.{no_faults, merge_to, apply-step}

-- The operation names a case of the switch.
abbrev pub IsKnown : FileOp → Type 0
IsKnown op = merge_to op ≢ unknown

abbrev pub OnSome : {A : Type 0} → (A → Type 0) → Option A → Type 0
OnSome P none = Unit {0}
OnSome P (some a) = P a

file_op-IsKnown :
    (dst : Option Bytes) (mode : Option ℕ) (content : Option Bytes) (merge : Bytes)
    → merge_of (merge_or_replace merge) ≢ unknown
    → OnSome IsKnown (file_op dst mode content merge)
file_op-IsKnown (some dst) (some mode) (some content) merge k = k
file_op-IsKnown none mode content merge k = tt
file_op-IsKnown (some dst) none content merge k = tt
file_op-IsKnown (some dst) (some mode) none merge k = tt

in_front-IsKnown :
    (op : Option FileOp) (ops : Option (List FileOp))
    → OnSome IsKnown op
    → OnSome (All IsKnown) ops
    → OnSome (All IsKnown) (in_front op ops)
in_front-IsKnown (some op) (some ops) k ks = (k, ks)
in_front-IsKnown none ops k ks = tt
in_front-IsKnown (some op) none k ks = tt

known-valid : (s : Bytes) → valid_merge s ≡ true → merge_of (merge_or_replace s) ≢ unknown
unfolding valid_merge merge_of merge_or_replace
known-valid s v = ground (arith, equal_refl (codes "replace"))

valid_skill-merge : (k : Skill) → valid_skill k ≡ true → valid_merge k.merge ≡ true
unfolding valid_skill
valid_skill-merge k v = ground arith

replace-IsKnown : merge_of (merge_or_replace (codes "replace")) ≢ unknown
unfolding valid_merge equal
replace-IsKnown = known-valid (codes "replace") refl

copy_ops-IsKnown :
    (host : Host) (name : Bytes) (files : List File)
    → OnSome (All IsKnown) (copy_ops host name files)
unfolding copy_ops copy_op
copy_ops-IsKnown host name [] = tt
copy_ops-IsKnown host name (f ∷ files) =
    in_front-IsKnown (copy_op host name f) (copy_ops host name files)
      (file_op-IsKnown (expand_path host f.dst) (parse_mode f.mode)
        (host.read (host.path_join name f.src)) (codes "replace") replace-IsKnown)
      (copy_ops-IsKnown host name files)

build_plan-IsKnown :
    (host : Host) (m : Manifest)
    → valid_skill m.install.skill ≡ true
    → OnSome (All IsKnown) (build_plan host m)
unfolding build_plan skill_op
build_plan-IsKnown host m v =
    let copies = copy_ops-IsKnown host m.name m.install.files in
    if_ind (OnSome (All IsKnown)) (not (is_empty m.install.skill.path)) _ _
      (λ _.
        in_front-IsKnown (skill_op host m) (copy_ops host m.name m.install.files)
          (file_op-IsKnown (expand_path host m.install.skill.path) (some 420)
            (host.read (host.path_join m.name (codes "SKILL.md"))) m.install.skill.merge
            (known-valid m.install.skill.merge (valid_skill-merge m.install.skill v)))
          copies)
      (λ _. copies)

pub decoded-valid_skill :
    (o : Option Manifest) (m : Manifest)
    → decode_manifest o ≡ some m
    → valid_skill m.install.skill ≡ true
unfolding decode_manifest
decoded-valid_skill none m e = cc
decoded-valid_skill (some n) m e = ground arith

create-writes :
    (op : FileOp) (d : Files) (o : Option Bytes)
    → (b : Bytes) × (d' : Files) × (create_missing no_faults op d o ≡ (some b, d'))
create-writes op d none = (_, _, refl)
create-writes op d (some b) = (_, _, refl)

append-writes :
    (h : Bytes) (op : FileOp) (d : Files) (o : Option Bytes)
    → (b : Bytes) × (d' : Files) × (append_block no_faults h op d (found o) ≡ (some b, d'))
append-writes h op d none = (_, _, refl)
append-writes h op d (some b) = (_, _, refl)

-- A known merge mode writes, or leaves, some bytes.
merge_op-writes :
    (h : Bytes) (op : FileOp) (d : Files) (m : Merge)
    → m ≢ unknown
    → (b : Bytes) × (d' : Files) × (merge_op no_faults h op d m ≡ (some b, d'))
unfolding merge_op read_file
merge_op-writes h op d create_if_missing k = create-writes op d (lookup op.dst d)
merge_op-writes h op d append k = append-writes h op d (lookup op.dst d)
merge_op-writes h op d replace k = (_, _, refl)
merge_op-writes h op d unknown k = absurd (k refl)

apply-known :
    (sum : Bytes → Bytes) (h : Bytes) (ops : List FileOp) (d : Files)
    → All IsKnown ops
    → (apply no_faults sum h ops d).succeeds ≡ true
apply-known sum h [] d k = unfold apply in refl
apply-known sum h (op ∷ ops) d k =
    let (b, d', e) = merge_op-writes h op d (merge_to op) k.0 in
    rw (apply-step sum h op ops d d' b e) (apply-known sum h ops d' k.1)

-- The plan of a manifest with a valid skill is carried out to the end, where no call fails.
pub valid_plan_succeeds :
    (host : Host) (m : Manifest) (ops : List FileOp) (sum : Bytes → Bytes) (name : Bytes)
    (d : Files)
    → valid_skill m.install.skill ≡ true
    → build_plan host m ≡ some ops
    → (apply no_faults sum name ops d).succeeds ≡ true
valid_plan_succeeds host m ops sum name d v p =
    apply-known sum name ops d (subst (OnSome (All IsKnown)) p (build_plan-IsKnown host m v))
