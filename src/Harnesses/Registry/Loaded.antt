-- ===== src/Harnesses/Registry/Loaded.antt =====
-- What holds of every manifest that is loaded.
use mure.Base.{
  ◌≡◌, refl, subst, true, List, [], ◌∷◌, Option, none, some, Bytes, equal, equal_iff, if_ind,
  Bool-cases, inl, inr, All,
}
use mathlib.Core.Option.{some_inj}
use mure.Base.Strings.{less_bytes}
use mure.Harnesses.Install.{Read, contents, absent, fails}
use mure.Harnesses.Manifest.{Manifest, valid_skill, decode_manifest}
use mure.Harnesses.Plan.Merges.{decoded-valid_skill}
use mure.Harnesses.Registry.{
  Entry, Loading, add_manifest, load_read, load_entries, insert_manifest, sort_manifests, load, get,
}

abbrev pub IsValid : Manifest → Type 0
IsValid m = valid_skill m.install.skill ≡ true

add_manifest-All :
    (o p : Option Manifest) (l : Loading)
    → decode_manifest o ≡ p
    → All IsValid l.manifests
    → All IsValid (add_manifest p l).manifests
add_manifest-All o none l e a = a
add_manifest-All o (some m) l e a = (decoded-valid_skill o m e, a)

load_read-All :
    (toml : Bytes → Option Manifest) (r : Read) (l : Loading)
    → All IsValid l.manifests
    → All IsValid (load_read toml r l).manifests
load_read-All toml (contents b) l a = add_manifest-All (toml b) (decode_manifest (toml b)) l refl a
load_read-All toml absent l a = a
load_read-All toml fails l a = a

load_entries-All :
    (toml : Bytes → Option Manifest) (es : List Entry)
    → All IsValid (load_entries toml es).manifests
unfolding load_entries
load_entries-All toml [] = tt
load_entries-All toml (e ∷ es) =
    let rest = load_entries-All toml es in
    if_ind (λ (l : Loading). All IsValid l.manifests) e.is_dir _ _
      (λ _. load_read-All toml e.manifest (load_entries toml es) rest) (λ _. rest)

insert_manifest-All :
    (m : Manifest) (ms : List Manifest)
    → IsValid m
    → All IsValid ms
    → All IsValid (insert_manifest m ms)
unfolding insert_manifest
insert_manifest-All m [] v a = (v, tt)
insert_manifest-All m (n ∷ ns) v a =
    if_ind (All IsValid) (less_bytes n.name m.name) _ _ (λ _. (a.0, insert_manifest-All m ns v a.1))
      (λ _. (v, a))

sort_manifests-All : (ms : List Manifest) → All IsValid ms → All IsValid (sort_manifests ms)
unfolding sort_manifests
sort_manifests-All [] a = tt
sort_manifests-All (m ∷ ms) a =
    insert_manifest-All m (sort_manifests ms) a.0 (sort_manifests-All ms a.1)

-- What `Get` finds has the name that it was asked for, and what holds of all manifests.
get-All :
    (P : Manifest → Type 0) (ms : List Manifest) (name : Bytes) (m : Manifest)
    → All P ms
    → get ms name ≡ some m
    → (m.name ≡ name) × P m
unfolding get
get-All P [] name m a e = cc
get-All P (n ∷ ms) name m a e = elim (Bool-cases (equal n.name name)) [
  | inl hit ↦
      let same : n ≡ m = some_inj.0 (rw hit at e) in
      subst (λ k. (k.name ≡ name) × P k) same ((equal_iff n.name name).0 hit, a.0)
  | inr miss ↦ get-All P ms name m a.1 (rw miss at e)
]

-- What `Get` finds among the manifests that `Load` returns has the name that it was asked for, and a
-- merge mode that `DecodeManifest` accepts.
pub get-load :
    (toml : Bytes → Option Manifest) (es : List Entry) (name : Bytes) (m : Manifest)
    → get (load toml es).manifests name ≡ some m
    → (m.name ≡ name) × IsValid m
unfolding load
get-load toml es name m e =
    get-All IsValid (sort_manifests (load_entries toml es).manifests) name m
      (sort_manifests-All (load_entries toml es).manifests (load_entries-All toml es)) e
