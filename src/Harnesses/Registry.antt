-- ===== src/Harnesses/Registry.antt =====
-- internal/harnesses/registry.go: the manifests of a tree of harnesses. The decoder of package toml is
-- an argument, and `sort.Slice` is an insertion, which is its result where the names are distinct.
pub mod Loaded
use mure.Base.{Bool, true, false, List, [], ◌∷◌, Option, none, some, Bytes, equal, if◌then◌else◌}
use mure.Base.Strings.{less_bytes}
use mure.Harnesses.Install.{Read, contents, absent, fails}
use mure.Harnesses.Manifest.{Manifest, decode_manifest}

-- A name of the tree, and what reading the manifest below it returns.
pub record Entry : Type 0 where
  pub is_dir : Bool
  pub manifest : Read

-- The manifests, and whether there is no error.
pub record Loading : Type 0 where
  pub manifests : List Manifest
  pub is_sound : Bool

abbrev pub add_manifest : Option Manifest → Loading → Loading
add_manifest none l = record l { is_sound = false }
add_manifest (some m) l = record l { manifests = m ∷ l.manifests }

abbrev pub load_read : (Bytes → Option Manifest) → Read → Loading → Loading
load_read toml (contents b) l = add_manifest (decode_manifest (toml b)) l
load_read toml absent l = l
load_read toml fails l = record l { is_sound = false }

-- The loop over the entries.
unfoldable pub load_entries : (Bytes → Option Manifest) → List Entry → Loading
load_entries toml [] = record { manifests = []; is_sound = true }
load_entries toml (e ∷ es) =
    let rest = load_entries toml es in if e.is_dir then load_read toml e.manifest rest else rest

unfoldable pub insert_manifest : Manifest → List Manifest → List Manifest
insert_manifest m [] = m ∷ []
insert_manifest m (n ∷ ns) =
    let rest = insert_manifest m ns in if less_bytes n.name m.name then n ∷ rest else m ∷ n ∷ ns

unfoldable pub sort_manifests : List Manifest → List Manifest
unfolding insert_manifest
sort_manifests [] = []
sort_manifests (m ∷ ms) = insert_manifest m (sort_manifests ms)

unfoldable pub load : (Bytes → Option Manifest) → List Entry → Loading
unfolding load_entries sort_manifests
load toml es = let l = load_entries toml es in record l { manifests = sort_manifests l.manifests }

unfoldable pub get : List Manifest → Bytes → Option Manifest
get [] name = none
get (m ∷ ms) name = let rest = get ms name in if equal m.name name then some m else rest
