-- ===== src/Base/Dict.antt =====
-- Go maps keyed by strings, as association lists; the order of the list stands for the order in
-- which a `range` over the map meets its keys.
use mathlib.Core.Bool.{false}
use mathlib.Core.List.{List, [], ◌∷◌}
use mathlib.Core.Option.{Option, none, some, some_inj}
use mathlib.Core.Path.{◌≡◌, refl, subst}
use mathlib.Core.Logic.{inl, inr}
use native.Mathlib.Omega.{arith}
use mure.Base.Tests.{if◌then◌else◌, Bool-cases}
use mure.Base.Text.{Bytes, equal, equal_iff}

module _ {ℓ} {V : Type ℓ} where
  unfoldable pub lookup : Bytes → List (Bytes × V) → Option V
  lookup k [] = none
  lookup k ((j, v) ∷ m) = if equal j k then some v else lookup k m

  unfoldable pub insert : Bytes → V → List (Bytes × V) → List (Bytes × V)
  insert k v [] = (k, v) ∷ []
  insert k v ((j, w) ∷ m) = if equal j k then (k, v) ∷ m else (j, w) ∷ insert k v m

  unfoldable pub delete : Bytes → List (Bytes × V) → List (Bytes × V)
  delete k [] = []
  delete k ((j, w) ∷ m) = if equal j k then delete k m else (j, w) ∷ delete k m

  pub lookup-insert :
      (k j : Bytes) (v : V) (m : List (Bytes × V))
      → lookup j (insert k v m) ≡ (if equal k j then some v else lookup j m)
  unfolding lookup insert
  lookup-insert k j v [] = refl
  lookup-insert k j v ((i, w) ∷ m) =
      ground (arith, equal_iff k j, equal_iff i k, equal_iff i j, lookup-insert k j v m)

  pub lookup-delete :
      (k j : Bytes) (m : List (Bytes × V))
      → lookup j (delete k m) ≡ (if equal k j then none else lookup j m)
  unfolding lookup delete
  lookup-delete k j [] = ground arith
  lookup-delete k j ((i, w) ∷ m) =
      ground (arith, equal_iff k j, equal_iff i k, equal_iff i j, lookup-delete k j m)

  -- No key stands twice.
  abbrev pub IsFresh : Bytes → List (Bytes × V) → Type 0
  IsFresh k [] = Unit {0}
  IsFresh k ((j, w) ∷ m) = (equal j k ≡ false) × IsFresh k m

  abbrev pub HasUniqueKeys : List (Bytes × V) → Type 0
  HasUniqueKeys [] = Unit {0}
  HasUniqueKeys ((j, w) ∷ m) = IsFresh j m × HasUniqueKeys m

  pub IsFresh-insert :
      (i k : Bytes) (v : V) (m : List (Bytes × V))
      → equal k i ≡ false
      → IsFresh i m
      → IsFresh i (insert k v m)
  unfolding insert
  IsFresh-insert i k v [] h f = ground arith
  IsFresh-insert i k v ((j, w) ∷ m) h f = ground (arith, IsFresh-insert i k v m h f.1)

  pub HasUniqueKeys-insert :
      (k : Bytes) (v : V) (m : List (Bytes × V)) → HasUniqueKeys m → HasUniqueKeys (insert k v m)
  unfolding insert
  HasUniqueKeys-insert k v [] u = (tt, tt)
  HasUniqueKeys-insert k v ((j, w) ∷ m) u =
      ground (
        arith,
        equal_iff j k,
        equal_iff k j,
        IsFresh-insert j k v m,
        HasUniqueKeys-insert k v m u.1,
      )

  pub IsFresh-delete : (i k : Bytes) (m : List (Bytes × V)) → IsFresh i m → IsFresh i (delete k m)
  unfolding delete
  IsFresh-delete i k [] f = tt
  IsFresh-delete i k ((j, w) ∷ m) f = ground (arith, IsFresh-delete i k m f.1)

  pub HasUniqueKeys-delete :
      (k : Bytes) (m : List (Bytes × V)) → HasUniqueKeys m → HasUniqueKeys (delete k m)
  unfolding delete
  HasUniqueKeys-delete k [] u = tt
  HasUniqueKeys-delete k ((j, w) ∷ m) u =
      ground (arith, IsFresh-delete j k m u.0, HasUniqueKeys-delete k m u.1)

  -- A fact about every entry of the dictionary.
  abbrev pub Entries {κ} : (Bytes → V → Type κ) → List (Bytes × V) → Type κ
  Entries P [] = Unit
  Entries P ((j, w) ∷ m) = P j w × Entries P m

  module _ {κ} (P : Bytes → V → Type κ) where
    pub Entries-insert :
        (k : Bytes) (v : V) (m : List (Bytes × V)) → P k v → Entries P m → Entries P (insert k v m)
    unfolding insert
    Entries-insert k v [] p e = (p, tt)
    Entries-insert k v ((j, w) ∷ m) p e = ground (arith, Entries-insert k v m p e.1)

    pub Entries-delete : (k : Bytes) (m : List (Bytes × V)) → Entries P m → Entries P (delete k m)
    unfolding delete
    Entries-delete k [] e = tt
    Entries-delete k ((j, w) ∷ m) e = ground (arith, Entries-delete k m e.1)

    pub Entries-lookup :
        (k : Bytes) (m : List (Bytes × V)) {v : V} → Entries P m → lookup k m ≡ some v → P k v
    unfolding lookup
    Entries-lookup k [] e h = cc
    Entries-lookup k ((j, w) ∷ m) {v} e h = elim (Bool-cases (equal j k)) [
      | inl hit ↦
          subst (λ i. P i v) ((equal_iff j k).0 hit) (subst (P j) (some_inj.0 (rw hit at h)) e.0)
      | inr miss ↦ Entries-lookup k m e.1 (rw miss at h)
    ]
