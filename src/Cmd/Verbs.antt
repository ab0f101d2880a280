-- ===== src/Cmd/Verbs.antt =====
-- cmd/mure/main.go: which command the arguments choose.
use mure.Base.{ℕ, ◌||◌, List, [], ◌∷◌, Option, none, some, Bytes, codes, equal, if◌then◌else◌}

pub data Verb : Type 0 where
  up down ls spawn wait focus sidebar doctor integration emit : Verb

-- The map `verbs`.
abbrev pub verbs : List (Bytes × Verb)
verbs =
    (codes "up", up)
    ∷ (codes "down", down)
    ∷ (codes "ls", ls)
    ∷ (codes "spawn", spawn)
    ∷ (codes "wait", wait)
    ∷ (codes "focus", focus)
    ∷ (codes "sidebar", sidebar)
    ∷ (codes "doctor", doctor)
    ∷ (codes "integration", integration)
    ∷ (codes "emit", emit)
    ∷ []

unfoldable pub find_verb : Bytes → List (Bytes × Verb) → Option Verb
find_verb name [] = none
find_verb name ((key, v) ∷ vs) = if equal key name then some v else find_verb name vs

-- The usage with an exit code, or a command with its arguments.
pub data Choice : Type 0 where
  usage : ℕ → Choice
  runs : Verb → List Bytes → Choice

abbrev pub chosen : List Bytes → Option Verb → Choice
chosen argv none = usage 2
chosen argv (some v) = runs v argv

unfoldable pub choose : List Bytes → Choice
unfolding find_verb
choose [] = usage 0
choose (name ∷ argv) =
    if equal name (codes "-h") || equal name (codes "--help") || equal name (codes "help")
    then usage 0
    else chosen argv (find_verb name verbs)
