-- ===== src/Harnesses/State.antt =====
-- internal/harnesses/state.go: the receipts that are kept between runs, by the name of the harness.
-- A receipt's file is the receipt: encoding/json reads back what it writes. `unplaced` is `state_path`
-- giving nothing; a failing call changes nothing.
use mathlib.Core.Option
use mure.Base.{
  Bool, true, false, List, ◌++◌, Option, none, some, Bytes, codes, is_empty, ◌||◌, if◌then◌else◌,
}
use mure.Base.Dict.{lookup, insert, delete}
use mure.Harnesses.Install.{Receipt}

-- `XDG_STATE_HOME`, `os.UserHomeDir`, and `filepath.Join` of two.
pub record Places : Type 0 where
  pub xdg_state_home : Bytes
  pub home : Option Bytes
  pub path_join : Bytes → Bytes → Bytes

abbrev pub integrations_in : Places → Bytes → Bytes
integrations_in p base = p.path_join (p.path_join base (codes "mure")) (codes "integrations")

abbrev pub dir_in_home : Places → Option Bytes → Option Bytes
dir_in_home p none = none
dir_in_home p (some home) =
    some (integrations_in p (p.path_join (p.path_join home (codes ".local")) (codes "state")))

unfoldable pub state_dir : Places → Option Bytes
state_dir p =
    if is_empty p.xdg_state_home
    then dir_in_home p p.home
    else some (integrations_in p p.xdg_state_home)

unfoldable pub state_path : Places → Bytes → Option Bytes
unfolding state_dir
state_path p name = Option.map (λ dir. p.path_join dir (name ++ codes ".json")) (state_dir p)

abbrev pub Receipts : Type 0
Receipts = List (Bytes × Receipt)

pub record StateFaults : Type 0 where
  pub unplaced : Bool
  pub mkdir_fails : Bool
  pub read_fails : Bool
  pub write_fails : Bool
  pub remove_fails : Bool

-- Whether there is no error, and the receipts.
unfoldable pub write_state : StateFaults → Bytes → Receipt → Receipts → Bool × Receipts
write_state f name r rs =
    if f.unplaced || f.mkdir_fails || f.write_fails then (false, rs) else (true, insert name r rs)

pub data Kept : Type 0 where
  kept : Receipt → Kept
  not_kept unreadable : Kept

abbrev pub kept_or_not : Option Receipt → Kept
kept_or_not none = not_kept
kept_or_not (some r) = kept r

unfoldable pub read_state : StateFaults → Bytes → Receipts → Kept
read_state f name rs =
    if f.unplaced || f.read_fails then unreadable else kept_or_not (lookup name rs)

unfoldable pub clear_state : StateFaults → Bytes → Receipts → Bool × Receipts
clear_state f name rs = if f.unplaced || f.remove_fails then (false, rs) else (true, delete name rs)
