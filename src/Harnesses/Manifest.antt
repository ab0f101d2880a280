-- ===== src/Harnesses/Manifest.antt =====
-- internal/harnesses/manifest.go: what `DecodeManifest` accepts of what package toml decodes.
use mure.Base.{
  Bool, true, false, not, ◌&&◌, ◌||◌, List, Option, none, some, Bytes, codes, equal, is_empty,
  if◌then◌else◌,
}
use mure.Base.Int.{ℤ}
use mure.Cmd.Spawn.{TaskArg, parse_task_arg}

pub record Capabilities : Type 0 where
  pub spawn : Bool
  pub status : Bool
  pub result : Bool
  pub subtools : Bool

pub record Skill : Type 0 where
  pub path : Bytes
  pub merge : Bytes

pub record File : Type 0 where
  pub src : Bytes
  pub dst : Bytes
  pub mode : Bytes

pub record Install : Type 0 where
  pub skill : Skill
  pub files : List File

pub record Manifest : Type 0 where
  pub manifest_version : ℤ
  pub name : Bytes
  pub display : Bytes
  pub command : Bytes
  pub task_arg : Bytes
  pub capabilities : Capabilities
  pub install : Install

unfoldable pub valid_merge : Bytes → Bool
valid_merge s =
    is_empty s
    || equal s (codes "append")
    || equal s (codes "replace")
    || equal s (codes "create-if-missing")

-- The check of the skill's merge mode.
unfoldable pub valid_skill : Skill → Bool
unfolding valid_merge
valid_skill k =
    if not (is_empty k.path)
    then not (not (valid_merge k.merge) || is_empty k.merge)
    else not (not (is_empty k.merge) && not (valid_merge k.merge))

abbrev pub is_task_arg : Option TaskArg → Bool
is_task_arg none = false
is_task_arg (some t) = true

-- `DecodeManifest`, from what the decoder makes of the text.
unfoldable pub decode_manifest : Option Manifest → Option Manifest
unfolding valid_skill
decode_manifest none = none
decode_manifest (some m) =
    if is_empty m.name
    then none
    else if is_empty m.command
    then none
    else if not (is_task_arg (parse_task_arg m.task_arg))
    then none
    else if valid_skill m.install.skill
    then some m
    else none
