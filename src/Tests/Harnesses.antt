-- ===== src/Tests/Harnesses.antt =====
-- A harness named pi, with a file of its own and a block in a file of the user.
use mure.Base.{
  ◌≢◌, equal, ◌≡◌, refl, inl, inr, true, false, List, [], ◌∷◌, ◌++◌, Option, none, some, Bytes,
  codes, arith, length,
}
use mure.Base.Int.{pos}
use mure.Base.Dict.{lookup}
use mure.Base.Strings.{has_prefix, Lacks}
use mure.Harnesses.Markers.{
  newline, marker_begin, marker_end, trim_newlines, ends_in_newline, replace_or_append_block,
  strip_block,
}
use mure.Harnesses.Markers.Block.{has_line}
use mure.Harnesses.Markers.RoundTrip.{strip_block-replace_or_append_block}
use mure.Harnesses.Install.{
  contents, absent, Files, FileOp, apply, uninstall, merge_of, merge_or_replace,
}
use mure.Harnesses.Install.Uninstall.{uninstall-foreign}
use mure.Harnesses.Install.Step.{no_faults, new_file, added_block}
use mure.Cmd.Spawn.{parse_task_arg}
use mure.Harnesses.Registry.{Loading, Entry, get, load}
use mure.Cmd.Integration.{System, integration_install, integration_uninstall}
use mure.Cmd.Integration.Actions.{cmd_integration}
use mure.Cmd.Integration.Actions.Listing.{marked, cmd_integration-list}
use mure.Cmd.Integration.Cycle.{sound_world, integration_uninstall-install, loaded-install_succeeds}
use mure.Harnesses.Manifest.{Manifest, decode_manifest}
use mure.Harnesses.Plan.{Host, expand_env, build_plan}
use mure.Harnesses.Plan.Expansion.{expand_env_ends}

abbrev pi : Bytes
pi = codes "pi"

abbrev pi_line : Lacks b'\n' pi
pi_line = (refl, (refl, tt))

strip_block-replace_or_append_block_example :
    strip_block (replace_or_append_block (codes "my own line") pi (codes "be kind")) pi
    ≡ codes "my own line" ++ newline
unfolding has_line has_prefix trim_newlines ends_in_newline
strip_block-replace_or_append_block_example =
    strip_block-replace_or_append_block pi (codes "my own line") (codes "be kind") pi_line refl refl

abbrev in_front : Bytes
in_front = marker_begin pi ++ (newline ++ codes "go ")

abbrev behind : Bytes
behind = codes "/bin" ++ (newline ++ (marker_end pi ++ newline))

abbrev user_files : Files
user_files = (codes "/home/u/S", codes "mine" ++ newline) ∷ []

abbrev hash : Bytes → Bytes
hash b = b

uninstall-foreign_example :
    lookup
      (codes "/h")
      (uninstall no_faults hash
        (record {
          harness = pi;
          files =
              record { dst = codes "/h"; mode = 493; sha = codes "run"; merge = codes "replace" }
              ∷ [];
        })
        ((codes "/h", codes "mine") ∷ [])).1
    ≡ some (codes "mine")
unfolding lookup equal merge_of
uninstall-foreign_example =
    uninstall-foreign no_faults hash
      (record {
        harness = pi;
        files =
            record { dst = codes "/h"; mode = 493; sha = codes "run"; merge = codes "replace" }
            ∷ [];
      })
      (codes "/h") (codes "mine") ((codes "/h", codes "mine") ∷ []) refl (inr (λ e. cc, refl), tt)

abbrev config : FileOp
config = record {
  dst = codes "/c";
  mode = 420;
  content = codes "new";
  merge = codes "create-if-missing";
}

abbrev variables : Bytes → Option Bytes
variables name = none

expand_env_ends_example :
    (out : Bytes) × (expand_env 30 variables (codes "${D:-$HOME/${E:-x}}/a") ≡ some out)
    × (expand_env (length (codes "${D:-$HOME/${E:-x}}/a")) variables (codes "${D:-$HOME/${E:-x}}/a")
        ≡ some out)
expand_env_ends_example = expand_env_ends 30 variables (codes "${D:-$HOME/${E:-x}}/a") (omega arith)

abbrev host : Host
host = record {
  lookup_env = variables;
  home = some (codes "/home/u");
  path_join = λ a b. a ++ (codes "/" ++ b);
  read = λ p. some (codes "be kind");
}

abbrev pub manifest : Manifest
manifest = record {
  manifest_version = pos 1;
  name = pi;
  display = codes "Pi";
  command = pi;
  task_arg = codes "none";
  capabilities = record { spawn = true; status = true; result = true; subtools = false };
  install = record {
    skill = record { path = codes "~/S"; merge = codes "append" };
    files = record { src = codes "h"; dst = codes "/h"; mode = codes "755" } ∷ [];
  };
}

abbrev plan : List FileOp
plan =
    record {
      dst = codes "/home/u/S";
      mode = 420;
      content = codes "be kind";
      merge = codes "append";
    }
    ∷ record { dst = codes "/h"; mode = 493; content = codes "be kind"; merge = codes "replace" }
    ∷ []

abbrev system : System
system = record { files = user_files; receipts = [] }

integration_uninstall-install_example :
    ((integration_install (sound_world host hash) (manifest ∷ []) pi system).0 ≡ 0)
    × ((integration_uninstall
          (sound_world host hash)
          pi
          (integration_install (sound_world host hash) (manifest ∷ []) pi system).1).0
        ≡ 0)
    × (lookup
          (codes "/home/u/S")
          (integration_uninstall
            (sound_world host hash)
            pi
            (integration_install (sound_world host hash) (manifest ∷ []) pi system).1).1.files
        ≡ some (codes "mine" ++ newline))
    × (lookup pi
          (integration_uninstall
            (sound_world host hash)
            pi
            (integration_install (sound_world host hash) (manifest ∷ []) pi system).1).1.receipts
        ≡ none)
unfolding get build_plan lookup has_line has_prefix trim_newlines ends_in_newline equal merge_of
    merge_or_replace
integration_uninstall-install_example =
    integration_uninstall-install host hash (manifest ∷ []) pi system manifest plan
      (codes "/home/u/S") refl refl pi_line
      (
        added_block b'm' (codes "ine" ++ newline) refl refl
            (record { no_marker = refl; whole_lines = refl }),
        (refl, tt),
        (new_file (inl refl), tt, tt),
      )

abbrev tree : List Entry
tree =
    record { is_dir = true; manifest = contents [] }
    ∷ record { is_dir = false; manifest = absent }
    ∷ []

loaded-install_succeeds_example :
    ((integration_install
        (sound_world host hash)
        (load (λ b. some manifest) tree).manifests
        pi
        system).0
      ≡ 0)
    × (lookup pi
          (integration_install
            (sound_world host hash)
            (load (λ b. some manifest) tree).manifests
            pi
            system).1.receipts
        ≢ none)
unfolding get load build_plan decode_manifest parse_task_arg equal has_prefix
loaded-install_succeeds_example =
    loaded-install_succeeds host hash (λ b. some manifest) tree pi system manifest plan refl refl

abbrev loading : Loading
loading = record { manifests = manifest ∷ []; is_sound = true }

cmd_integration-list_example :
    let w = sound_world host hash in
    let t = (cmd_integration w loading (codes "install" ∷ pi ∷ []) system).system in
    (cmd_integration w loading (codes "list" ∷ []) t).rows
    ≡ marked pi (cmd_integration w loading (codes "list" ∷ []) system).rows
unfolding cmd_integration integration_install get build_plan lookup has_prefix equal merge_of apply
cmd_integration-list_example =
    cmd_integration-list (sound_world host hash) loading pi [] [] system refl refl refl refl
