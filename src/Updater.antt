-- ===== src/Updater.antt =====
-- relay/dynamic_config.go: the updater of the managed dynamic configurations. path.Join, the YAML
-- encoder and filepath.Glob are parameters.
mod Files
pub mod Away
pub mod Atomic
pub mod Standing
pub mod Current
pub mod Session
pub mod Running
mod Tests
unfoldable pub use Files.*
use go_relay.Base.{
  ℕ, Bool, true, false, not, ◌&&◌, ◌||◌, Option, none, some, List, [], ◌∷◌, ◌++◌, Text, lit,
  text_eq, to_lower, has_suffix, Table, if◌then◌else◌,
}
use go_relay.Messages.Directives.{DynamicConfig, DynamicConfigsResponseEnvelope, GetDynamicConfigs}

abbrev pub Action : Type 0
Action = Disk → Bool × Disk

-- The next step, unless the one before has failed.
abbrev pub then_do : Bool × Disk → Action → Bool × Disk
then_do (true, d) next = next d
then_do (false, d) next = (false, d)

unfoldable pub config_file_name : {C : Type 0} → DynamicConfig C → Text
config_file_name c =
    let layer = to_lower c.layer in
    if text_eq layer (lit "base")
    then lit "config.yaml"
    else layer ++ (lit "_" ++ (to_lower c.name ++ lit ".yaml"))

unfoldable pub verify_managed_config_path : Text → Action
verify_managed_config_path root d =
    let (info, d') = lstat root d in
    (elim info [ some none ↦ true | some (some (link target)) ↦ true | _ ↦ false ], d')

module _ {C : Type 0} (join_path : List Text → Text) (marshal : C → Option Text) where
  abbrev pub config_path : Text → Text → DynamicConfig C → Text
  config_path update_dir bundle config =
      join_path (update_dir ∷ bundle ∷ config_file_name config ∷ [])

  abbrev pub write_layer : Text → Option Text → Action
  write_layer path none d = (false, d)
  write_layer path (some contents) d = write_file path contents d

  unfoldable pub write_layers : Text → Text → List (DynamicConfig C) → Action
  unfolding config_file_name
  write_layers update_dir bundle [] d = (true, d)
  write_layers update_dir bundle (config ∷ configs) d =
      then_do (write_layer (config_path update_dir bundle config) (marshal config.config) d)
        (write_layers update_dir bundle configs)

  unfoldable pub write_bundles : Text → Table (List (DynamicConfig C)) → Action
  unfolding write_layers
  write_bundles update_dir [] d = (true, d)
  write_bundles update_dir ((bundle, layers) ∷ configs) d =
      then_do
        (then_do (mkdir_all (join_path (update_dir ∷ bundle ∷ [])) d)
          (write_layers update_dir bundle layers))
        (write_bundles update_dir configs)

  abbrev pub update_dir_of : Text → Text → Text
  update_dir_of root signature = join_path (root ∷ lit ".." ∷ signature ∷ [])

  abbrev pub new_link : Text → Text
  new_link root = join_path (root ∷ lit ".." ∷ lit "new" ∷ [])

  -- Everything before the final rename.
  unfoldable pub prepare_configs : Text → Text → Table (List (DynamicConfig C)) → Action
  unfolding verify_managed_config_path write_bundles
  prepare_configs root signature configs d =
      let update_dir = update_dir_of root signature in
      then_do
        (then_do (then_do (verify_managed_config_path root d) (mkdir_all update_dir))
          (write_bundles update_dir configs))
        (symlink update_dir (new_link root))

  unfoldable pub update_configs : Text → Text → Table (List (DynamicConfig C)) → Action
  unfolding prepare_configs
  update_configs root signature configs d =
      then_do (prepare_configs root signature configs d) (rename (new_link root) root)

  abbrev pub is_kept : Text → Text → Text → Bool
  is_kept root signature entry = text_eq entry root || has_suffix entry signature

  unfoldable pub clean_entries : Text → Text → List Text → Table Node → Table Node
  clean_entries root signature [] m = m
  clean_entries root signature (entry ∷ entries) m =
      clean_entries root signature entries
        (if is_kept root signature entry then m else remove_all entry m)

  module _ (glob : Table Node → List Text) where
    unfoldable pub clean_old_configs : Text → Text → Disk → Disk
    unfolding clean_entries
    clean_old_configs root signature d = record d {
      nodes = clean_entries root signature (glob d.nodes) d.nodes;
    }

    -- `envelope` is what the decoder filled in: an error of it is only logged. The timer's reset is
    -- left to the scheduler. The state is the last signature and the disk.
    unfoldable pub dyn_config_update :
        Text → DynamicConfigsResponseEnvelope C → Text × Disk → Text × Disk
    unfolding update_configs clean_old_configs
    dyn_config_update root envelope (last_signature, d) =
        let (done, d') = update_configs root envelope.signature envelope.configs d in
        if not (text_eq envelope.signature last_signature) && envelope.changed
        then (if done
            then (envelope.signature, clean_old_configs root envelope.signature d')
            else (last_signature, d'))
        else (last_signature, d)
