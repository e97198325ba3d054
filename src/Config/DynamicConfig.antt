-- ===== src/Config/DynamicConfig.antt =====
-- relay/config/dynamic_config.go: the layers of a bundle's dynamic configuration. The file system
-- is a record of what os.Stat and ioutil.ReadFile answer; path.Join and the YAML decoder, which
-- decodes into a map that already has values, are parameters.
pub mod Layers
mod Tests
use go_relay.Base.{
  Bool, true, false, Option, none, some, List, [], ◌∷◌, ◌++◌, Text, lit, text_eq, to_lower, Table,
  if◌then◌else◌,
}
use go_relay.Config.Settings.{is_reserved}

-- `stat` tells whether a path is a directory, `none` where os.Stat fails.
pub record FileSystem : Type 0 where
  pub stat : Text → Option Bool
  pub read_file : Text → Option Text

abbrev pub is_file : Option Bool → Bool
is_file none = false
is_file (some is_dir) = if is_dir then false else true

-- The path of the .yaml or the .yml file; the empty string where neither is a file.
unfoldable pub resolve_yaml_file : FileSystem → Text → Text
resolve_yaml_file fs base =
    let yaml = base ++ lit ".yaml" in
    let yml = base ++ lit ".yml" in
    if is_file (fs.stat yaml) then yaml else if is_file (fs.stat yml) then yml else []

abbrev add_path : Text → List Text → List Text
add_path path rest = if text_eq path [] then rest else path ∷ rest

-- `join_path` is path.Join of a list.
unfoldable pub all_config_files :
    FileSystem → (List Text → Text) → Text → Text → Text → Text → List Text
unfolding resolve_yaml_file
all_config_files fs join_path root bundle room user =
    let room_file = lit "room_" ++ to_lower room in
    let user_file = lit "user_" ++ to_lower user in
    add_path (resolve_yaml_file fs (join_path (root ∷ bundle ∷ lit "config" ∷ []))) (
      add_path (resolve_yaml_file fs (join_path (root ∷ bundle ∷ room_file ∷ [])))
        (add_path (resolve_yaml_file fs (join_path (root ∷ bundle ∷ user_file ∷ []))) []))

abbrev pub is_dir : Option Bool → Bool
is_dir none = false
is_dir (some b) = b

module _ {V : Type 0} (fs : FileSystem) (unmarshal : Text → Table V → Option (Table V)) where
  -- One file's content decoded into the map.
  abbrev pub read_layer : Text → Table V → Option (Table V)
  read_layer path values = elim (fs.read_file path) [
    | none ↦ none
    | some buf ↦ unmarshal buf values
  ]

  -- The loop over the files, `none` where one cannot be read or decoded.
  unfoldable pub read_layers : List Text → Table V → Option (Table V)
  read_layers [] values = some values
  read_layers (path ∷ paths) values = elim (read_layer path values) [
    | none ↦ none
    | some values' ↦ read_layers paths values'
  ]

  unfoldable pub drop_reserved : Table V → Table V
  drop_reserved [] = []
  drop_reserved ((k, v) ∷ m) =
      let rest = drop_reserved m in if is_reserved k then rest else (k, v) ∷ rest

  abbrev pub kept_values : Option (Table V) → Table V
  kept_values none = []
  kept_values (some values) = drop_reserved values

  unfoldable pub load_dynamic_config : (List Text → Text) → Text → Text → Text → Text → Table V
  unfolding all_config_files read_layers drop_reserved
  load_dynamic_config join_path root bundle room user =
      if text_eq root []
      then []
      else if is_dir (fs.stat root)
      then kept_values (read_layers (all_config_files fs join_path root bundle room user) [])
      else []
