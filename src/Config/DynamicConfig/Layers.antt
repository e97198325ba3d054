-- ===== src/Config/DynamicConfig/Layers.antt =====
-- What a bundle's dynamic configuration comes to.
use go_relay.Base.{
  ◌≡◌, refl, ap, ◌∙◌, true, false, Option, none, some, List, [], ◌∷◌, Text, text_eq, text_eq_iff,
  Table, lookup, arith, if◌then◌else◌, if_yes, if_no,
}
use go_relay.Config.Settings.{is_reserved}
use go_relay.Config.DynamicConfig.{
  FileSystem, is_dir, all_config_files, read_layer, read_layers, drop_reserved, kept_values,
  load_dynamic_config,
}

abbrev pub over {ℓ} : {A : Type ℓ} → Option A → Option A → Option A
over (some a) o = some a
over none o = o

-- What decoding a text into a map makes of it, where `parsed` is what the text holds.
abbrev pub IsMerged : {V : Type 0} → Option (Table V) → Table V → Option (Table V) → Type 0
IsMerged none values result = result ≡ none
IsMerged (some m) values result =
    (values' : Table _) × (result ≡ some values')
    × ((k : Text) → lookup k values' ≡ over (lookup k m) (lookup k values))

module _ {V : Type 0} (fs : FileSystem) (unmarshal : Text → Table V → Option (Table V)) where
  lookup-drop_reserved :
      (k : Text) (m : Table V)
      → lookup k (drop_reserved fs unmarshal m) ≡ (if is_reserved k then none else lookup k m)
  unfolding lookup drop_reserved
  lookup-drop_reserved k [] = ground arith
  lookup-drop_reserved k ((j, v) ∷ m) =
      let same : (j ≡ k → is_reserved j ≡ is_reserved k) = λ e. ap is_reserved e in
      grind (arith, same, text_eq_iff j k, lookup-drop_reserved k m)

  module _ (parse_yaml : Text → Option (Table V))
      (merges : (buf : Text) (values : Table V)
        → IsMerged (parse_yaml buf) values (unmarshal buf values)) where
    -- What the file at a path holds.
    abbrev pub layer : Text → Option (Table V)
    layer path = elim (fs.read_file path) [ none ↦ none | some buf ↦ parse_yaml buf ]

    -- The value of a key in the files, the later ones first; no value at all where one is broken.
    abbrev pub newest : Text → List Text → Option V → Option V
    newest k [] o = o
    newest k (path ∷ paths) o = elim (layer path) [
      | none ↦ none
      | some m ↦ newest k paths (over (lookup k m) o)
    ]

    read_layer_lem :
        (path : Text) (values : Table V)
        → IsMerged (layer path) values (read_layer fs unmarshal path values)
    read_layer_lem path values = by_content (fs.read_file path)
      where
        by_content :
            (content : Option Text)
            → IsMerged
                (elim content [ none ↦ none | some buf ↦ parse_yaml buf ])
                values
                (elim content [ none ↦ none | some buf ↦ unmarshal buf values ])
        by_content none = refl
        by_content (some buf) = merges buf values

    -- One layer over the values so far; `rest` is the claim for the layers behind it.
    layer_step :
        (k : Text) (paths : List Text) (values : Table V) (parsed result : Option (Table V))
        → IsMerged parsed values result
        → ((r : Table V)
            → lookup k (kept_values fs unmarshal (read_layers fs unmarshal paths r))
              ≡ (if is_reserved k then none else newest k paths (lookup k r)))
        → lookup k (
            kept_values fs unmarshal
              (elim result [ none ↦ none | some values' ↦ read_layers fs unmarshal paths values' ]))
          ≡ (if is_reserved k then none else elim parsed [
            | none ↦ none
            | some m ↦ newest k paths (over (lookup k m) (lookup k values))
          ])
    unfolding lookup
    layer_step k paths values none none e rest = ground arith
    layer_step k paths values none (some r) e rest = ground (arith, e)
    layer_step k paths values (some m) none (values', e, f) rest = ground (arith, e)
    layer_step k paths values (some m) (some r) (values', e, f) rest =
        let same : r ≡ values' = cc e in
        rest r
        ∙ ap (λ o. if is_reserved k then none else newest k paths o) (ap (lookup k) same ∙ f k)

    layers_lem :
        (k : Text) (paths : List Text) (values : Table V)
        → lookup k (kept_values fs unmarshal (read_layers fs unmarshal paths values))
          ≡ (if is_reserved k then none else newest k paths (lookup k values))
    unfolding read_layers
    layers_lem k [] values = lookup-drop_reserved k values
    layers_lem k (path ∷ paths) values =
        layer_step k paths values (layer path) (read_layer fs unmarshal path values)
          (read_layer_lem path values) λ r. layers_lem k paths r

    -- With a decoder that lays a text's values over the map's, the value of a key for a bundle, a
    -- room and a user, in a directory that exists: none for a
    -- reserved key, or if some file of the three is unreadable or no YAML; otherwise that of the
    -- last file that has the key.
    pub load_dynamic_config_lem :
        (join_path : List Text → Text) (root bundle room user k : Text)
        → text_eq root [] ≡ false
        → fs.stat root ≡ some true
        → lookup k (load_dynamic_config fs unmarshal join_path root bundle room user) ≡ (
            if is_reserved k
            then none
            else newest k (all_config_files fs join_path root bundle room user) none)
    unfolding load_dynamic_config lookup
    load_dynamic_config_lem join_path root bundle room user k h d =
        ap (lookup k) (if_no _ _ h ∙ if_yes _ _ (ap is_dir d))
        ∙ layers_lem k (all_config_files fs join_path root bundle room user) []
