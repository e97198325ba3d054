-- ===== src/Config/DynamicConfig/Tests.antt =====
-- Two layers of a bundle's configuration.
use go_relay.Base.{
  ◌≡◌, refl, Bool, true, false, Option, none, some, [], ◌∷◌, Text, lit, text_eq, to_lower, Table,
  lookup, insert, lookup-insert, join, has_prefix, arith, if◌then◌else◌,
}
use go_relay.Config.Settings.{is_reserved}
use go_relay.Config.DynamicConfig.{FileSystem, all_config_files, load_dynamic_config}
use go_relay.Config.DynamicConfig.Layers.{IsMerged, load_dynamic_config_lem}

-- Each file gives its own text as the value of the key A.
abbrev read_file : Text → Option Text
read_file path =
    if text_eq path (lit "/etc/b/config.yaml")
    then some (lit "base")
    else if text_eq path (lit "/etc/b/user_jon.yml")
    then some (lit "own")
    else none

abbrev stat : Text → Option Bool
stat path =
    if text_eq path (lit "/etc")
    then some true
    else elim (read_file path) [ none ↦ none | some t ↦ some false ]

abbrev fs : FileSystem
fs = record { stat = stat; read_file = read_file }

abbrev parse_yaml : Text → Option (Table Text)
parse_yaml buf = some ((lit "A", buf) ∷ [])

abbrev unmarshal : Text → Table Text → Option (Table Text)
unmarshal buf values = some (insert (lit "A") buf values)

unmarshal-IsMerged :
    (buf : Text) (values : Table Text) → IsMerged (parse_yaml buf) values (unmarshal buf values)
unfolding lookup
unmarshal-IsMerged buf values =
    (insert (lit "A") buf values, refl, λ k. ground (arith, lookup-insert (lit "A") k buf values))

load_dynamic_config_lem_example :
    lookup
      (lit "A")
      (load_dynamic_config fs unmarshal (join b'/') (lit "/etc") (lit "b") (lit "r") (lit "Jon"))
    ≡ some (lit "own")
unfolding text_eq lookup all_config_files to_lower join is_reserved has_prefix
load_dynamic_config_lem_example =
    load_dynamic_config_lem fs unmarshal parse_yaml unmarshal-IsMerged (join b'/') (lit "/etc")
      (lit "b") (lit "r") (lit "Jon") (lit "A") refl refl
