-- ===== src/Config/Settings/Tests.antt =====
-- Settings of relay/config/config_test.go's kind.
use go_relay.Base.{
  ◌≡◌, refl, true, none, [], ◌∷◌, Text, lit, lookup, insert, ok, Holds, text_eq, split, split_n,
  trim, has_prefix, if◌then◌else◌,
}
use go_relay.Config.Settings.{
  is_valid_engine_name, engine_enabled, parse_engines, is_reserved, parse_extra_env,
}
use go_relay.Config.Settings.Resolved.{
  engine_enabled-parse_engines, last_value, parse_extra_env_lem,
}

both_engines : engine_enabled (parse_engines (lit "docker, native,docker")) (lit "native") ≡ true
unfolding text_eq split trim is_valid_engine_name
both_engines = engine_enabled-parse_engines (lit "docker, native,docker") (lit "native")

parse_extra_env_lem_example :
    Holds
      (λ env.
        (k : Text)
        → lookup k env
          ≡ (if is_reserved k then none else last_value k (lit "A=1" ∷ lit "COG_X=2" ∷ []) none))
      (parse_extra_env (lit "A=1" ∷ lit "COG_X=2" ∷ []))
parse_extra_env_lem_example = parse_extra_env_lem (lit "A=1" ∷ lit "COG_X=2" ∷ [])

extra_env :
    parse_extra_env (lit "A=1" ∷ lit "COG_X=2" ∷ lit "A=3" ∷ []) ≡ ok ((lit "A", lit "3") ∷ [])
unfolding parse_extra_env split_n is_reserved has_prefix insert text_eq
extra_env = refl
