-- ===== src/Config/Settings.antt =====
-- relay/config/config.go, execution_info.go and cog_info.go: the settings that decide which engines
-- run and which variables every command gets.
pub mod Resolved
mod Tests
use go_relay.Base.{
  Bool, true, false, not, ◌&&◌, ◌||◌, Option, none, some, List, [], ◌∷◌, ◌++◌, Text, lit, text_eq,
  has_prefix, split, split_n, join, trim, show_nat, Table, insert, Outcome, ok, err, panic, ◌>>=◌,
  if◌then◌else◌, ℕ,
}

abbrev pub docker_engine : Text
docker_engine = lit "docker"

abbrev pub native_engine : Text
native_engine = lit "native"

abbrev pub contains : Text → List Text → Bool
contains name [] = false
contains name (v ∷ vs) = let rest = contains name vs in if text_eq v name then true else rest

-- engineEnabled, on ParsedEnginesEnabled.
unfoldable pub engine_enabled : List Text → Text → Bool
engine_enabled parsed name = contains name parsed

unfoldable pub docker_enabled : List Text → Bool
unfolding engine_enabled
docker_enabled parsed = engine_enabled parsed docker_engine

unfoldable pub native_enabled : List Text → Bool
unfolding engine_enabled
native_enabled parsed = engine_enabled parsed native_engine

unfoldable pub is_valid_engine_name : Text → Bool
is_valid_engine_name name = contains name (docker_engine ∷ native_engine ∷ [])

unfoldable pub add_engines : List Text → List Text → List Text
unfolding is_valid_engine_name
add_engines [] parsed = parsed
add_engines (piece ∷ pieces) parsed =
    let engine = trim piece b' ' in
    add_engines pieces (
      if is_valid_engine_name engine
      then (if contains engine parsed then parsed else parsed ++ engine ∷ [])
      else parsed)

-- parseEngines: ParsedEnginesEnabled for EnginesEnabled.
unfoldable pub parse_engines : Text → List Text
unfolding add_engines
parse_engines enabled = add_engines (split enabled b',') []

-- Verify: the dynamic configuration's root afterwards. `join_path` is path.Join.
unfoldable pub verify : (Text → Text → Text) → List Text → Bool → Text → Outcome Text
unfolding docker_enabled native_enabled
verify join_path parsed managed root =
    if not (docker_enabled parsed) && not (native_enabled parsed)
    then err
        (lit "Invalid Relay configuration detected. At least one execution engine must be enabled.")
    else if managed && text_eq root []
    then err (lit "Enabling 'managed_dynamic_config' requires setting 'dynamic_config_root'.")
    else if managed
    then ok (join_path root (lit "__managed__"))
    else ok root

-- The prefixes that neither the extra variables nor the dynamic configuration may set.
unfoldable pub is_reserved : Text → Bool
is_reserved key = has_prefix key (lit "COG_") || has_prefix key (lit "RELAY_")

abbrev pub add_parts : List Text → Table Text → Outcome (Table Text)
add_parts (key ∷ value ∷ []) env = if is_reserved key then ok env else ok (insert key value env)
add_parts parts env = panic

unfoldable pub add_extra : List Text → Table Text → Outcome (Table Text)
add_extra [] env = ok env
add_extra (v ∷ vs) env = do env' ← add_parts (split_n 2 b'=' v) env; add_extra vs env'

-- ExecutionInfo's parse: ParsedExtraEnv for ExtraEnv.
unfoldable pub parse_extra_env : List Text → Outcome (Table Text)
unfolding add_extra
parse_extra_env extra = add_extra extra []

-- URL of CogInfo.
unfoldable pub url : Bool → Text → ℕ → Text
url ssl_enabled host port =
    (if ssl_enabled then lit "ssl" else lit "tcp") ++ lit "://" ++ host ++ lit ":" ++ show_nat port
