-- ===== src/Config/Loading.antt =====
-- relay/config/config.go, raw.go and loader.go: how a configuration is read and completed. The
-- reflection over the tags of the fields is written out field by field. The environment, the YAML
-- decoder and govalidator are parameters; the numbers are those that are not negative, which
-- `parse_int` reads.
pub mod Sources
pub mod Resolved
pub mod Parsed
mod Tests
use go_relay.Base.{
  ℕ, Bool, true, false, not, ◌&&◌, ◌||◌, Option, none, some, List, [], ◌∷◌, ◌++◌, Text, lit,
  text_eq, to_lower, Outcome, ok, err, panic, ◌>>=◌, ◌==◌, if◌then◌else◌,
}
use go_relay.Config.Infos.{
  Config, empty_cog, empty_docker, empty_execution, empty_config, or_empty, CogInfo, DockerInfo,
  ExecutionInfo,
}
use go_relay.Config.Settings.{parse_engines, parse_extra_env, contains}

-- strconv.ParseBool
unfoldable pub parse_bool : Text → Option Bool
parse_bool t =
    if contains t (lit "1" ∷ lit "t" ∷ lit "T" ∷ lit "true" ∷ lit "TRUE" ∷ lit "True" ∷ [])
    then some true
    else if contains t (lit "0" ∷ lit "f" ∷ lit "F" ∷ lit "false" ∷ lit "FALSE" ∷ lit "False" ∷ [])
    then some false
    else none

-- The cases of setDefaultValues by a field's kind.
abbrev pub default_text : Text → Text → Text
default_text default value = if text_eq value [] then default else value

abbrev pub default_int : ℕ → ℕ → ℕ
default_int default value = if value == 0 then default else value

abbrev pub default_bool : Bool → Bool → Bool
default_bool default value = if not value && default then true else value

-- Those of setEnvVars; a value that does not parse is a panic.
abbrev pub env_text : Text → Text → Text
env_text text value = if text_eq text [] then value else text

abbrev pub parsed_or_panic {ℓ} : {A : Type ℓ} → Option A → Outcome A
parsed_or_panic none = panic
parsed_or_panic (some a) = ok a

abbrev pub env_value {ℓ} : {A : Type ℓ} → (Text → Option A) → Text → A → Outcome A
env_value parse text value = if text_eq text [] then ok value else parsed_or_panic (parse text)

module _ (getenv : Text → Text) (parse_int : Text → Option ℕ) where
  abbrev pub from_text : Text → Text → Text → Text
  from_text name default value = env_text (getenv name) (default_text default value)

  abbrev pub from_int : Text → ℕ → ℕ → Outcome ℕ
  from_int name default value = env_value parse_int (getenv name) (default_int default value)

  abbrev pub from_bool : Text → Bool → Bool → Outcome Bool
  from_bool name default value = env_value parse_bool (getenv name) (default_bool default value)

  -- setDefaultValues and setEnvVars on each of the structs.
  unfoldable pub populate_cog : CogInfo → Outcome CogInfo
  unfolding parse_bool
  populate_cog c = do
    port ← from_int (lit "RELAY_COG_PORT") 1883 c.port
    ssl_enabled ← from_bool (lit "RELAY_COG_ENABLE_SSL") false c.ssl_enabled
    ok (record {
      host = from_text (lit "RELAY_COG_HOST") (lit "127.0.0.1") c.host;
      port = port;
      token = from_text (lit "RELAY_COG_TOKEN") [] c.token;
      ssl_enabled = ssl_enabled;
      ssl_cert_path = from_text (lit "RELAY_COG_SSL_CERT_PATH") [] c.ssl_cert_path;
      refresh_interval = from_text (lit "RELAY_COG_REFRESH_INTERVAL") (lit "1m") c.refresh_interval;
    })

  unfoldable pub populate_docker : DockerInfo → Outcome DockerInfo
  unfolding parse_bool
  populate_docker d = do
    use_env ← from_bool (lit "RELAY_DOCKER_USE_ENV") false d.use_env
    memory ← from_int (lit "RELAY_DOCKER_CONTAINER_MEMORY") 16 d.container_memory
    ok (record {
      use_env = use_env;
      socket_path =
          from_text (lit "RELAY_DOCKER_SOCKET_PATH") (lit "unix:///var/run/docker.sock")
            d.socket_path;
      container_memory = memory;
      clean_interval = from_text (lit "RELAY_DOCKER_CLEAN_INTERVAL") (lit "5m") d.clean_interval;
      command_driver_version =
          from_text (lit "RELAY_DOCKER_CIRCUIT_DRIVER_VERSION") [] d.command_driver_version;
      registry_host =
          from_text (lit "RELAY_DOCKER_REGISTRY_HOST") (lit "index.docker.io") d.registry_host;
      registry_user = from_text (lit "RELAY_DOCKER_REGISTRY_USER") [] d.registry_user;
      registry_email = from_text (lit "RELAY_DOCKER_REGISTRY_EMAIL") [] d.registry_email;
      registry_password = from_text (lit "RELAY_DOCKER_REGISTRY_PASSWORD") [] d.registry_password;
    })

  -- The fields of Config itself.
  unfoldable pub populate_own : Config → Outcome Config
  unfolding parse_bool
  populate_own c = do
    max_concurrent ← from_int (lit "RELAY_MAX_CONCURRENT") 16 c.max_concurrent
    managed ← from_bool (lit "RELAY_MANAGED_DYNAMIC_CONFIG") true c.managed_dynamic_config
    log_json ← from_bool (lit "RELAY_LOG_JSON") false c.log_json
    ok (record c {
      id = from_text (lit "RELAY_ID") [] c.id;
      max_concurrent = max_concurrent;
      dynamic_config_root = from_text (lit "RELAY_DYNAMIC_CONFIG_ROOT") [] c.dynamic_config_root;
      managed_dynamic_config = managed;
      dynamic_config_interval =
          from_text (lit "RELAY_MANAGED_DYNAMIC_CONFIG_INTERVAL") (lit "5s")
            c.dynamic_config_interval;
      log_level = from_text (lit "RELAY_LOG_LEVEL") (lit "info") c.log_level;
      log_json = log_json;
      log_path = from_text (lit "RELAY_LOG_PATH") (lit "stdout") c.log_path;
      engines_enabled =
          from_text (lit "RELAY_ENABLED_ENGINES") (lit "docker,native") c.engines_enabled;
    })

  unfoldable pub populate : Config → Outcome Config
  unfolding populate_own populate_cog populate_docker
  populate c = do
    own ← populate_own c
    cog ← populate_cog (or_empty empty_cog c.cog)
    docker ← populate_docker (or_empty empty_docker c.docker)
    let execution = or_empty empty_execution c.execution
    parsed ← parse_extra_env execution.extra_env
    ok (record own {
      cog = some cog;
      docker = some docker;
      execution = some (record execution { parsed_extra_env = parsed });
      parsed_engines_enabled = parse_engines own.engines_enabled;
    })

abbrev pub relay_config_version : ℕ
relay_config_version = 1

abbrev pub error_wrong_config_version : Text
error_wrong_config_version = lit "Only Cog Relay config version 1 is supported"

abbrev pub error_missing_config_path : Text
error_missing_config_path = lit "Path to configuration file is required"

abbrev pub error_config_file_not_found : Text
error_config_file_not_found = lit "Config file not found or is unreadable"

-- LoadConfig; `exists` is os.Stat's answer.
unfoldable pub load_config : (Text → Bool) → (Text → Outcome Text) → Text → Outcome Text
load_config exists read_file path =
    if text_eq path []
    then err error_missing_config_path
    else if not (exists path)
    then err error_config_file_not_found
    else read_file path

abbrev pub of_version : Config → Outcome Config
of_version c = if c.version == relay_config_version then ok c else err error_wrong_config_version

abbrev pub with_driver_tag : Text → DockerInfo → DockerInfo
with_driver_tag tag d =
    if text_eq d.command_driver_version [] then record d { command_driver_version = tag } else d

abbrev pub finished : Text → Config → Config
finished tag c = record c {
  id = to_lower c.id;
  docker = some (with_driver_tag tag (or_empty empty_docker c.docker));
}

abbrev pub validated : (DockerInfo → Option Text) → Option Text → Config → Config × Option Text
validated validate_docker (some e) c = (c, some e)
validated validate_docker none c = (c, validate_docker (or_empty empty_docker c.docker))

module _ (decode : Text → Outcome Config) where
  -- The decoded file, or only the version where there is none.
  abbrev pub read_config : Text → Outcome Config
  read_config [] = ok (record empty_config { version = relay_config_version })
  read_config (b ∷ raw) = do c ← decode (b ∷ raw); of_version c

  -- Parse: the configuration beside the validators' error, if there is one; an `err` comes without a
  -- configuration. After `populate` there is a Docker part.
  module _ (getenv : Text → Text) (parse_int : Text → Option ℕ) (validate : Config → Option Text)
      (validate_docker : DockerInfo → Option Text) where
    unfoldable pub parse : Text → Text → Outcome (Config × Option Text)
    unfolding populate
    parse tag raw = do
      c ← read_config raw
      populated ← populate getenv parse_int c
      let done = finished tag populated
      ok (validated validate_docker (validate done) done)
