-- ===== src/Config/Infos.antt =====
-- Relay's configuration and its parts: the types of relay/config/config.go, cog_info.go,
-- docker_info.go and execution_info.go.
use go_relay.Base.{ℕ, Bool, false, Option, none, some, List, [], Text, Table}

pub record CogInfo : Type 0 where
  pub host : Text
  pub port : ℕ
  pub token : Text
  pub ssl_enabled : Bool
  pub ssl_cert_path : Text
  pub refresh_interval : Text

pub record DockerInfo : Type 0 where
  pub use_env : Bool
  pub socket_path : Text
  pub container_memory : ℕ
  pub clean_interval : Text
  pub command_driver_version : Text
  pub registry_host : Text
  pub registry_user : Text
  pub registry_email : Text
  pub registry_password : Text

pub record ExecutionInfo : Type 0 where
  pub extra_env : List Text
  pub parsed_extra_env : Table Text

-- `none` is a nil pointer.
pub record Config : Type 0 where
  pub version : ℕ
  pub id : Text
  pub max_concurrent : ℕ
  pub dynamic_config_root : Text
  pub managed_dynamic_config : Bool
  pub dynamic_config_interval : Text
  pub log_level : Text
  pub log_json : Bool
  pub log_path : Text
  pub cog : Option CogInfo
  pub engines_enabled : Text
  pub parsed_engines_enabled : List Text
  pub dev_mode : Bool
  pub docker : Option DockerInfo
  pub execution : Option ExecutionInfo

abbrev pub empty_cog : CogInfo
empty_cog = record {
  host = [];
  port = 0;
  token = [];
  ssl_enabled = false;
  ssl_cert_path = [];
  refresh_interval = [];
}

abbrev pub empty_docker : DockerInfo
empty_docker = record {
  use_env = false;
  socket_path = [];
  container_memory = 0;
  clean_interval = [];
  command_driver_version = [];
  registry_host = [];
  registry_user = [];
  registry_email = [];
  registry_password = [];
}

abbrev pub empty_execution : ExecutionInfo
empty_execution = record { extra_env = []; parsed_extra_env = [] }

abbrev pub or_empty {ℓ} : {A : Type ℓ} → A → Option A → A
or_empty empty none = empty
or_empty empty (some a) = a

abbrev pub empty_config : Config
empty_config = record {
  version = 0;
  id = [];
  max_concurrent = 0;
  dynamic_config_root = [];
  managed_dynamic_config = false;
  dynamic_config_interval = [];
  log_level = [];
  log_json = false;
  log_path = [];
  cog = none;
  engines_enabled = [];
  parsed_engines_enabled = [];
  dev_mode = false;
  docker = none;
  execution = none;
}
