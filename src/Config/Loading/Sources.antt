-- ===== src/Config/Loading/Sources.antt =====
-- Where a setting comes from, field by field.
use go_relay.Base.{
  ℕ, ◌≡◌, refl, true, Option, none, some, [], ◌∷◌, Text, lit, text_eq, Holds, if◌then◌else◌,
}
use go_relay.Config.Infos.{Config, CogInfo, DockerInfo}
use go_relay.Config.Loading.{parse_bool, from_text, env_value, default_int, parsed_or_panic, parse}

-- The environment's text if it is not empty, else the file's, else the default.
abbrev pub first_of : Text → Text → Text → Text
first_of [] [] default = default
first_of [] (b ∷ file) default = b ∷ file
first_of (b ∷ env) file default = b ∷ env

-- A value is the environment's if that is not empty, and then it parses; otherwise the given one.
abbrev pub IsValue {ℓ} : {A : Type ℓ} → (Text → Option A) → Text → A → A → Type ℓ
IsValue parse [] given value = value ≡ given
IsValue parse (b ∷ env) given value = parse (b ∷ env) ≡ some value

pub from_text_lem :
    (getenv : Text → Text) (parse_int : Text → Option ℕ) (name default file : Text)
    → from_text getenv parse_int name default file ≡ first_of (getenv name) file default
unfolding text_eq
from_text_lem getenv parse_int name default file = by_cases (getenv name) file
  where
    by_cases :
        (env file : Text)
        → (if text_eq env [] then (if text_eq file [] then default else file) else env)
          ≡ first_of env file default
    by_cases [] [] = refl
    by_cases [] (b ∷ file) = refl
    by_cases (b ∷ env) file = refl

pub env_value_lem :
    {A : Type 0} (parse : Text → Option A) (env : Text) (given : A)
    → Holds (IsValue parse env given) (env_value parse env given)
unfolding text_eq
env_value_lem parse [] given = refl
env_value_lem parse (b ∷ env) given = by_answer (parse (b ∷ env)) refl
  where
    by_answer :
        (o : Option _)
        → parse (b ∷ env) ≡ o
        → Holds (λ v. parse (b ∷ env) ≡ some v) (parsed_or_panic o)
    by_answer none e = tt
    by_answer (some v) e = e

module _ (getenv : Text → Text) (parse_int : Text → Option ℕ) where
  -- The settings for Cog, from those of the file.
  pub record IsCog (file cog : CogInfo) : Type 0 where
    pub host : cog.host ≡ first_of (getenv (lit "RELAY_COG_HOST")) file.host (lit "127.0.0.1")
    pub port :
        IsValue parse_int (getenv (lit "RELAY_COG_PORT")) (default_int 1883 file.port) cog.port
    pub token : cog.token ≡ first_of (getenv (lit "RELAY_COG_TOKEN")) file.token []
    pub ssl :
        IsValue parse_bool (getenv (lit "RELAY_COG_ENABLE_SSL")) file.ssl_enabled cog.ssl_enabled
    pub cert :
        cog.ssl_cert_path ≡ first_of (getenv (lit "RELAY_COG_SSL_CERT_PATH")) file.ssl_cert_path []
    pub refresh :
        cog.refresh_interval
        ≡ first_of (getenv (lit "RELAY_COG_REFRESH_INTERVAL")) file.refresh_interval (lit "1m")

  -- Those for Docker.
  pub record IsDockerInfo (file docker : DockerInfo) : Type 0 where
    pub use_env :
        IsValue parse_bool (getenv (lit "RELAY_DOCKER_USE_ENV")) file.use_env docker.use_env
    pub socket :
        docker.socket_path
        ≡ first_of
            (getenv (lit "RELAY_DOCKER_SOCKET_PATH"))
            file.socket_path
            (lit "unix:///var/run/docker.sock")
    pub memory :
        IsValue parse_int
          (getenv (lit "RELAY_DOCKER_CONTAINER_MEMORY"))
          (default_int 16 file.container_memory)
          docker.container_memory
    pub clean :
        docker.clean_interval
        ≡ first_of (getenv (lit "RELAY_DOCKER_CLEAN_INTERVAL")) file.clean_interval (lit "5m")
    pub driver :
        docker.command_driver_version
        ≡ first_of
            (getenv (lit "RELAY_DOCKER_CIRCUIT_DRIVER_VERSION"))
            file.command_driver_version
            []
    pub registry :
        docker.registry_host
        ≡ first_of
            (getenv (lit "RELAY_DOCKER_REGISTRY_HOST"))
            file.registry_host
            (lit "index.docker.io")
    pub user :
        docker.registry_user
        ≡ first_of (getenv (lit "RELAY_DOCKER_REGISTRY_USER")) file.registry_user []
    pub email :
        docker.registry_email
        ≡ first_of (getenv (lit "RELAY_DOCKER_REGISTRY_EMAIL")) file.registry_email []
    pub password :
        docker.registry_password
        ≡ first_of (getenv (lit "RELAY_DOCKER_REGISTRY_PASSWORD")) file.registry_password []

  -- The relay's own. The managed configuration is on by default, whatever the file says.
  pub record IsOwn (file own : Config) : Type 0 where
    pub id : own.id ≡ first_of (getenv (lit "RELAY_ID")) file.id []
    pub max_concurrent :
        IsValue parse_int
          (getenv (lit "RELAY_MAX_CONCURRENT"))
          (default_int 16 file.max_concurrent)
          own.max_concurrent
    pub root :
        own.dynamic_config_root
        ≡ first_of (getenv (lit "RELAY_DYNAMIC_CONFIG_ROOT")) file.dynamic_config_root []
    pub managed :
        IsValue parse_bool
          (getenv (lit "RELAY_MANAGED_DYNAMIC_CONFIG"))
          true
          own.managed_dynamic_config
    pub interval :
        own.dynamic_config_interval
        ≡ first_of
            (getenv (lit "RELAY_MANAGED_DYNAMIC_CONFIG_INTERVAL"))
            file.dynamic_config_interval
            (lit "5s")
    pub log_level :
        own.log_level ≡ first_of (getenv (lit "RELAY_LOG_LEVEL")) file.log_level (lit "info")
    pub log_json : IsValue parse_bool (getenv (lit "RELAY_LOG_JSON")) file.log_json own.log_json
    pub log_path :
        own.log_path ≡ first_of (getenv (lit "RELAY_LOG_PATH")) file.log_path (lit "stdout")
    pub engines :
        own.engines_enabled
        ≡ first_of (getenv (lit "RELAY_ENABLED_ENGINES")) file.engines_enabled (lit "docker,native")
    pub unchanged : own.version ≡ file.version
