-- ===== src/Config/Loading/Resolved.antt =====
-- Which of the environment, the file and the defaults a setting comes from.
use go_relay.Base.{
  ℕ, ◌≡◌, refl, subst, Bool, true, false, Option, some, Text, lit, ok, Holds, Holds-bind,
  Holds-bind_eq,
}
use go_relay.Config.Infos.{
  Config, empty_cog, empty_docker, empty_execution, or_empty, CogInfo, DockerInfo, ExecutionInfo,
}
use go_relay.Config.Settings.{parse_engines, parse_extra_env}
use go_relay.Config.Loading.{
  parse_bool, populate, populate_own, populate_cog, populate_docker, from_text, from_int, from_bool,
  default_int, default_bool,
}
use go_relay.Config.Loading.Sources.{
  first_of, IsValue, from_text_lem, env_value_lem, IsCog, IsDockerInfo, IsOwn,
}

module _ (getenv : Text → Text) (parse_int : Text → Option ℕ) where
  off_by_default : (b : Bool) → default_bool false b ≡ b
  off_by_default true = refl
  off_by_default false = refl

  on_by_default : (b : Bool) → default_bool true b ≡ true
  on_by_default true = refl
  on_by_default false = refl

  switch_off :
      (name : Text) (b : Bool)
      → Holds (IsValue parse_bool (getenv name) b) (from_bool getenv parse_int name false b)
  switch_off name b =
      subst
        (λ given.
          Holds (IsValue parse_bool (getenv name) given) (from_bool getenv parse_int name false b))
        (off_by_default b) (env_value_lem parse_bool (getenv name) (default_bool false b))

  switch_on :
      (name : Text) (b : Bool)
      → Holds (IsValue parse_bool (getenv name) true) (from_bool getenv parse_int name true b)
  switch_on name b =
      subst
        (λ given.
          Holds (IsValue parse_bool (getenv name) given) (from_bool getenv parse_int name true b))
        (on_by_default b) (env_value_lem parse_bool (getenv name) (default_bool true b))

  number :
      (name : Text) (default n : ℕ)
      → Holds
          (IsValue parse_int (getenv name) (default_int default n))
          (from_int getenv parse_int name default n)
  number name default n = env_value_lem parse_int (getenv name) (default_int default n)

  text_lem :
      (name default file : Text)
      → from_text getenv parse_int name default file ≡ first_of (getenv name) file default
  text_lem = from_text_lem getenv parse_int

  populate_cog_lem :
      (file : CogInfo) → Holds (IsCog getenv parse_int file) (populate_cog getenv parse_int file)
  unfolding populate_cog
  populate_cog_lem file =
      Holds-bind _ (IsCog getenv parse_int file)
        (from_int getenv parse_int (lit "RELAY_COG_PORT") 1883 file.port) _
        (number (lit "RELAY_COG_PORT") 1883 file.port)
        (λ port p.
          Holds-bind _ (IsCog getenv parse_int file)
            (from_bool getenv parse_int (lit "RELAY_COG_ENABLE_SSL") false file.ssl_enabled) _
            (switch_off (lit "RELAY_COG_ENABLE_SSL") file.ssl_enabled)
            (λ ssl s. record {
              host = text_lem _ _ _;
              port = p;
              token = text_lem _ _ _;
              ssl = s;
              cert = text_lem _ _ _;
              refresh = text_lem _ _ _;
            }))

  populate_docker_lem :
      (file : DockerInfo)
      → Holds (IsDockerInfo getenv parse_int file) (populate_docker getenv parse_int file)
  unfolding populate_docker
  populate_docker_lem file =
      Holds-bind _ (IsDockerInfo getenv parse_int file)
        (from_bool getenv parse_int (lit "RELAY_DOCKER_USE_ENV") false file.use_env) _
        (switch_off (lit "RELAY_DOCKER_USE_ENV") file.use_env)
        (λ use_env u.
          Holds-bind _ (IsDockerInfo getenv parse_int file)
            (from_int getenv parse_int (lit "RELAY_DOCKER_CONTAINER_MEMORY") 16
              file.container_memory)
            _ (number (lit "RELAY_DOCKER_CONTAINER_MEMORY") 16 file.container_memory)
            (λ memory m. record {
              use_env = u;
              socket = text_lem _ _ _;
              memory = m;
              clean = text_lem _ _ _;
              driver = text_lem _ _ _;
              registry = text_lem _ _ _;
              user = text_lem _ _ _;
              email = text_lem _ _ _;
              password = text_lem _ _ _;
            }))

  populate_own_lem :
      (file : Config) → Holds (IsOwn getenv parse_int file) (populate_own getenv parse_int file)
  unfolding populate_own
  populate_own_lem file =
      Holds-bind _ (IsOwn getenv parse_int file)
        (from_int getenv parse_int (lit "RELAY_MAX_CONCURRENT") 16 file.max_concurrent) _
        (number (lit "RELAY_MAX_CONCURRENT") 16 file.max_concurrent)
        (λ n p.
          Holds-bind _ (IsOwn getenv parse_int file)
            (from_bool getenv parse_int (lit "RELAY_MANAGED_DYNAMIC_CONFIG") true
              file.managed_dynamic_config)
            _ (switch_on (lit "RELAY_MANAGED_DYNAMIC_CONFIG") file.managed_dynamic_config)
            (λ managed m.
              Holds-bind _ (IsOwn getenv parse_int file)
                (from_bool getenv parse_int (lit "RELAY_LOG_JSON") false file.log_json) _
                (switch_off (lit "RELAY_LOG_JSON") file.log_json)
                (λ json j. record {
                  id = text_lem _ _ _;
                  max_concurrent = p;
                  root = text_lem _ _ _;
                  managed = m;
                  interval = text_lem _ _ _;
                  log_level = text_lem _ _ _;
                  log_json = j;
                  log_path = text_lem _ _ _;
                  engines = text_lem _ _ _;
                  unchanged = refl;
                })))

  -- A populated configuration, from the file's.
  pub record IsPopulated (file c : Config) : Type 0 where
    pub own : IsOwn getenv parse_int file c
    pub cog :
        (cog : CogInfo) × (c.cog ≡ some cog)
        × IsCog getenv parse_int (or_empty empty_cog file.cog) cog
    pub docker :
        (docker : DockerInfo) × (c.docker ≡ some docker)
        × IsDockerInfo getenv parse_int (or_empty empty_docker file.docker) docker
    pub engines : c.parsed_engines_enabled ≡ parse_engines c.engines_enabled
    pub extra :
        (execution : ExecutionInfo) × (c.execution ≡ some execution)
        × (parse_extra_env (or_empty empty_execution file.execution).extra_env
            ≡ ok execution.parsed_extra_env)

  pub populate_lem : (file : Config) → Holds (IsPopulated file) (populate getenv parse_int file)
  unfolding populate
  populate_lem file =
      Holds-bind _ (IsPopulated file) (populate_own getenv parse_int file) _ (populate_own_lem file)
        (λ own o.
          Holds-bind _ (IsPopulated file)
            (populate_cog getenv parse_int (or_empty empty_cog file.cog)) _
            (populate_cog_lem (or_empty empty_cog file.cog))
            (λ cog g.
              Holds-bind _ (IsPopulated file)
                (populate_docker getenv parse_int (or_empty empty_docker file.docker)) _
                (populate_docker_lem (or_empty empty_docker file.docker))
                (λ docker d.
                  Holds-bind_eq (IsPopulated file)
                    (parse_extra_env (or_empty empty_execution file.execution).extra_env) _
                    (λ parsed e. record {
                      own = record {
                        id = o.id;
                        max_concurrent = o.max_concurrent;
                        root = o.root;
                        managed = o.managed;
                        interval = o.interval;
                        log_level = o.log_level;
                        log_json = o.log_json;
                        log_path = o.log_path;
                        engines = o.engines;
                        unchanged = o.unchanged;
                      };
                      cog = (cog, refl, g);
                      docker = (docker, refl, d);
                      engines = refl;
                      extra = (_, refl, e);
                    }))))
