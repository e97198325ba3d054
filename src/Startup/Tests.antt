-- ===== src/Startup/Tests.antt =====
-- A start from the second location, and a configuration with two errors.
use go_relay.Config.Infos.{Config, empty_config}
use go_relay.Base.{
  ◌≡◌, refl, Bool, true, false, Option, none, [], ◌∷◌, ◌++◌, Text, lit, text_eq, split, join,
  Outcome, ok, err, if◌then◌else◌,
}
use go_relay.Config.Settings.{verify}
use go_relay.Startup.{goes_on, to_stdout, info_level, Flags, main, error_message, nonempty}
use go_relay.Startup.Messages.{indented, error_message_lem}
use go_relay.Base.{some, ℕ, panic, Text, arith}
use go_relay.Config.Infos.{CogInfo}
use go_relay.Config.Durations.{refresh_duration, managed_dynamic_config_refresh_duration}
use go_relay.Config.Settings.{docker_enabled, native_enabled}
use go_relay.Messages.Directives.{Announcement}
use go_relay.Startup.{Logger, display_version_info, configure_logger}
use go_relay.Relay.Session.{Settings, relay_conn_opts, make_conn_opts, init_docker}
use go_relay.Relay.Lifecycle.{Starting}
use go_relay.Bus.Mqtt.{ClientOptions, client_options, build_mqtt_options, will_of, configure_ssl}
use go_relay.Startup.Process.{interrupt, settings_of, run}
use go_relay.Startup.Ending.{hangups, Ends, IsStopped, run-Ends}

abbrev load : Text → Outcome Text
load path =
    if text_eq path (lit "/etc/relay.conf") then err (lit "not found") else ok (lit "version: 1")

abbrev config : Config
config = record empty_config {
  version = 1;
  parsed_engines_enabled = lit "native" ∷ [];
  managed_dynamic_config = true;
  dynamic_config_root = lit "/c";
  log_path = lit "stdout";
}

abbrev parse : Text → Outcome (Config × Option Text)
parse raw = if text_eq raw [] then err (lit "empty") else ok (config, none)

abbrev opens : Text → Bool
opens path = false

abbrev join_path : Text → Text → Text
join_path a b = a ++ (lit "/" ++ b)

abbrev start : Config → Outcome Text
start c = ok c.dynamic_config_root

abbrev flags : Flags
flags = record { file = []; cpuprofile = []; memprofile = lit "/m"; dev = false }

abbrev creates : Text → Option Text
creates path = none

comes_online :
    main load parse opens join_path start creates flags
    ≡ goes_on (
      record config { dynamic_config_root = lit "/c/__managed__" },
      (record { json = false; output = to_stdout; level = info_level }, lit "/c/__managed__"),
    )
unfolding main text_eq verify
comes_online = refl

two_errors : error_message (lit "a;b;") ≡ lit "  a\n  b"
unfolding error_message split
two_errors = refl

two_lines : error_message (lit "a;b;") ≡ join b'\n' (indented (nonempty (split (lit "a;b;") b';')))
two_lines = error_message_lem (lit "a;b;")

abbrev cog : CogInfo
cog = record {
  host = lit "cog";
  port = 1883;
  token = lit "pw";
  ssl_enabled = false;
  ssl_cert_path = [];
  refresh_interval = lit "1m";
}

abbrev native_config : Config
native_config = record config { id = lit "r1"; cog = some cog; dynamic_config_interval = lit "5s" }

abbrev parse_native : Text → Outcome (Config × Option Text)
parse_native raw = ok (native_config, none)

abbrev parse_duration : Text → Outcome ℕ
parse_duration t = ok 5

abbrev will_body : Announcement → Text
will_body announcement = lit "bye"

abbrev logger : Logger
logger = record { json = false; output = to_stdout; level = info_level }

abbrev settings : Settings
settings = record {
  id = lit "r1";
  token = lit "pw";
  host = lit "cog";
  port = 1883;
  ssl_enabled = false;
  ssl_cert_path = [];
  docker_enabled = false;
  native_enabled = true;
  managed_dynamic_config = true;
  dynamic_config_root = lit "/c/__managed__";
  refresh_duration = ok 5;
  dynamic_config_duration = ok 5;
  clean_duration = panic;
  will_body = will_body;
}

abbrev surroundings : Starting
surroundings = record {
  docker_init = ok tt;
  client_id = lit "c";
  attempts = λ n. none;
  answers = record {
    subscribed = λ topic. ok tt;
    published = true;
    updater_connected = ok tt;
    updater_event = true;
    updater_published = true;
    disk = record { nodes = []; faults = [] };
  };
}

abbrev read_file : Text → Outcome Text
read_file path = err (lit "no file")

abbrev append_certs : Text → Option Text
append_certs pem = none

abbrev encode : Text → Text
encode payload = payload

abbrev client : ClientOptions Text
client = record (build_mqtt_options (lit "c") (relay_conn_opts settings)) {
  will = will_of encode (relay_conn_opts settings).on_disconnect;
}

accepted :
    client_options read_file append_certs encode (lit "c") (relay_conn_opts settings) ≡ ok client
unfolding client_options relay_conn_opts make_conn_opts build_mqtt_options configure_ssl
accepted = refl

settings_read :
    settings_of parse_duration will_body
      (record native_config { dev_mode = false; dynamic_config_root = lit "/c/__managed__" })
    ≡ ok settings
unfolding settings_of text_eq docker_enabled native_enabled refresh_duration
    managed_dynamic_config_refresh_duration
settings_read = refl

abbrev reopens : Text → Bool
reopens path = true

ended :
    Ends
      (λ logger' r'. (logger' ≡ logger) × IsStopped settings surroundings r')
      (run parse_duration will_body read_file append_certs encode surroundings 1 load parse_native
        opens join_path creates
        (lit "h")
        (lit "t")
        (lit "s")
        (lit "relay" ∷ [])
        flags
        (hangups (reopens ∷ []) ++ interrupt ∷ []))
ended =
    run-Ends parse_duration will_body read_file append_certs encode surroundings load parse_native
      opens join_path creates (lit "h") (lit "t") (lit "s") (lit "relay" ∷ []) flags native_config
      logger (lit "/c/__managed__") settings client [] 1 (reopens ∷ []) []
      (unfold display_version_info in unfold text_eq in refl) refl
      (unfold configure_logger in unfold text_eq in refl) (λ path. refl)
      (unfold verify in unfold text_eq in refl) settings_read
      (record {
        subscribes = λ topic. refl;
        publishes = refl;
        connects = refl;
        has_event = refl;
        publishes_first = refl;
      })
      (record {
        refreshes = (5, refl);
        dynamic_configs = λ h. (5, refl);
        cleans = λ h. absurd (ground (arith, h));
      })
      (unfold init_docker in refl) accepted refl tt (omega arith) (refl, tt)
