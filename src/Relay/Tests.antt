-- ===== src/Relay/Tests.antt =====
-- An update that brings one new bundle, and a relay that connects at the second attempt.
use go_relay.Base.{
  ◌≡◌, refl, true, false, Option, none, some, ℕ, zero, suc, [], ◌∷◌, Text, lit, split, Outcome, ok,
  err, Holds, Returns, arith,
}
use go_relay.Announcer.{armed}
use go_relay.Relay.Session.{handle_command, scheduled_docker_cleanup}
use go_relay.Relay.Events.{World, invokes, cleans, here, next}
use go_relay.Relay.Events.{Reach}
use go_relay.Relay.Started.{started_relay, started_world, started_world-IsSound}
use go_relay.Announcer.{new_announcer}
use go_relay.Relay.Reached.{IsSound, Reach-IsSound}
use go_relay.Bus.Mqtt.{ClientOptions, client_options, build_mqtt_options, will_of, configure_ssl}
use go_relay.Engines.{get_engine}
use go_relay.Relay.Session.{
  Settings, Answers, new_relay, relay_conn_opts, make_conn_opts, init_docker,
}
use go_relay.Updater.Session.{new_dynamic_config_updater}
use go_relay.Relay.Lifecycle.{Starting, start, stop, halt_announcer}
use go_relay.Relay.Running.{IsServed, first_connected, start_lem}
use go_relay.Relay.Stopping.{is_armed, is_refreshing, stop_lem}
use go_relay.Config.Bundle.{Bundle}
use go_relay.Catalog.{new_catalog, replace, is_changed}
use go_relay.Messages.Directives.{ListBundlesResponseEnvelope}
use go_relay.Relay.{fix_bundle_version, fixed_bundles, update_catalog}
use go_relay.Relay.Updates.{IsRefreshed, update_catalog-IsRefreshed}

fixed_version : fix_bundle_version (lit "1.2") ≡ lit "1.2.0"
unfolding fix_bundle_version split
fixed_version = refl

abbrev bundle : Bundle
bundle = record {
  bundle_version = 4;
  name = lit "foo";
  version = lit "1.2";
  permissions = [];
  docker = none;
  commands = [];
  templates = [];
  available = false;
}

abbrev envelope : ListBundlesResponseEnvelope
envelope = record { bundles = record { config_file = bundle } ∷ [] }

update_catalog-IsRefreshed_example :
    Holds
      (λ r.
        IsRefreshed (replace new_catalog (fixed_bundles envelope.bundles)).0 r.0
        × (r.1 ≡ is_changed r.0))
      (update_catalog false true (λ image tag. false) envelope new_catalog)
update_catalog-IsRefreshed_example =
    update_catalog-IsRefreshed false true (λ image tag. false) envelope new_catalog

abbrev settings : Settings
settings = record {
  id = lit "r1";
  token = lit "pw";
  host = lit "cog";
  port = 1883;
  ssl_enabled = false;
  ssl_cert_path = [];
  docker_enabled = true;
  native_enabled = true;
  managed_dynamic_config = true;
  dynamic_config_root = lit "/c/m";
  refresh_duration = ok 60;
  dynamic_config_duration = ok 5;
  clean_duration = ok 300;
  will_body = λ announcement. lit "bye";
}

abbrev answers : Answers
answers = record {
  subscribed = λ topic. ok tt;
  published = true;
  updater_connected = ok tt;
  updater_event = true;
  updater_published = true;
  disk = record { nodes = []; faults = [] };
}

abbrev served : IsServed answers
served = record {
  subscribes = λ topic. refl;
  publishes = refl;
  connects = refl;
  has_event = refl;
  publishes_first = refl;
}

abbrev attempts : ℕ → Option ℕ
attempts zero = some 2
attempts (suc n) = none

abbrev starting : Starting
starting = record {
  docker_init = ok tt;
  client_id = lit "c";
  attempts = attempts;
  answers = answers;
}

abbrev read_file : Text → Outcome Text
read_file path = err (lit "no file")

abbrev append_certs : Text → Option Text
append_certs pem = none

abbrev encode : Text → Text
encode payload = payload

abbrev client : ClientOptions Text
client = record (build_mqtt_options (lit "c") (relay_conn_opts settings)) {
  will = will_of encode (relay_conn_opts settings).on_disconnect;
}

accepted :
    client_options read_file append_certs encode (lit "c") (relay_conn_opts settings) ≡ ok client
unfolding client_options relay_conn_opts make_conn_opts build_mqtt_options configure_ssl
accepted = refl

started_there :
    start settings read_file append_certs encode starting 2 (new_relay new_catalog)
    ≡ ok (some (record (first_connected settings answers) { clean_timer = armed }))
started_there =
    start_lem settings read_file append_certs encode starting client (2 ∷ []) 2 served
      (record {
        refreshes = (60, refl);
        dynamic_configs = λ h. (5, refl);
        cleans = λ h. (300, refl);
      })
      (unfold init_docker in unfold get_engine in refl) accepted (refl, refl) (omega arith, tt)
      (omega arith)

stop_started :
    Returns
      (λ r'.
        (is_armed r'.bundle_timer ≡ false)
        × (is_refreshing r'.updater ≡ false)
        × (r'.announcer ≡ halt_announcer (first_connected settings answers).announcer)
        × (is_armed r'.clean_timer ≡ true))
      (stop settings (record (first_connected settings answers) { clean_timer = armed }))
unfolding new_relay new_announcer new_dynamic_config_updater
stop_started =
    stop_lem settings (record (first_connected settings answers) { clean_timer = armed }) refl
      (true, refl, refl) refl

abbrev cleaned_world : World
cleaned_world = record (started_world settings answers) {
  relay =
      scheduled_docker_cleanup settings
        (handle_command settings (lit "t") (lit "m") (started_relay settings answers));
}

reached : Reach settings (started_world settings answers) cleaned_world
reached = next (next here (invokes (lit "t") (lit "m"))) cleans

Reach-IsSound_example : IsSound settings cleaned_world
Reach-IsSound_example =
    Reach-IsSound settings (started_world settings answers) cleaned_world reached
      (started_world-IsSound settings answers)
