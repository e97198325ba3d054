-- ===== src/Relay/Session.antt =====
-- relay/relay.go: what the relay does on a connection, a directive, a timer and a command. The
-- announcer holds the shared catalog once there is one; `conn` tells whether there is a connection,
-- and `subscriptions`, `requests` and `queue` record what was subscribed to, asked for and queued,
-- the last first. The queue's bound only blocks the sender, and the workers at its other end are
-- those of Worker.Loop.
use go_relay.Base.{
  ℕ, Bool, true, false, Option, none, some, List, [], ◌∷◌, ◌++◌, Text, lit, Outcome, ok, err, panic,
  ◌>>=◌, ltb, if◌then◌else◌,
}
use go_relay.Announcer.{
  Announcer, Timer, unset, armed, idle, new_announcer, send_announcement_request, halt, stop_timer,
}
use go_relay.Announcer as Announcer
use go_relay.Bus.Connection.{ConnectionOptions}
use go_relay.Bus.Mqtt.{MqttConnection}
use go_relay.Catalog.{Catalog, len, reconnected}
use go_relay.Engines.{get_engine, docker_engine_type}
use go_relay.Messages.Directives.{
  ListBundlesMessage, ListBundlesResponseEnvelope, Announcement, new_offline_announcement,
}
use go_relay.Relay.{update_catalog}
use go_relay.Updater.{Disk}
use go_relay.Updater.Session.{DynamicConfigUpdater, new_dynamic_config_updater}
use go_relay.Updater.Session as Updater

-- What the relay reads of its configuration; `will_body` is the JSON text of an announcement. A
-- duration that panics does so at the start, which reads all of them; they do not change later.
pub record Settings : Type 0 where
  pub id : Text
  pub token : Text
  pub host : Text
  pub port : ℕ
  pub ssl_enabled : Bool
  pub ssl_cert_path : Text
  pub docker_enabled : Bool
  pub native_enabled : Bool
  pub managed_dynamic_config : Bool
  pub dynamic_config_root : Text
  pub refresh_duration : Outcome ℕ
  pub dynamic_config_duration : Outcome ℕ
  pub clean_duration : Outcome ℕ
  pub will_body : Announcement → Text

pub record Relay : Type 0 where
  pub conn : Bool
  pub catalog : Catalog
  pub announcer : Option Announcer
  pub updater : Option DynamicConfigUpdater
  pub bundle_timer : Timer
  pub clean_timer : Timer
  pub subscriptions : List Text
  pub requests : List ListBundlesMessage
  pub queue : List (Text × Text)

abbrev pub directives_topic : Settings → Text
directives_topic s = lit "bot/relays/" ++ (s.id ++ lit "/directives")

abbrev pub commands_topic : Settings → Text
commands_topic s = lit "/bot/commands/" ++ (s.id ++ lit "/#")

abbrev pub announcer_topic : Settings → Text
announcer_topic s = lit "bot/relays/" ++ (s.id ++ lit "/announcer")

unfoldable pub new_relay : Catalog → Relay
new_relay catalog = record {
  conn = false;
  catalog = catalog;
  announcer = none;
  updater = none;
  bundle_timer = unset;
  clean_timer = unset;
  subscriptions = [];
  requests = [];
  queue = [];
}

unfoldable pub make_conn_opts : {H : Type 0} → Settings → ConnectionOptions H
make_conn_opts s = record {
  userid = s.id;
  password = s.token;
  host = s.host;
  port = s.port;
  ssl_enabled = s.ssl_enabled;
  ssl_cert_path = s.ssl_cert_path;
  events_handler = none;
  auto_reconnect = false;
  on_disconnect = none;
}

unfoldable pub new_will : Settings → Text → Text
new_will s reply_to = s.will_body (new_offline_announcement s.id reply_to)

-- The relay's own options; the one handler is handle_bus_events.
unfoldable pub relay_conn_opts : Settings → ConnectionOptions (Unit {0})
unfolding make_conn_opts new_will
relay_conn_opts s = record (make_conn_opts s) {
  userid = s.id ++ lit "/announcer";
  events_handler = some tt;
  on_disconnect =
      some (record { topic = lit "bot/relays/discover"; body = new_will s (announcer_topic s) });
}

-- The catalog that the relay and its announcer share.
abbrev pub catalog_of : Option Announcer → Catalog → Catalog
catalog_of none c = c
catalog_of (some a) c = a.catalog

abbrev pub with_catalog : Option Announcer → Catalog → Option Announcer
with_catalog none c = none
with_catalog (some a) c = some (record a { catalog = c })

abbrev pub set_catalog : Catalog → Relay → Relay
set_catalog c r = record r { catalog = c; announcer = with_catalog r.announcer c }

-- An error that the caller turns into a panic, or into the end of the process.
abbrev pub required {ℓ} : {A : Type ℓ} → Outcome A → Outcome A
required (ok a) = ok a
required (err e) = panic
required panic = panic

-- What the surroundings answer on a bus event: to each subscription, to the publish of the request
-- for bundles, and to the updater's connection, its event and its first publish.
pub record Answers : Type 0 where
  pub subscribed : Text → Outcome (Unit {0})
  pub published : Bool
  pub updater_connected : Outcome (Unit {0})
  pub updater_event : Bool
  pub updater_published : Bool
  pub disk : Disk

module _ (s : Settings) where
  unfoldable pub request_bundles : Bool → Relay → Relay
  request_bundles published r =
      if published
      then record r {
        requests = record { relay_id = s.id; reply_to = directives_topic s } ∷ r.requests;
      }
      else r

  abbrev pub subscribe : Answers → Text → Relay → Outcome Relay
  subscribe o topic r = do
    _ ← o.subscribed topic
    ok (record r { subscriptions = topic ∷ r.subscriptions })

  unfoldable pub set_subscriptions : Answers → Relay → Outcome Relay
  set_subscriptions o r = do
    r' ← subscribe o (directives_topic s) r
    subscribe o (commands_topic s) r'

  abbrev pub start_updater : Answers → Bool → Relay → Outcome Relay
  start_updater o false r = ok r
  start_updater o true r = do
    _ ← s.dynamic_config_duration
    _ ← required o.updater_connected
    u ←
        Updater.run o.updater_event o.updater_published
          (new_dynamic_config_updater s.id s.dynamic_config_root o.disk)
    ok (record r { updater = some u })

  -- The announcer on the first connection and on a later one.
  abbrev pub announce_connected : Answers → Option Announcer → Relay → Outcome Relay
  announce_connected o none r = do
    a ← required (Announcer.run (o.subscribed (announcer_topic s)) (new_announcer s.id r.catalog))
    start_updater o s.managed_dynamic_config
        (record r { announcer = some a; subscriptions = announcer_topic s ∷ r.subscriptions })
  announce_connected o (some a) r = do
    _ ← required (o.subscribed (announcer_topic s))
    ok (record r {
      announcer = some (send_announcement_request a);
      subscriptions = announcer_topic s ∷ r.subscriptions;
    })

  abbrev pub load_or_announce : Bool → Catalog → Relay → Relay
  load_or_announce published c r =
      if ltb 0 (len c) then set_catalog (reconnected c) r else request_bundles published r

  unfoldable pub handle_bus_events : Answers → Relay → Outcome Relay
  unfolding set_subscriptions request_bundles
  handle_bus_events o r = do
    r' ← announce_connected o r.announcer (record r { conn = true })
    r'' ← required (set_subscriptions o r')
    ok (load_or_announce o.published (catalog_of r''.announcer r''.catalog) r'')

  -- A timer's callback, `armed` until it runs.
  unfoldable pub scheduled_bundle_refresh : Bool → Relay → Relay
  unfolding request_bundles
  scheduled_bundle_refresh published r =
      let requested = request_bundles published (record r { bundle_timer = idle }) in
      if published then requested else record requested { bundle_timer = armed }

  -- The callback of an armed timer that `bundle_timer` does not point to any more.
  unfoldable pub orphan_bundle_refresh : Bool → Relay → Relay
  unfolding request_bundles
  orphan_bundle_refresh published r =
      let requested = request_bundles published r in
      if published then requested else record requested { bundle_timer = armed }

  -- The clean-up itself is Engines.clean.
  unfoldable pub scheduled_docker_cleanup : Relay → Relay
  scheduled_docker_cleanup r = record r { clean_timer = armed }

  -- A call on a nil announcer panics.
  abbrev pub request_announcement : Option Announcer → Outcome (Option Announcer)
  request_announcement none = panic
  request_announcement (some a) = ok (some (send_announcement_request a))

  abbrev pub after_update : Catalog × Bool → Relay → Outcome Relay
  after_update (c, announces) r = do
    let r' = set_catalog c r
    a ← (if announces then request_announcement r'.announcer else ok r'.announcer)
    ok (record r' { announcer = a; bundle_timer = armed })

  -- `err` is a payload that is no directive.
  unfoldable pub handle_directive :
      (Text → Text → Bool) → Outcome ListBundlesResponseEnvelope → Relay → Outcome Relay
  handle_directive image_available (ok envelope) r = do
    updated ←
        update_catalog s.docker_enabled s.native_enabled image_available envelope
          (catalog_of r.announcer r.catalog)
    after_update updated r
  handle_directive image_available (err e) r = ok r
  handle_directive image_available panic r = panic

  unfoldable pub handle_command : Text → Text → Relay → Relay
  handle_command topic message r = record r { queue = (topic, message) ∷ r.queue }

  unfoldable pub init_docker : Outcome (Unit {0}) → Outcome (Unit {0})
  init_docker inited =
      if s.docker_enabled
      then (do engine ← get_engine s.docker_enabled s.native_enabled docker_engine_type; inited)
      else ok tt

  -- The handlers that the connection called, each of them handle_bus_events.
  abbrev pub call_handlers : Answers → List (Unit {0}) → Relay → Outcome Relay
  call_handlers o [] r = ok r
  call_handlers o (h ∷ hs) r = do r' ← call_handlers o hs r; handle_bus_events o r'

  -- The log line reads the interval of the refreshes.
  abbrev pub with_clean_timer : Bool → Relay → Outcome Relay
  with_clean_timer false r = do _ ← s.refresh_duration; ok r
  with_clean_timer true r = do
    _ ← s.clean_duration
    _ ← s.refresh_duration
    ok (record r { clean_timer = armed })

  -- `none` when connecting takes more attempts than the fuel.
  abbrev pub when_connected :
      Answers → Option (MqttConnection (Unit {0})) → Relay → Outcome (Option Relay)
  when_connected o none r = ok none
  when_connected o (some c) r = do
    r' ← call_handlers o c.called r
    r'' ← with_clean_timer s.docker_enabled r'
    ok (some r'')
