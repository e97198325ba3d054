-- ===== src/Relay/Lifecycle.antt =====
-- relay/relay.go: the start of the relay and its stop.
use go_relay.Base.{ℕ, Bool, true, false, Option, none, some, [], Text, Outcome, ok, ◌>>=◌}
use go_relay.Announcer.{Announcer, Timer, unset, armed, idle, halt, has_room, stop_timer}
use go_relay.Bus.Mqtt.{MqttConnection, connect}
use go_relay.Updater.Session.{DynamicConfigUpdater, new_dynamic_config_updater}
use go_relay.Updater.Session as Updater
use go_relay.Relay.Session.{
  Settings, Relay, make_conn_opts, relay_conn_opts, Answers, handle_bus_events, init_docker,
  when_connected,
}

-- What the surroundings answer at the start.
pub record Starting : Type 0 where
  pub docker_init : Outcome (Unit {0})
  pub client_id : Text
  pub attempts : ℕ → Option ℕ
  pub answers : Answers

abbrev pub unconnected : Settings → MqttConnection (Unit {0})
unconnected s = record {
  options = make_conn_opts s;
  conn = false;
  backoff = none;
  waited = [];
  called = [];
}

module _ {R : Type 0} (s : Settings) (read_file : Text → Outcome Text)
    (append_certs : Text → Option R) (encode : Text → Text) where
  unfoldable pub start : Starting → ℕ → Relay → Outcome (Option Relay)
  unfolding init_docker handle_bus_events relay_conn_opts
  start o fuel r = do
    _ ← init_docker s o.docker_init
    (client, connected) ←
        connect read_file append_certs encode o.client_id (relay_conn_opts s) o.attempts fuel
          (unconnected s)
    when_connected s o.answers connected r

abbrev pub stop_unless_nil : Timer → Timer
stop_unless_nil unset = unset
stop_unless_nil armed = idle
stop_unless_nil idle = idle

-- The timers that Stop stops: a nil bundle timer keeps both as they are, and a nil clean timer panics
-- where the bundle timer is not nil.
abbrev pub stop_clean_timer : Bool → Timer → Timer → Outcome Timer
stop_clean_timer false bundle_timer clean_timer = ok clean_timer
stop_clean_timer true unset clean_timer = ok clean_timer
stop_clean_timer true armed clean_timer = stop_timer clean_timer
stop_clean_timer true idle clean_timer = stop_timer clean_timer

abbrev pub halt_announcer : Option Announcer → Option Announcer
halt_announcer none = none
halt_announcer (some a) = some (halt a)

abbrev pub halt_updater : Option DynamicConfigUpdater → Outcome (Option DynamicConfigUpdater)
halt_updater none = ok none
halt_updater (some u) = do u' ← Updater.halt u; ok (some u')

abbrev pub is_open : Option Announcer → Bool
is_open none = true
is_open (some a) = has_room a

-- A stop that blocks in the announcer's Halt does not come to the updater's.
abbrev pub halt_behind : Bool → Option DynamicConfigUpdater → Outcome (Option DynamicConfigUpdater)
halt_behind true o = halt_updater o
halt_behind false o = ok o

unfoldable pub stop : Settings → Relay → Outcome Relay
stop s r = do
  clean_timer ← stop_clean_timer s.docker_enabled r.bundle_timer r.clean_timer
  updater ← halt_behind (is_open r.announcer) r.updater
  ok (record r {
    bundle_timer = stop_unless_nil r.bundle_timer;
    clean_timer = clean_timer;
    announcer = halt_announcer r.announcer;
    updater = updater;
  })
