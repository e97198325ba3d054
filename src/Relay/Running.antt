-- ===== src/Relay/Running.antt =====
-- A relay that starts gets to work, and what a stop stops.
use go_relay.Base.{
  ℕ, ◌<◌, ◌≡◌, refl, ap, Bool, true, false, Option, none, some, List, [], ◌∷◌, Text, Outcome, ok,
  ◌>>=◌, length, All, if◌then◌else◌,
}
use go_relay.Announcer.{Announcer, Timer, unset, armed, idle, waiting, new_announcer, stop_timer}
use go_relay.Announcer as Announcer
use go_relay.Bus.Mqtt.{ClientOptions, MqttConnection, client_options}
use go_relay.Bus.Mqtt.Connects.{FailsThenSucceeds, connect_lem}
use go_relay.Catalog.{new_catalog, len}
use go_relay.Relay.Session.{
  Settings, Relay, Answers, new_relay, directives_topic, commands_topic, announcer_topic,
  relay_conn_opts, handle_bus_events, set_subscriptions, start_updater, init_docker, when_connected,
  with_clean_timer, make_conn_opts, request_bundles,
}
use go_relay.Relay.Lifecycle.{Starting, unconnected, start}
use go_relay.Updater.Session.{DynamicConfigUpdater, new_dynamic_config_updater}
use go_relay.Updater.Session as Updater

-- The bus answers every subscription and every publish, and the updater's connection is made before
-- it asks for its first configurations.
pub record IsServed (o : Answers) : Type 0 where
  pub subscribes : (topic : Text) → o.subscribed topic ≡ ok tt
  pub publishes : o.published ≡ true
  pub connects : o.updater_connected ≡ ok tt
  pub has_event : o.updater_event ≡ true
  pub publishes_first : o.updater_published ≡ true

-- The intervals of the timers that are used are durations.
pub record IsTimed (s : Settings) : Type 0 where
  pub refreshes : (d : ℕ) × (s.refresh_duration ≡ ok d)
  pub dynamic_configs :
      s.managed_dynamic_config ≡ true → (d : ℕ) × (s.dynamic_config_duration ≡ ok d)
  pub cleans : s.docker_enabled ≡ true → (d : ℕ) × (s.clean_duration ≡ ok d)

-- The relay's updater when it is on.
abbrev pub updater_of : Settings → Answers → Bool → Option DynamicConfigUpdater
updater_of s o false = none
updater_of s o true = some (record (new_dynamic_config_updater s.id s.dynamic_config_root o.disk) {
  conn = true;
  refresh_timer = some true;
  requests = Updater.request_of (new_dynamic_config_updater s.id s.dynamic_config_root o.disk) ∷ [];
})

abbrev announcing : Settings → Relay
announcing s = record (new_relay new_catalog) {
  conn = true;
  announcer =
      some (record (new_announcer s.id new_catalog) { state = waiting; loop = Announcer.ready });
  subscriptions = announcer_topic s ∷ [];
}

-- A relay with an empty catalog after its first connection.
abbrev pub first_connected : Settings → Answers → Relay
first_connected s o = record (new_relay new_catalog) {
  conn = true;
  announcer =
      some (record (new_announcer s.id new_catalog) { state = waiting; loop = Announcer.ready });
  updater = updater_of s o s.managed_dynamic_config;
  subscriptions = commands_topic s ∷ directives_topic s ∷ announcer_topic s ∷ [];
  requests = record { relay_id = s.id; reply_to = directives_topic s } ∷ [];
}

started_updater :
    (s : Settings) (o : Answers) (managed : Bool) (r : Relay)
    → IsServed o
    → IsTimed s
    → (managed ≡ true → s.managed_dynamic_config ≡ true)
    → r.updater ≡ none
    → start_updater s o managed r ≡ ok (record r { updater = updater_of s o managed })
unfolding Updater.run Updater.refresh_configs new_dynamic_config_updater
started_updater s o false r v t on e = ap (λ u. ok (record r { updater = u })) e
started_updater s o true r v t on e =
    rw ((t.dynamic_configs (on refl)).1, v.connects) (rw (v.has_event, v.publishes_first))

subscriptions_lem :
    (s : Settings) (o : Answers) (r : Relay)
    → IsServed o
    → set_subscriptions s o r
      ≡ ok (record r { subscriptions = commands_topic s ∷ directives_topic s ∷ r.subscriptions })
unfolding set_subscriptions
subscriptions_lem s o r v = rw (v.subscribes (directives_topic s), v.subscribes (commands_topic s))

first_connection :
    (s : Settings) (o : Answers)
    → IsServed o
    → IsTimed s
    → handle_bus_events s o (new_relay new_catalog) ≡ ok (first_connected s o)
unfolding handle_bus_events new_relay Announcer.run request_bundles new_announcer new_catalog len
first_connection s o v t =
    rw
      (
        v.subscribes (announcer_topic s),
        started_updater s o s.managed_dynamic_config (announcing s) v t (λ h. h) refl,
        subscriptions_lem s o
            (record (announcing s) { updater = updater_of s o s.managed_dynamic_config }) v,
      )
      (rw v.publishes)

connected_lem :
    (s : Settings) (o : Answers) (c : MqttConnection (Unit {0}))
    → IsServed o
    → IsTimed s
    → c.called ≡ tt ∷ []
    → when_connected s o (some c) (new_relay new_catalog)
      ≡ ok (
          some (record (first_connected s o) {
            clean_timer = if s.docker_enabled then armed else unset;
          }))
connected_lem s o c v t e = rw (e, first_connection s o v t) (by_docker s.docker_enabled (λ h. h))
  where
    by_docker :
        (docker : Bool)
        → (docker ≡ true → s.docker_enabled ≡ true)
        → (with_clean_timer s docker (first_connected s o) >>= (λ r. ok (some r)))
          ≡ ok (
              some (record (first_connected s o) { clean_timer = if docker then armed else unset }))
    by_docker true on = rw ((t.cleans (on refl)).1, t.refreshes.1) refl
    by_docker false on = rw (t.refreshes.1) (unfold new_relay in refl)

-- Where Docker is ready if it is on, the TLS files are good, the intervals of the timers in
-- use are durations, the bus answers and the updater's connection event has come by the time that its
-- Connect returns (Updater.Session.run_panics is about the other case), a relay with an empty catalog
-- starts as soon as an attempt to connect succeeds, however many fail before: it has
-- subscribed to the announcer's receipts, its directives and its commands, in this order, has asked
-- for its bundles once, its announcer waits for commands, its updater runs if it is on, and the
-- clean-up timer is armed exactly if Docker is on.
pub start_lem :
    {R : Type 0} (s : Settings) (read_file : Text → Outcome Text) (append_certs : Text → Option R)
    (encode : Text → Text) (o : Starting) (client : ClientOptions R) (jitters : List ℕ) (fuel : ℕ)
    → IsServed o.answers
    → IsTimed s
    → init_docker s o.docker_init ≡ ok tt
    → client_options read_file append_certs encode o.client_id (relay_conn_opts s) ≡ ok client
    → FailsThenSucceeds o.attempts 0 jitters
    → All (λ j. j < 4) jitters
    → length jitters < fuel
    → start s read_file append_certs encode o fuel (new_relay new_catalog)
      ≡ ok (
          some (record (first_connected s o.answers) {
            clean_timer = if s.docker_enabled then armed else unset;
          }))
unfolding start relay_conn_opts make_conn_opts
start_lem s read_file append_certs encode o client jitters fuel v t d a f j l =
    let (ws, e, w, n) =
      connect_lem read_file append_certs encode o.client_id (relay_conn_opts s) client
        (unconnected s) o.attempts jitters fuel a f j l in
    rw (d, e)
      (connected_lem s o.answers
        (record {
          options = relay_conn_opts s;
          conn = true;
          backoff = some 0;
          waited = ws;
          called = tt ∷ [];
        })
        v t refl)
