-- ===== src/Bus/Mqtt/Tests.antt =====
-- A connection that fails twice before it is made.
use go_relay.Base.{
  ℕ, zero, suc, ◌≡◌, refl, true, false, not, ◌&&◌, Option, none, some, List, [], ◌∷◌, Text, lit,
  text_eq, has_prefix, Outcome, ok, err, All, length, arith,
}
use go_relay.Bus.Backoff.{next_interval, new_backoff, reset}
use go_relay.Bus.Backoff.Waits.{IsWait}
use go_relay.Bus.Connection.{ConnectionOptions}
use go_relay.Bus.Mqtt.{
  ClientOptions, MqttConnection, is_set, build_mqtt_options, will_of, connect, client_options,
  mqtt_handler, publish, connect_loop,
}
use go_relay.Bus.Mqtt.Connects.{connect_lem}
use go_relay.Bus.Mqtt.Secured.{verifies, heard, meant, client_options_secured, mqtt_handler-publish}

abbrev handler : ℕ
handler = 7

abbrev options : ConnectionOptions ℕ
options = record {
  userid = lit "r1";
  password = lit "pw";
  host = lit "cog";
  port = 1883;
  ssl_enabled = true;
  ssl_cert_path = lit "/cert";
  events_handler = some handler;
  auto_reconnect = false;
  on_disconnect = some (record { topic = lit "t"; body = lit "bye" });
}

abbrev read_file : Text → Outcome Text
read_file path = ok (lit "PEM")

abbrev append_certs : Text → Option Text
append_certs pem = some pem

abbrev encode : Text → Text
encode payload = 0 ∷ payload

abbrev decode : Text → Outcome Text
decode [] = err (lit "snappy: corrupt input")
decode (b ∷ payload) = ok payload

abbrev client : ClientOptions Text
client = record (build_mqtt_options (lit "id") options) {
  tls_config = some (record { insecure_skip_verify = false; root_cas = some (lit "PEM") });
  will = will_of encode options.on_disconnect;
}

abbrev attempts : ℕ → Option ℕ
attempts zero = some 1
attempts (suc zero) = some 3
attempts (suc (suc n)) = none

abbrev fresh : MqttConnection ℕ
fresh = record { options = options; conn = false; backoff = none; waited = []; called = [] }

two_waits :
    connect read_file append_certs encode (lit "id") options attempts 3 fresh
    ≡ ok (
      client,
      some (record {
        options = options;
        conn = true;
        backoff = some 0;
        waited = 6 ∷ 8 ∷ [];
        called = 7 ∷ [];
      }),
    )
unfolding connect client_options connect_loop text_eq build_mqtt_options next_interval new_backoff
    reset
two_waits = refl

secured_client :
    (is_set client.tls_config ≡ true)
    × (verifies client.tls_config ≡ (true && not (text_eq (lit "/cert") [])))
    × (has_prefix client.broker (lit "ssl://") ≡ true)
unfolding text_eq build_mqtt_options
secured_client =
    client_options_secured read_file append_certs encode (lit "id") options client
      (unfold client_options in refl)

round_trip :
    (mqtt_handler decode (publish encode (lit "t") (lit "hi")) ≡ some (lit "t", lit "hi"))
    × (heard decode client.will ≡ meant options.on_disconnect)
unfolding text_eq build_mqtt_options
round_trip =
    mqtt_handler-publish encode decode (λ payload. refl) read_file append_certs (lit "id") options
      client (lit "t") (lit "hi") (unfold client_options in refl)

connect_lem_example :
    (ws : List ℕ) × (connect read_file append_certs encode (lit "id") options attempts 3 fresh
      ≡ ok (
        client,
        some (record {
          options = options;
          conn = true;
          backoff = some 0;
          waited = ws;
          called = 7 ∷ [];
        }),
      ))
    × All IsWait ws
    × (length ws ≡ 2)
unfolding text_eq build_mqtt_options
connect_lem_example =
    connect_lem read_file append_certs encode (lit "id") options client fresh attempts (1 ∷ 3 ∷ [])
      3 (unfold client_options in refl) (refl, (refl, refl)) (omega arith, (omega arith, tt))
      (omega arith)
