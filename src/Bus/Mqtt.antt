-- ===== src/Bus/Mqtt.antt =====
-- relay/bus/mqtt.go. The MQTT client is what its attempts to connect come to; snappy, the certificate
-- parser and the file reader are parameters.
pub mod Connects
pub mod Secured
mod Tests
use go_relay.Base.{
  ℕ, zero, suc, Bool, true, false, not, ◌&&◌, Option, none, some, List, [], ◌∷◌, ◌++◌, Text, lit,
  text_eq, show_nat, Outcome, ok, err, panic, ◌>>=◌, if◌then◌else◌,
}
use mathlib.Core.Option
use go_relay.Bus.Backoff.{new_backoff, reset, next_interval}
use go_relay.Bus.Connection.{DisconnectMessage, ConnectionOptions}

-- tls.Config, with certificates in `R`.
pub record TlsConfig (R : Type 0) : Type 0 where
  pub insecure_skip_verify : Bool
  pub root_cas : Option R

-- A message of the MQTT client; its payload is compressed.
pub record Message : Type 0 where
  pub topic : Text
  pub qos : ℕ
  pub retained : Bool
  pub payload : Text

-- What the program sets of mqtt.ClientOptions; `on_connect` and `lost_handler` tell whether its
-- callbacks are set.
pub record ClientOptions (R : Type 0) : Type 0 where
  pub auto_reconnect : Bool
  pub keep_alive : ℕ
  pub ping_timeout : ℕ
  pub username : Text
  pub password : Text
  pub client_id : Text
  pub clean_session : Bool
  pub broker : Text
  pub lost_handler : Bool
  pub tls_config : Option (TlsConfig R)
  pub will : Option Message
  pub on_connect : Bool

unfoldable pub broker_url : {H : Type 0} → ConnectionOptions H → Text
broker_url options =
    let prefix = if options.ssl_enabled then lit "ssl" else lit "tcp" in
    prefix ++ (lit "://" ++ (options.host ++ (lit ":" ++ show_nat options.port)))

abbrev pub is_set {ℓ} : {A : Type ℓ} → Option A → Bool
is_set none = false
is_set (some a) = true

abbrev pub bad_tls_cert : Text
bad_tls_cert = lit "Bad TLS certificate"

-- The client identifier, a time in hexadecimal, is given.
unfoldable pub build_mqtt_options : {H R : Type 0} → Text → ConnectionOptions H → ClientOptions R
unfolding broker_url
build_mqtt_options client_id options = record {
  auto_reconnect = options.auto_reconnect;
  keep_alive = 60;
  ping_timeout = 15;
  username = options.userid;
  password = options.password;
  client_id = client_id;
  clean_session = true;
  broker = broker_url options;
  lost_handler = not options.auto_reconnect;
  tls_config = none;
  will = none;
  on_connect = false;
}

abbrev pub pool_of : {R : Type 0} → Option R → Outcome (Option (TlsConfig R))
pool_of none = err bad_tls_cert
pool_of (some roots) = ok (some (record { insecure_skip_verify = false; root_cas = some roots }))

module _ {H R : Type 0} (read_file : Text → Outcome Text) (append_certs : Text → Option R) where
  -- The TLS configuration that is set, if one is.
  unfoldable pub configure_ssl : ConnectionOptions H → Outcome (Option (TlsConfig R))
  configure_ssl options =
      if not options.ssl_enabled
      then ok none
      else (if text_eq options.ssl_cert_path []
          then ok (some (record { insecure_skip_verify = true; root_cas = none }))
          else (read_file options.ssl_cert_path >>= λ buf. pool_of (append_certs buf)))

module _ (encode : Text → Text) where
  abbrev pub message_of : Text → Text → Message
  message_of topic payload = record {
    topic = topic;
    qos = 1;
    retained = false;
    payload = encode payload;
  }

  abbrev pub will_of : Option DisconnectMessage → Option Message
  will_of none = none
  will_of (some m) = some (message_of m.topic m.body)

  -- The message that is handed to the client; its token's error is returned.
  unfoldable pub publish : Text → Text → Message
  publish topic payload = message_of topic payload

-- What Subscribe's handler passes on to the subscriber.
unfoldable pub mqtt_handler : (Text → Outcome Text) → Message → Option (Text × Text)
mqtt_handler decode message = elim (decode message.payload) [
  | ok payload ↦ some (message.topic, payload)
  | err e ↦ none
  | panic ↦ none
]

abbrev pub waited_too : ℕ → Option (List ℕ × ℕ) → Option (List ℕ × ℕ)
waited_too seconds none = none
waited_too seconds (some (ws, interval)) = some (seconds ∷ ws, interval)

-- `attempts i` is what the i-th attempt to connect comes to: `none` when it succeeds, and otherwise
-- the jitter of the wait that follows. The result is the seconds waited and the interval afterwards.
unfoldable pub connect_loop : (ℕ → Option ℕ) → ℕ → ℕ → ℕ → Outcome (Option (List ℕ × ℕ))
connect_loop attempts zero i interval = ok none
connect_loop attempts (suc fuel) i interval = elim (attempts i) [
  | none ↦ ok (some ([], reset interval))
  | some jitter ↦ (do
    (seconds, interval') ← next_interval jitter interval
    rest ← connect_loop attempts fuel (suc i) interval'
    ok (waited_too seconds rest))
]

-- `conn` tells whether there is a client and `backoff` is none for nil; `waited` and `called` record
-- the waits of the last loop and the handlers that were called with a ConnectedEvent, the last first.
pub record MqttConnection (H : Type 0) : Type 0 where
  pub options : ConnectionOptions H
  pub conn : Bool
  pub backoff : Option ℕ
  pub waited : List ℕ
  pub called : List H

abbrev pub call : {H : Type 0} → Option H → MqttConnection H → MqttConnection H
call none c = c
call (some handler) c = record c { called = handler ∷ c.called }

abbrev pub looped :
    {H : Type 0}
    → Outcome (Option (List ℕ × ℕ))
    → MqttConnection H
    → Outcome (Option (MqttConnection H))
looped (ok none) c = ok none
looped (ok (some (ws, interval))) c = ok (some (record c { backoff = some interval; waited = ws }))
looped (err e) c = err e
looped panic c = panic

module _ {H R : Type 0} (read_file : Text → Outcome Text) (append_certs : Text → Option R)
    (encode : Text → Text) where
  unfoldable pub client_options : Text → ConnectionOptions H → Outcome (ClientOptions R)
  unfolding configure_ssl
  client_options client_id options = do
    tls ← configure_ssl read_file append_certs options
    ok (record (build_mqtt_options client_id options) {
      tls_config = tls;
      will = will_of encode options.on_disconnect;
      on_connect = is_set options.events_handler && options.auto_reconnect;
    })

-- A handler is called at the end of Connect only where the client does not reconnect by itself.
abbrev pub call_connected : {H : Type 0} → ConnectionOptions H → MqttConnection H → MqttConnection H
call_connected options c = if not options.auto_reconnect then call options.events_handler c else c

module _ {H R : Type 0} (read_file : Text → Outcome Text) (append_certs : Text → Option R)
    (encode : Text → Text) where
  -- The client's options and the connection afterwards; none when the fuel is used up.
  unfoldable pub connect :
      Text
      → ConnectionOptions H
      → (ℕ → Option ℕ)
      → ℕ
      → MqttConnection H
      → Outcome (ClientOptions R × Option (MqttConnection H))
  unfolding client_options connect_loop
  connect client_id options attempts fuel c = do
    client ← client_options read_file append_certs encode client_id options
    done ←
        looped (connect_loop attempts fuel 0 new_backoff)
          (record c { conn = true; backoff = some new_backoff })
    ok (client, Option.map (λ c'. call_connected options (record c' { options = options })) done)

-- The client's callback where it reconnects by itself: calling a nil handler panics.
abbrev pub call_required : {H : Type 0} → Option H → MqttConnection H → Outcome (MqttConnection H)
call_required none c = panic
call_required (some handler) c = ok (call (some handler) c)

unfoldable pub on_connect : {H : Type 0} → MqttConnection H → Outcome (MqttConnection H)
on_connect c = call_required c.options.events_handler (record c { conn = true })

-- The callback on a lost connection where it does not; a nil backoff is read, at the latest, by its
-- reset.
abbrev pub reconnect :
    {H : Type 0}
    → Option ℕ
    → (ℕ → Option ℕ)
    → ℕ
    → MqttConnection H
    → Outcome (Option (MqttConnection H))
reconnect none attempts fuel c = panic
reconnect (some interval) attempts fuel c = looped (connect_loop attempts fuel 0 interval) c

unfoldable pub disconnected :
    {H : Type 0} → (ℕ → Option ℕ) → ℕ → MqttConnection H → Outcome (Option (MqttConnection H))
unfolding connect_loop
disconnected attempts fuel c = do
  done ← reconnect c.backoff attempts fuel c
  ok (Option.map (λ c'. call c'.options.events_handler c') done)
