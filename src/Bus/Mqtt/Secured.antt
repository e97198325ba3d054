-- ===== src/Bus/Mqtt/Secured.antt =====
-- The TLS configuration of a connection, and what compression leaves of its messages.
use go_relay.Base.{
  ◌≡◌, refl, Bool, true, false, not, ◌&&◌, Option, none, some, [], ◌++◌, Text, lit, text_eq,
  has_prefix, Outcome, ok, err, panic, ◌>>=◌, Holds, Holds-bind, Holds-ok, if◌then◌else◌,
}
use go_relay.Bus.Connection.{DisconnectMessage, ConnectionOptions}
use go_relay.Bus.Mqtt.{
  TlsConfig, Message, ClientOptions, is_set, broker_url, build_mqtt_options, configure_ssl, pool_of,
  client_options, will_of, publish, mqtt_handler,
}

-- Whether the broker's certificate is checked, against certificates that were read.
abbrev pub verifies : {R : Type 0} → Option (TlsConfig R) → Bool
verifies none = false
verifies (some tls) = not tls.insecure_skip_verify && is_set tls.root_cas

IsSecured : {R : Type 0} → Bool → Bool → Option (TlsConfig R) → Type 0
IsSecured ssl bare tls = (is_set tls ≡ ssl) × (verifies tls ≡ (ssl && not bare))

pool_lem : {R : Type 0} (pool : Option R) → Holds (IsSecured true false) (pool_of pool)
unfolding IsSecured
pool_lem none = tt
pool_lem (some roots) = (refl, refl)

read_lem :
    {R : Type 0} (append_certs : Text → Option R) (file : Outcome Text)
    → Holds (IsSecured true false) (file >>= λ buf. pool_of (append_certs buf))
read_lem append_certs (ok buf) = pool_lem (append_certs buf)
read_lem append_certs (err e) = tt
read_lem append_certs panic = tt

ssl_lem :
    {R : Type 0} (append_certs : Text → Option R) (file : Outcome Text) (ssl bare : Bool)
    → Holds (IsSecured ssl bare) (
        if not ssl
        then ok none
        else (if bare
            then ok (some (record { insecure_skip_verify = true; root_cas = none }))
            else (file >>= λ buf. pool_of (append_certs buf))))
unfolding IsSecured
ssl_lem append_certs file false bare = (refl, refl)
ssl_lem append_certs file true true = (refl, refl)
ssl_lem append_certs file true false = read_lem append_certs file

scheme_lem :
    (ssl : Bool) (rest : Text)
    → has_prefix ((if ssl then lit "ssl" else lit "tcp") ++ (lit "://" ++ rest)) (lit "ssl://")
      ≡ ssl
unfolding has_prefix
scheme_lem true rest = refl
scheme_lem false rest = refl

module _ {H R : Type 0} (read_file : Text → Outcome Text) (append_certs : Text → Option R)
    (encode : Text → Text) where
  IsSecuredFor : ConnectionOptions H → ClientOptions R → Type 0
  IsSecuredFor options client =
      (is_set client.tls_config ≡ options.ssl_enabled)
      × (verifies client.tls_config
          ≡ (options.ssl_enabled && not (text_eq options.ssl_cert_path [])))
      × (has_prefix client.broker (lit "ssl://") ≡ options.ssl_enabled)

  -- The client's options that Connect makes have a TLS configuration, and an ssl:// broker, exactly
  -- if SSL is enabled, and it checks the broker's certificate exactly if a file of certificates is
  -- given besides.
  pub client_options_secured :
      (client_id : Text) (options : ConnectionOptions H) (client : ClientOptions R)
      → client_options read_file append_certs encode client_id options ≡ ok client
      → (is_set client.tls_config ≡ options.ssl_enabled)
        × (verifies client.tls_config
            ≡ (options.ssl_enabled && not (text_eq options.ssl_cert_path [])))
        × (has_prefix client.broker (lit "ssl://") ≡ options.ssl_enabled)
  unfolding client_options configure_ssl IsSecuredFor IsSecured build_mqtt_options broker_url
  client_options_secured client_id options client e =
      Holds-ok (IsSecuredFor options) _
        (Holds-bind (IsSecured options.ssl_enabled (text_eq options.ssl_cert_path []))
          (IsSecuredFor options) (configure_ssl read_file append_certs options) _
          (ssl_lem append_certs (read_file options.ssl_cert_path) options.ssl_enabled
            (text_eq options.ssl_cert_path []))
          (λ tls h. (h.0, h.1, scheme_lem options.ssl_enabled _)))
        e

-- What subscribers are given when the broker publishes the will of a client.
abbrev pub heard : (Text → Outcome Text) → Option Message → Option (Text × Text)
heard decode none = none
heard decode (some will) = mqtt_handler decode will

abbrev pub meant : Option DisconnectMessage → Option (Text × Text)
meant none = none
meant (some m) = some (m.topic, m.body)

trivially : {A : Type 0} (m : Outcome A) → Holds (λ a. Unit {0}) m
trivially (ok a) = tt
trivially (err e) = tt
trivially panic = tt

module _ (encode : Text → Text) (decode : Text → Outcome Text)
    (decodes : (payload : Text) → decode (encode payload) ≡ ok payload) where
  will_lem : (m : Option DisconnectMessage) → heard decode (will_of encode m) ≡ meant m
  unfolding mqtt_handler
  will_lem none = refl
  will_lem (some m) = rw (mqtt_handler, decodes m.body)

  -- With a decoder that undoes the encoder, the subscribers of a topic are given the payload that was
  -- published, and on the end of a connection the message that its options name, if they name one.
  pub mqtt_handler-publish :
      {H R : Type 0} (read_file : Text → Outcome Text) (append_certs : Text → Option R)
      (client_id : Text) (options : ConnectionOptions H) (client : ClientOptions R)
      (topic payload : Text)
      → client_options read_file append_certs encode client_id options ≡ ok client
      → (mqtt_handler decode (publish encode topic payload) ≡ some (topic, payload))
        × (heard decode client.will ≡ meant options.on_disconnect)
  unfolding mqtt_handler publish client_options
  mqtt_handler-publish read_file append_certs client_id options client topic payload e = (
    rw (mqtt_handler, decodes payload),
    Holds-ok (λ client. heard decode client.will ≡ meant options.on_disconnect) _
        (Holds-bind (λ tls. Unit {0})
          (λ client. heard decode client.will ≡ meant options.on_disconnect)
          (configure_ssl read_file append_certs options) _
          (trivially (configure_ssl read_file append_certs options))
          (λ tls u. will_lem options.on_disconnect))
        e,
  )
