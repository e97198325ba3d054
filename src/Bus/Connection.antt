-- ===== src/Bus/Connection.antt =====
-- relay/bus/connection.go. `H` is the type of event handlers, `none` a nil one.
use go_relay.Base.{ℕ, Bool, Option, Text}

pub record DisconnectMessage : Type 0 where
  pub topic : Text
  pub body : Text

pub record ConnectionOptions (H : Type 0) : Type 0 where
  pub userid : Text
  pub password : Text
  pub host : Text
  pub port : ℕ
  pub ssl_enabled : Bool
  pub ssl_cert_path : Text
  pub events_handler : Option H
  pub auto_reconnect : Bool
  pub on_disconnect : Option DisconnectMessage
