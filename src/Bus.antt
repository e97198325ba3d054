-- ===== src/Bus.antt =====
-- relay/bus: the connection to Cog's message bus.
pub mod Backoff
pub mod Connection
pub mod Mqtt
