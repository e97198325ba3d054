-- ===== src/Config.antt =====
-- relay/config: Relay's configuration and the bundle configurations that Cog sends.
pub mod Bundle
pub mod Infos
pub mod Loading
pub mod Settings
pub mod Durations
pub mod DynamicConfig
