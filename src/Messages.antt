-- ===== src/Messages.antt =====
-- relay/messages: what Relay and Cog send each other.
pub mod Directives
pub mod Value
pub mod Execution
pub mod EnvBuilder
pub mod Wire
