-- ===== src/Worker.antt =====
-- relay/worker: executing commands and reading their output.
pub mod Output
pub mod Commands
pub mod Loop
