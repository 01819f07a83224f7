-- ===== src/Cli.antt =====
-- The client of the HTTP API: internal/cli.
pub mod Lines
pub mod Args
pub mod Stream
pub mod Transport
pub mod Calls
pub mod Ssh
