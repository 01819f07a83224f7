-- ===== src/Oak.antt =====
-- The command oak: cmd/oak.
pub mod Context
pub mod Flags
pub mod Shell
pub mod Deploys
pub mod Commands
pub mod Sessions
pub mod Main
