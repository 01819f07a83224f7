-- ===== src/Session.antt =====
-- The two parts of an oak ssh session behind the HTTP API: dialVsock and readLine of
-- internal/daemon/ssh.go (Vsock), and handleSSHConn of cmd/oak-init/agent.go (Agent). The bytes of a
-- connection are a text, of which each part reads from the front;
-- Relay is what the bridge between them carries.
pub mod Vsock
pub mod Relay
pub mod Agent
pub mod Reaches
