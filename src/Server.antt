-- ===== src/Server.antt =====
-- managesieveserver: the server of the protocol.
pub mod Parser
pub mod Reader
pub mod Errors
pub mod Options
pub mod Session
pub mod Conn
pub mod Shutdown
pub mod Listener
