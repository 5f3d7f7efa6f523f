-- ===== src/Client.antt =====
-- managesieveclient/client.go: the client that a proxy runs against another server.
pub mod Responses
pub mod Lines
pub mod State
pub mod Operations
pub mod Capabilities
pub mod Blocks
pub mod Upgrade
pub mod Greeting
pub mod Login
pub mod Dialogue
pub mod Guard
