-- ===== src/Server/Conn.antt =====
-- managesieveserver/conn.go: the state of a connection, its handlers, and the command loop.
pub mod Deadlines
pub mod State
pub mod Quiet
pub mod Capabilities
pub mod Literals
pub mod Auth
pub mod Scripts
pub mod Dispatch
pub mod Serve
pub mod Protocol
pub mod Refinement
pub mod Guard
pub mod Termination
pub mod Enforcement
pub mod Responses
pub mod Answers
pub mod Rejections
pub mod Limits
pub mod Accept
