-- ===== src/Store.antt =====
-- managesievemem/store.go: the session over a store in memory.
pub mod Scripts
pub mod Lookup
pub mod Shape
pub mod Operations
pub mod Contract
pub mod Renaming
pub mod Outcomes
pub mod Memory
