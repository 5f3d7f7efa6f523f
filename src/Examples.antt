-- ===== src/Examples.antt =====
-- Tests of the definitions on inputs of the repository's own tests, and the theorems at inputs that
-- meet their hypotheses.
mod Wire
mod Parsing
mod Reading
mod Conn
mod Store
mod Client
mod Shutdown
mod Accounts
