-- ===== src/Text.antt =====
-- What the program uses of Go's strings and unicode/utf8 packages, over byte lists.
pub mod Utf8
pub mod Space
pub mod Search
pub mod Decimal
pub mod Base64
