-- ===== src/Server/Options.antt =====
-- managesieveserver/options.go: the options that the connection reads, with their defaults filled in.
-- A limit that the code tests by `> 0` is a number, where 0 stands for no limit.
pub mod Defaults
use go_managesieve.Common.{ℕ, Bool, List, Bytes}
use go_managesieve.Wire.{Capability}

pub record Options : Type 0 where
  pub tls_config : Bool
  pub implementation : Bytes
  pub greeting : Bytes
  pub greeting_start_tls_hint : Bool
  pub sieve_extensions : List Bytes
  pub extra_capabilities : List Capability
  pub max_script_size : ℕ
  pub max_line_length : ℕ
  pub max_auth_literal : ℕ
  pub insecure_auth : Bool
  pub max_errors : ℕ
  pub auth_failures_exempt : Bool
  pub error_delay : ℕ
  pub max_error_delay : ℕ
  pub strict_session_errors : Bool
  pub absolute_session_timeout : Bool
