-- ===== src/Server/Session.antt =====
-- managesieveserver/session.go: what the embedding application implements. The methods act on a state
-- of the application's own.
use go_managesieve.Common.{ℕ, Bool, true, false, List, Option, Bytes}
use go_managesieve.Wire.{ScriptInfo}
use go_managesieve.Server.Errors.{Failure}

-- A result, or the error that is not nil.
pub data Reply {ℓ} (A : Type ℓ) : Type ℓ where
  returns : A → Reply A
  fails : Failure → Reply A

abbrev pub succeeds {ℓ} : {A : Type ℓ} → Reply A → Bool
succeeds (returns a) = true
succeeds (fails e) = false

-- The outcome of an authentication, and whether the method called Conn.Hijack.
pub record AuthReply : Type 0 where
  pub hijack : Bool
  pub reply : Reply (Unit {0})

-- A line that an UnknownCommandHandler writes by Conn.OK or Conn.No.
pub data Response : Type 0 where
  says_ok : Bytes → Response
  says_no : Bytes → Response

-- The lines that the handler writes, and its two results.
pub record UnknownReply : Type 0 where
  pub responses : List Response
  pub handled : Bool
  pub close : Bool

pub record Session (S : Type 0) : Type 0 where
  pub authenticate_plain : Bytes → Bytes → Bytes → S → AuthReply × S
  pub login : Option (Bytes → Bytes → S → AuthReply × S)
  pub list_scripts : S → Reply (List ScriptInfo) × S
  pub get_script : Bytes → S → Reply Bytes × S
  pub put_script : Bytes → Bytes → S → Reply Bool × S
  pub put_script_warnings : Option (Bytes → Bytes → S → Reply (Bool × Bytes) × S)
  pub check_script : Bytes → S → Reply Bytes × S
  pub set_active : Bytes → S → Reply (Unit {0}) × S
  pub delete_script : Bytes → S → Reply (Unit {0}) × S
  pub rename_script : Bytes → Bytes → S → Reply (Unit {0}) × S
  pub have_space : Bytes → ℕ → S → Reply (Unit {0}) × S
  pub unknown_command : Option (Bytes → List Bytes → S → UnknownReply × S)
