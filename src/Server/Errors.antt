-- ===== src/Server/Errors.antt =====
-- managesieveserver/errors.go, and Go's error values as the server looks at them.
use go_managesieve.Common.{
  ℕ, Bool, false, ◌||◌, [], ◌∷◌, ◌++◌, Option, none, some, Bytes, codes, ◌==◌, if◌then◌else◌,
}
use go_managesieve.Text.Utf8.{to_upper}
use go_managesieve.Wire.{quote, sanitize_text}

-- A session error with control over its response.
pub record Error : Type 0 where
  pub code : Bytes
  pub message : Bytes
  pub close : Bool

unfoldable pub strip_crlf : Bytes → Bytes
strip_crlf [] = []
strip_crlf (c ∷ s) = (if c == b'\r' || c == b'\n' then [] else c ∷ []) ++ strip_crlf s

abbrev message_of : Bytes → Bytes
message_of [] = codes "internal error"
message_of (c ∷ s) = c ∷ s

abbrev coded : (ℕ → ℕ) → Bytes → Bytes → Bytes
coded upper_rune [] msg = strip_crlf msg
coded upper_rune (c ∷ s) msg =
    codes "(" ++ (to_upper upper_rune (c ∷ s) ++ (codes ") " ++ quote (sanitize_text msg)))

-- The text behind "NO ".
unfoldable pub wire_message : (ℕ → ℕ) → Error → Bytes
wire_message upper_rune e = coded upper_rune e.code (message_of e.message)

-- An error value: its text, the *Error that errors.As finds, and whether errors.Is finds
-- ErrCloseConnection or ErrSilentReject.
pub record Failure : Type 0 where
  pub text : Bytes
  pub as_error : Option Error
  pub is_close : Bool
  pub is_silent : Bool

-- An *Error as an error value.
abbrev pub failure : (ℕ → ℕ) → Error → Failure
failure upper_rune e = record {
  text = wire_message upper_rune e;
  as_error = some e;
  is_close = false;
  is_silent = false;
}

-- An error that is nothing but its text.
abbrev pub plain_failure : Bytes → Failure
plain_failure text = record { text = text; as_error = none; is_close = false; is_silent = false }
