-- ===== src/Wire.antt =====
-- managesieve/managesieve.go and managesieve/extensions.go: the wire types and helpers that the
-- server and the client share.
pub mod Framing
pub mod Names
pub mod Extensions
use go_managesieve.Common.{
  ℕ, Bool, true, false, not, ◌&&◌, ◌||◌, List, [], ◌∷◌, ◌++◌, Option, none, some, Bytes, codes, ltb,
  ◌==◌, within, if◌then◌else◌,
}
use go_managesieve.Text.Utf8.{Decoded, runes, all_runes, valid_string, map_runes}
use go_managesieve.Text.Search.{replace_all}

-- One script of a LISTSCRIPTS response.
pub record ScriptInfo : Type 0 where
  pub name : Bytes
  pub active : Bool

-- One additional capability line.
pub record Capability : Type 0 where
  pub name : Bytes
  pub value : Bytes
  pub has_value : Bool

-- Backslashes are doubled first, then quotes are escaped.
unfoldable pub escape : Bytes → Bytes
unfolding replace_all
escape s = replace_all b'"' (b'\\' ∷ b'"' ∷ []) (replace_all b'\\' (b'\\' ∷ b'\\' ∷ []) s)

unfoldable pub quote : Bytes → Bytes
unfolding escape
quote s = b'"' ∷ (escape s ++ b'"' ∷ [])

abbrev pub sanitize_rune : ℕ → ℕ
sanitize_rune r = if ltb r 0x20 || r == 0x7F then 0x20 else r

unfoldable pub sanitize_text : Bytes → Bytes
unfolding map_runes
sanitize_text s = map_runes sanitize_rune s

-- The runes that a script name may not hold.
abbrev pub is_control : ℕ → Bool
is_control r = ltb r 0x20 || (r == 0x7F || within 0x80 0x9F r)

abbrev pub empty_name : Bytes
empty_name = codes "script name cannot be empty"

abbrev pub not_utf8 : Bytes
not_utf8 = codes "script name must be valid UTF-8"

abbrev pub control_characters : Bytes
control_characters = codes "script name must not contain control characters"

-- `none` is Go's nil; `some` holds the text of the error.
unfoldable pub validate_script_name : Bytes → Option Bytes
validate_script_name [] = some empty_name
validate_script_name (c ∷ s) =
    if not (valid_string (c ∷ s))
    then some not_utf8
    else if all_runes (λ d. not (is_control d.rune)) (runes (c ∷ s))
    then none
    else some control_characters
