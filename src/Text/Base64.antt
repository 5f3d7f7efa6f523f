-- ===== src/Text/Base64.antt =====
-- encoding/base64's StdEncoding: the decoder skips CR and LF, wants the padding, and does not look at
-- the bits behind the last byte.
pub mod RoundTrip
use go_managesieve.Common.{
  ℕ, ◌+◌, ◌-◌, ◌*◌, ◌/◌, ◌%◌, ◌&&◌, ◌||◌, [], ◌∷◌, ◌++◌, Option, none, some, Bytes, ltb, ◌==◌,
  within, if◌then◌else◌,
}

unfoldable pub sextet : ℕ → Option ℕ
sextet c =
    if within b'A' b'Z' c
    then some (c - b'A')
    else if within b'a' b'z' c
    then some (c - b'a' + 26)
    else if within b'0' b'9' c
    then some (c - b'0' + 52)
    else if c == b'+'
    then some 62
    else if c == b'/'
    then some 63
    else none

unfoldable pub letter : ℕ → ℕ
letter v =
    if ltb v 26
    then b'A' + v
    else if ltb v 52
    then b'a' + (v - 26)
    else if ltb v 62
    then b'0' + (v - 52)
    else if v == 62
    then b'+'
    else b'/'

unfoldable pub without_newlines : Bytes → Bytes
without_newlines [] = []
without_newlines (c ∷ s) = (if c == b'\r' || c == b'\n' then [] else c ∷ []) ++ without_newlines s

unfoldable pub one_byte : Option ℕ → Option ℕ → Option Bytes
one_byte (some a) (some b) = some ((a * 4 + b / 16) ∷ [])
one_byte _ _ = none

unfoldable pub two_bytes : Option ℕ → Option ℕ → Option ℕ → Option Bytes
two_bytes (some a) (some b) (some c) = some ((a * 4 + b / 16) ∷ (b % 16 * 16 + c / 4) ∷ [])
two_bytes _ _ _ = none

unfoldable pub three_bytes : Option ℕ → Option ℕ → Option ℕ → Option ℕ → Option Bytes → Option Bytes
three_bytes (some a) (some b) (some c) (some d) (some rest) =
    some ((a * 4 + b / 16) ∷ (b % 16 * 16 + c / 4) ∷ (c % 4 * 64 + d) ∷ rest)
three_bytes _ _ _ _ _ = none

-- The last group may be padded.
unfoldable pub decode_groups : Bytes → Option Bytes
decode_groups [] = some []
decode_groups (a ∷ b ∷ c ∷ d ∷ []) =
    if c == b'=' && d == b'='
    then one_byte (sextet a) (sextet b)
    else if d == b'='
    then two_bytes (sextet a) (sextet b) (sextet c)
    else three_bytes (sextet a) (sextet b) (sextet c) (sextet d) (some [])
decode_groups (a ∷ b ∷ c ∷ d ∷ e ∷ s) =
    three_bytes (sextet a) (sextet b) (sextet c) (sextet d) (decode_groups (e ∷ s))
decode_groups _ = none

unfoldable pub decode_base64 : Bytes → Option Bytes
decode_base64 s = decode_groups (without_newlines s)

unfoldable pub encode_base64 : Bytes → Bytes
encode_base64 [] = []
encode_base64 (x ∷ []) = letter (x / 4) ∷ letter (x % 4 * 16) ∷ b'=' ∷ b'=' ∷ []
encode_base64 (x ∷ y ∷ []) =
    letter (x / 4) ∷ letter (x % 4 * 16 + y / 16) ∷ letter (y % 16 * 4) ∷ b'=' ∷ []
encode_base64 (x ∷ y ∷ z ∷ s) =
    letter (x / 4)
    ∷ letter (x % 4 * 16 + y / 16)
    ∷ letter (y % 16 * 4 + z / 64)
    ∷ letter (z % 64)
    ∷ encode_base64 s
