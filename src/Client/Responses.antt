-- ===== src/Client/Responses.antt =====
-- What the client makes of one response line: isStatus, parseCapabilityLine, closingQuote and unquote
-- of managesieveclient/client.go.
use go_managesieve.Common.{
  ℕ, zero, suc, ◌+◌, ◌-◌, Bool, true, false, not, ◌||◌, [], ◌∷◌, ◌++◌, Option, none, some, Bytes,
  codes, bytes_eq, ltb, ◌==◌, if◌then◌else◌, length, take, drop,
}
use go_managesieve.Text.Space.{trim_space}
use go_managesieve.Text.Search.{has_prefix, split_once}

unfoldable pub is_status : Bytes → Bytes → Bool
unfolding has_prefix
is_status line code =
    bytes_eq line code
    || (has_prefix (code ++ codes " ") line
        || (has_prefix (code ++ codes "(") line || has_prefix (code ++ codes " (") line))

unfoldable pub is_ok : Bytes → Bool
unfolding is_status
is_ok line = is_status line (codes "OK")

-- `s[i]`, where the index is in range.
unfoldable pub byte_at : Bytes → ℕ → ℕ
byte_at [] i = 0
byte_at (c ∷ s) zero = c
byte_at (c ∷ s) (suc i) = byte_at s i

-- The loop of closingQuote from the index `i` on; the flag is `escaped`, and `none` is -1.
unfoldable pub closing_from : ℕ → Bool → Bytes → Option ℕ
closing_from i escaped [] = none
closing_from i true (c ∷ s) = closing_from (i + 1) false s
closing_from i false (c ∷ s) =
    let further = closing_from (i + 1) (c == b'\\') s in if c == b'"' then some i else further

-- The index of the closing quote of a text whose first byte is a quote.
unfoldable pub closing_index : Bytes → Option ℕ
unfolding closing_from
closing_index s = closing_from 1 false (drop 1 s)

-- The loop of unquote; the flag is `escaped`.
unfoldable pub unescape_loop : Bool → Bytes → Bytes
unescape_loop escaped [] = []
unescape_loop true (c ∷ s) = c ∷ unescape_loop false s
unescape_loop false (c ∷ s) =
    let rest = unescape_loop (c == b'\\') s in if c == b'\\' then rest else c ∷ rest

unfoldable pub unquote : Bytes → Bytes
unfolding byte_at unescape_loop
unquote s =
    if ltb (length s) 2 || (not (byte_at s 0 == b'"') || not (byte_at s (length s - 1) == b'"'))
    then s
    else unescape_loop false (take (length s - 2) (drop 1 s))

-- A name without quotes, which the client accepts as well.
unfoldable pub bare_capability : Bytes × Option Bytes → Bytes × Bytes
bare_capability (name, none) = (name, [])
bare_capability (name, some rest) = (name, unquote (trim_space rest))

unfoldable pub value_of : Bytes → Bytes
value_of [] = []
value_of (c ∷ rest) = unquote (c ∷ rest)

unfoldable pub quoted_capability : Bytes → Option ℕ → Bytes × Bytes
unfolding value_of
quoted_capability line none = ([], [])
quoted_capability line (some end) =
    (unquote (take (end + 1) line), value_of (trim_space (drop (end + 1) line)))

unfoldable pub capability_of : Bytes → Bytes × Bytes
unfolding bare_capability quoted_capability
capability_of [] = ([], [])
capability_of (c ∷ s) =
    if not (c == b'"')
    then bare_capability (split_once b' ' (c ∷ s))
    else quoted_capability (c ∷ s) (closing_index (c ∷ s))

unfoldable pub parse_capability_line : Bytes → Bytes × Bytes
unfolding capability_of
parse_capability_line line = capability_of (trim_space line)
