-- ===== src/Examples/Parsing.antt =====
-- managesieveserver/parser_test.go.
use go_managesieve.Common.{ℕ, ◌≡◌, ◌≢◌, refl, true, false, some, [], ◌∷◌, ◌++◌, codes, arith}
use go_managesieve.Text.Utf8.{
  decode_rune, runes_after, runes, is_ascii, map_bytes, upper_ascii, to_upper,
}
use go_managesieve.Text.Search.{has_prefix, has_suffix, trim_prefix, trim_suffix, split_once}
use go_managesieve.Text.Space.{trim_space}
use go_managesieve.Wire.{quote, escape}
use go_managesieve.Server.Parser.{
  command, tokens, unclosed_quote, out_of_fuel, parse_tokens, parse_line, unquote_string,
  closing_quote, literal, bad_literal, not_literal, literal_length, parse_int64, number, too_large,
}
use go_managesieve.Server.Parser.Quoting.{unquote_string-quote, closing_quote-escape}
use go_managesieve.Server.Parser.Numbers.{
  accepted, in_int64, decimal_value, parse_int64-decimal_value, marker, literal_length-marker,
}
use go_managesieve.Server.Parser.Requests.{request, quoted, parse_line-request}
use go_managesieve.Server.Parser.Fuel.{parse_tokens-ne-out_of_fuel}

-- unicode.ToUpper is not needed on ASCII text.
abbrev same : ℕ → ℕ
same r = r

put_line :
    parse_line same (codes "putscript \"my \\\"x\\\"\" {12+}")
    ≡ command (codes "PUTSCRIPT") (tokens (codes "\"my \\\"x\\\"\"" ∷ codes "{12+}" ∷ []))
unfolding parse_line parse_tokens trim_space split_once to_upper is_ascii map_bytes
put_line = refl

open_quote : parse_tokens (codes "\"abc") ≡ unclosed_quote
unfolding parse_tokens
open_quote = refl

trailing_backslash : unquote_string (codes "\"ab\\\"") ≡ codes "ab"
unfolding unquote_string
trailing_backslash = refl

markers :
    (literal_length (codes "{12+}") ≡ literal 12 true)
    × (literal_length (codes "{12}") ≡ literal 12 false)
    × (literal_length (codes "{x+}") ≡ bad_literal true)
    × (literal_length (codes "12") ≡ not_literal)
unfolding literal_length has_prefix has_suffix trim_prefix trim_suffix parse_int64 runes runes_after
    decode_rune
markers = (refl, refl, refl, refl)

overflow :
    (parse_int64 (codes "9223372036854775807") ≡ number 9223372036854775807)
    × (parse_int64 (codes "9223372036854775808") ≡ too_large)
unfolding parse_int64 runes runes_after decode_rune
overflow = (refl, refl)

parse_line-request_example :
    parse_line same (request (codes "getscript") (codes "a \"b\"" ∷ []))
    ≡ command (map_bytes upper_ascii (codes "getscript")) (tokens (quoted (codes "a \"b\"" ∷ [])))
parse_line-request_example =
    parse_line-request same b'g' (codes "etscript") (codes "a \"b\"" ∷ []) (ground arith)

unquote_string-quote_example : unquote_string (quote (codes "a\\\"")) ≡ codes "a\\\""
unquote_string-quote_example = unquote_string-quote (codes "a\\\"")

closing_quote-escape_example :
    closing_quote false (escape (codes "a\"") ++ b'"' ∷ codes " b")
    ≡ some (escape (codes "a\"") ++ b'"' ∷ [], codes " b")
closing_quote-escape_example = closing_quote-escape (codes "a\"") (codes " b")

parse_int64-decimal_value_example :
    accepted (parse_int64 (codes "0042")) ≡ in_int64 (decimal_value (codes "0042"))
parse_int64-decimal_value_example = parse_int64-decimal_value (codes "0042")

literal_length-marker_example : literal_length (marker 4096 true) ≡ literal 4096 true
literal_length-marker_example = literal_length-marker 4096 true (omega arith)

parse_tokens-ne-out_of_fuel_example : parse_tokens (codes "a \"b\" c") ≢ out_of_fuel
parse_tokens-ne-out_of_fuel_example = parse_tokens-ne-out_of_fuel (codes "a \"b\" c")
