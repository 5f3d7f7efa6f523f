-- ===== src/Examples/Wire.antt =====
-- managesieve/managesieve_test.go and c1_test.go.
use go_managesieve.Common.{◌≡◌, refl, false, not, none, some, [], ◌∷◌, ◌++◌, codes, All}
use go_managesieve.Text.Utf8.{
  decode_rune, runes_after, runes, all_runes, valid_string, encode_rune, encode_mapped,
}
use go_managesieve.Wire.{
  quote, sanitize_text, validate_script_name, control_characters, not_utf8, empty_name,
}
use go_managesieve.Wire.Framing.{IsPlain, quote-sanitize_text-IsPlain}
use go_managesieve.Wire.Names.{sanitize_text-validated}
use go_managesieve.Wire.Extensions.{
  contains, filter_extensions, filter_extensions-kept, default_enabled_extensions,
  supported_extensions, kept,
}

quote_both : quote (codes "a\"b\\c") ≡ codes "\"a\\\"b\\\\c\""
unfolding quote
quote_both = refl

sanitize_crlf : sanitize_text (codes "line1\r\nline2") ≡ codes "line1  line2"
unfolding sanitize_text runes runes_after decode_rune encode_rune encode_mapped
sanitize_crlf = refl

-- A byte that starts no rune comes out as U+FFFD.
sanitize_invalid : sanitize_text (0xFF ∷ []) ≡ 0xEF ∷ 0xBF ∷ 0xBD ∷ []
unfolding sanitize_text runes runes_after decode_rune encode_rune encode_mapped
sanitize_invalid = refl

name_c1 : validate_script_name (codes "bad" ++ 0xC2 ∷ 0x85 ∷ codes "name") ≡ some control_characters
unfolding validate_script_name valid_string runes runes_after decode_rune all_runes
name_c1 = refl

name_nbsp : validate_script_name (codes "ok" ++ 0xC2 ∷ 0xA0 ∷ codes "name") ≡ none
unfolding validate_script_name valid_string runes runes_after decode_rune all_runes
name_nbsp = refl

name_invalid : validate_script_name (0xFF ∷ 0xFE ∷ []) ≡ some not_utf8
unfolding validate_script_name valid_string runes runes_after decode_rune all_runes
name_invalid = refl

name_empty : validate_script_name [] ≡ some empty_name
unfolding validate_script_name
name_empty = refl

defaults_supported : filter_extensions default_enabled_extensions ≡ (default_enabled_extensions, [])
unfolding filter_extensions
defaults_supported = refl

no_editheader : contains default_enabled_extensions (codes "editheader") ≡ false
unfolding contains
no_editheader = refl

quote-sanitize_text-IsPlain_example : All IsPlain (quote (sanitize_text (codes "a\r\nNO b")))
quote-sanitize_text-IsPlain_example = quote-sanitize_text-IsPlain (codes "a\r\nNO b")

sanitize_text-validated_example :
    sanitize_text (codes "ok" ++ 0xC2 ∷ 0xA0 ∷ codes "name")
    ≡ codes "ok" ++ 0xC2 ∷ 0xA0 ∷ codes "name"
sanitize_text-validated_example =
    sanitize_text-validated (codes "ok" ++ 0xC2 ∷ 0xA0 ∷ codes "name") name_nbsp

filter_extensions-kept_example : filter_extensions (codes "fileinto" ∷ codes "bogus-ext" ∷ []) ≡ (
  kept (contains supported_extensions) (codes "fileinto" ∷ codes "bogus-ext" ∷ []),
  kept (λ e. not (contains supported_extensions e)) (codes "fileinto" ∷ codes "bogus-ext" ∷ []),
)
filter_extensions-kept_example = filter_extensions-kept (codes "fileinto" ∷ codes "bogus-ext" ∷ [])
