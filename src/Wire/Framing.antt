-- ===== src/Wire/Framing.antt =====
-- Quoting and sanitizing keep a text inside one response line.
use go_managesieve.Common.{ℕ, ◌≤◌, ◌≢◌, [], ◌∷◌, arith, Bytes, All, All-append}
use go_managesieve.Text.Utf8.{encode_rune}
use go_managesieve.Text.Utf8.Encoding.{All-map_runes}
use go_managesieve.Text.Search.{All-replace_all}
use go_managesieve.Wire.{quote, sanitize_rune, sanitize_text}

-- No C0 control character and no DEL.
abbrev pub IsPlain : ℕ → Type 0
IsPlain c = (0x20 ≤ c) × (c ≢ 0x7F)

encode-sanitize_rune : (r : ℕ) → All IsPlain (encode_rune (sanitize_rune r))
unfolding encode_rune
encode-sanitize_rune r = ground arith

-- Whatever the text, what is left after sanitizing holds no C0 control character and no DEL.
pub sanitize_text-IsPlain : (s : Bytes) → All IsPlain (sanitize_text s)
unfolding sanitize_text
sanitize_text-IsPlain s = All-map_runes IsPlain sanitize_rune encode-sanitize_rune s

pub quote-IsPlain : (s : Bytes) → All IsPlain s → All IsPlain (quote s)
unfolding quote
quote-IsPlain s h = (
  omega arith,
  All-append IsPlain _ (b'"' ∷ [])
      (All-replace_all IsPlain b'"' _ _ (omega arith)
        (All-replace_all IsPlain b'\\' _ s (omega arith) h))
      (omega arith),
)

-- A text of any origin that is sanitized and quoted holds no C0 control character, such as a CR or an LF
-- that would end its line, and no DEL.
pub quote-sanitize_text-IsPlain : (s : Bytes) → All IsPlain (quote (sanitize_text s))
quote-sanitize_text-IsPlain s = quote-IsPlain _ (sanitize_text-IsPlain s)
