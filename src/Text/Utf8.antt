-- ===== src/Text/Utf8.antt =====
-- Runes of a Go string: `range s`, utf8.ValidString, utf8.AppendRune, strings.Map and
-- strings.ToUpper. A byte that starts no valid encoding decodes to U+FFFD with width 1.
pub mod Encoding
use go_managesieve.Common.{
  ℕ, zero, suc, ◌+◌, ◌-◌, ◌*◌, ◌/◌, ◌%◌, Bool, true, false, not, ◌&&◌, ◌||◌, List, [], ◌∷◌, ◌++◌,
  Bytes, ltb, leb, ◌==◌, within, if◌then◌else◌,
}

abbrev pub rune_error : ℕ
rune_error = 0xFFFD

-- A decoded rune and the number of bytes that it takes.
pub record Decoded : Type 0 where
  pub rune : ℕ
  pub width : ℕ

abbrev pub refused : Decoded
refused = record { rune = rune_error; width = 1 }

-- A continuation byte.
abbrev pub is_cont : ℕ → Bool
is_cont = within 0x80 0xBF

-- The bounds of the second byte of a three-byte and of a four-byte encoding.
abbrev pub second_of_three : ℕ → ℕ → Bool
second_of_three a b =
    if a == 0xE0 then within 0xA0 0xBF b else if a == 0xED then within 0x80 0x9F b else is_cont b

abbrev pub second_of_four : ℕ → ℕ → Bool
second_of_four a b =
    if a == 0xF0 then within 0x90 0xBF b else if a == 0xF4 then within 0x80 0x8F b else is_cont b

pub decode_two : ℕ → Bytes → Decoded
decode_two a (b ∷ _) =
    if is_cont b then record { rune = (a - 0xC0) * 64 + (b - 0x80); width = 2 } else refused
decode_two a _ = refused

pub decode_three : ℕ → Bytes → Decoded
decode_three a (b ∷ c ∷ _) =
    if second_of_three a b && is_cont c
    then record { rune = ((a - 0xE0) * 64 + (b - 0x80)) * 64 + (c - 0x80); width = 3 }
    else refused
decode_three a _ = refused

pub decode_four : ℕ → Bytes → Decoded
decode_four a (b ∷ c ∷ d ∷ _) =
    if second_of_four a b && (is_cont c && is_cont d)
    then record {
      rune = (((a - 0xF0) * 64 + (b - 0x80)) * 64 + (c - 0x80)) * 64 + (d - 0x80);
      width = 4;
    }
    else refused
decode_four a _ = refused

-- utf8.DecodeRuneInString on `a ∷ s`.
unfoldable pub decode_rune : ℕ → Bytes → Decoded
unfolding decode_two decode_three decode_four
decode_rune a s =
    if ltb a 0x80
    then record { rune = a; width = 1 }
    else if within 0xC2 0xDF a
    then decode_two a s
    else if within 0xE0 0xEF a
    then decode_three a s
    else if within 0xF0 0xF4 a
    then decode_four a s
    else refused

-- The bytes behind the first one of a rune are skipped.
unfoldable pub runes_after : ℕ → Bytes → List Decoded
runes_after skip [] = []
runes_after zero (a ∷ s) =
    let d = decode_rune a s in let rest = runes_after (d.width - 1) s in d ∷ rest
runes_after (suc skip) (a ∷ s) = runes_after skip s

-- `for _, r := range s`
unfoldable pub runes : Bytes → List Decoded
runes = runes_after zero

-- U+FFFD of width 1 is a decoding error; the encoded U+FFFD has width 3.
abbrev pub is_valid_rune : Decoded → Bool
is_valid_rune d = not (d.rune == rune_error && d.width == 1)

unfoldable pub all_runes : (Decoded → Bool) → List Decoded → Bool
all_runes p [] = true
all_runes p (d ∷ ds) = p d && all_runes p ds

-- utf8.ValidString
unfoldable pub valid_string : Bytes → Bool
valid_string s = all_runes is_valid_rune (runes s)

-- utf8.AppendRune
unfoldable pub encode_rune : ℕ → Bytes
encode_rune r =
    if ltb r 0x80
    then r ∷ []
    else if ltb r 0x800
    then (0xC0 + r / 64) ∷ (0x80 + r % 64) ∷ []
    else if ltb 0x10FFFF r || within 0xD800 0xDFFF r
    then 0xEF ∷ 0xBF ∷ 0xBD ∷ []
    else if ltb r 0x10000
    then (0xE0 + r / 4096) ∷ (0x80 + r / 64 % 64) ∷ (0x80 + r % 64) ∷ []
    else (0xF0 + r / 262144) ∷ (0x80 + r / 4096 % 64) ∷ (0x80 + r / 64 % 64) ∷ (0x80 + r % 64) ∷ []

unfoldable pub encode_mapped : (ℕ → ℕ) → List Decoded → Bytes
encode_mapped f [] = []
encode_mapped f (d ∷ ds) = encode_rune (f d.rune) ++ encode_mapped f ds

-- strings.Map with a mapping that drops nothing.
unfoldable pub map_runes : (ℕ → ℕ) → Bytes → Bytes
map_runes f s = encode_mapped f (runes s)

abbrev pub upper_ascii : ℕ → ℕ
upper_ascii c = if within b'a' b'z' c then c - 32 else c

unfoldable pub is_ascii : Bytes → Bool
is_ascii [] = true
is_ascii (c ∷ s) = ltb c 0x80 && is_ascii s

unfoldable pub map_bytes : (ℕ → ℕ) → Bytes → Bytes
map_bytes f [] = []
map_bytes f (c ∷ s) = f c ∷ map_bytes f s

-- strings.ToUpper: bytewise on ASCII text, else by runes, where `upper_rune` is unicode.ToUpper
-- beyond ASCII.
unfoldable pub to_upper : (ℕ → ℕ) → Bytes → Bytes
to_upper upper_rune s =
    if is_ascii s
    then map_bytes upper_ascii s
    else map_runes (λ r. if ltb r 0x80 then upper_ascii r else upper_rune r) s
