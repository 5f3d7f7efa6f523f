-- ===== src/Server/Parser.antt =====
-- managesieveserver/parser.go without the reader: the tokens of a command line, quoted strings and
-- literal markers.
pub mod Quoting
pub mod Fuel
pub mod Numbers
pub mod Requests
use go_managesieve.Common.{
  ℕ, zero, suc, ◌+◌, ◌-◌, ◌*◌, ◌/◌, ◌%◌, ◌^◌, Bool, true, false, not, ◌&&◌, ◌||◌, List, [], ◌∷◌,
  Option, none, some, Bytes, codes, ltb, ◌==◌, if◌then◌else◌, length,
}
use go_managesieve.Text.Utf8.{Decoded, runes, to_upper}
use go_managesieve.Text.Space.{trim_space}
use go_managesieve.Text.Search.{
  has_prefix, has_suffix, trim_prefix, trim_suffix, cut_at, split_once,
}

-- The arguments of a line, or the error "unclosed quote in command arguments".
pub data Tokens : Type 0 where
  tokens : List Bytes → Tokens
  unclosed_quote : Tokens
  out_of_fuel : Tokens

abbrev pub push_token : Bytes → Tokens → Tokens
push_token arg (tokens args) = tokens (arg ∷ args)
push_token arg unclosed_quote = unclosed_quote
push_token arg out_of_fuel = out_of_fuel

abbrev pub push_byte : ℕ → Option (Bytes × Bytes) → Option (Bytes × Bytes)
push_byte c none = none
push_byte c (some (arg, rem)) = some (c ∷ arg, rem)

-- The search for the closing quote: the text up to it, it included, and the text behind it. The
-- flag is `escaped`.
unfoldable pub closing_quote : Bool → Bytes → Option (Bytes × Bytes)
closing_quote escaped [] = none
closing_quote true (c ∷ s) = push_byte c (closing_quote false s)
closing_quote false (c ∷ s) =
    let further = closing_quote (c == b'\\') s in
    if c == b'"' then some (c ∷ [], s) else push_byte c further

pub quoted_token : (Bytes → Tokens) → Option (Bytes × Bytes) → Tokens
quoted_token more none = unclosed_quote
quoted_token more (some (arg, rem)) = push_token (b'"' ∷ arg) (more rem)

pub atom_token : (Bytes → Tokens) → Bytes × Bytes → Tokens
atom_token more (arg, rem) = push_token arg (more rem)

-- The body of the loop behind its trimming; `more` is the rest of the loop.
pub next_token : (Bytes → Tokens) → Bytes → Tokens
unfolding quoted_token atom_token
next_token more [] = tokens []
next_token more (c ∷ s) =
    if c == b'"'
    then quoted_token more (closing_quote false s)
    else atom_token more (cut_at b' ' (c ∷ s))

-- The loop of parseTokens. A round consumes at least one byte.
unfoldable pub tokens_from : ℕ → Bytes → Tokens
unfolding next_token
tokens_from zero rem = out_of_fuel
tokens_from (suc fuel) rem = next_token (tokens_from fuel) (trim_space rem)

unfoldable pub parse_tokens : Bytes → Tokens
unfolding tokens_from closing_quote cut_at trim_space
parse_tokens rem = tokens_from (suc (length rem)) rem

-- A command line: blank, or a verb in upper case with what parseTokens makes of the rest.
pub data Line : Type 0 where
  blank : Line
  command : Bytes → Tokens → Line

pub command_line : (ℕ → ℕ) → Bytes × Option Bytes → Line
command_line upper_rune (verb, none) = command (to_upper upper_rune verb) (tokens [])
command_line upper_rune (verb, some rest) =
    command (to_upper upper_rune verb) (parse_tokens (trim_space rest))

nonblank_line : (ℕ → ℕ) → Bytes → Line
unfolding command_line
nonblank_line upper_rune [] = blank
nonblank_line upper_rune (c ∷ s) = command_line upper_rune (split_once b' ' (c ∷ s))

unfoldable pub parse_line : (ℕ → ℕ) → Bytes → Line
unfolding nonblank_line
parse_line upper_rune line = nonblank_line upper_rune (trim_space line)

-- What stands before the last byte of `x ∷ s`, and that byte.
unfoldable pub unsnoc : ℕ → Bytes → Bytes × ℕ
unsnoc x [] = ([], x)
unsnoc x (y ∷ s) = let (front, last) = unsnoc y s in (x ∷ front, last)

-- The loop over the inner text; the flag is `escaped`.
unfoldable pub unescape : Bool → Bytes → Bytes
unescape escaped [] = []
unescape true (c ∷ s) = c ∷ unescape false s
unescape false (c ∷ s) = let rest = unescape (c == b'\\') s in if c == b'\\' then rest else c ∷ rest

unfoldable pub unquote_string : Bytes → Bytes
unfolding unsnoc unescape
unquote_string (c ∷ d ∷ s) =
    let (inner, last) = unsnoc d s in
    if c == b'"' && last == b'"' then unescape false inner else c ∷ d ∷ s
unquote_string str = str

pub data Number : Type 0 where
  number : ℕ → Number
  not_a_number : Number
  too_large : Number

-- math.MaxInt64
abbrev pub max_int64 : ℕ
max_int64 = 2 ^ 63 - 1

-- The loop of parseInt64; `n * 10 + d` is computed in 64 bits.
unfoldable pub number_from : ℕ → List Decoded → Number
number_from n [] = number n
number_from n (ch ∷ rest) =
    let d = ch.rune - b'0' in
    let further = number_from ((n * 10 + d) % 2 ^ 64) rest in
    if ltb ch.rune b'0' || ltb b'9' ch.rune
    then not_a_number
    else if ltb ((max_int64 - d) / 10) n
    then too_large
    else further

unfoldable pub parse_int64 : Bytes → Number
unfolding number_from
parse_int64 [] = not_a_number
parse_int64 (c ∷ s) = number_from 0 (runes (c ∷ s))

-- The results of literalLength: `ok` is false; a length with `nonSync`; an error with `nonSync`.
pub data Literal : Type 0 where
  not_literal : Literal
  literal : ℕ → Bool → Literal
  bad_literal : Bool → Literal

abbrev literal_of : Bool → Number → Literal
literal_of non_sync (number n) = literal n non_sync
literal_of non_sync not_a_number = bad_literal non_sync
literal_of non_sync too_large = bad_literal non_sync

unfoldable pub literal_length : Bytes → Literal
literal_length arg =
    if not (has_prefix (codes "{") arg) || not (has_suffix (codes "}") arg)
    then not_literal
    else literal_of (has_suffix (codes "+}") arg) (
        parse_int64
          (trim_suffix (codes "+") (trim_suffix (codes "}") (trim_prefix (codes "{") arg))))
