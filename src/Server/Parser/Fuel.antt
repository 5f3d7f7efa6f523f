-- ===== src/Server/Parser/Fuel.antt =====
-- The fuel of the tokenizer is enough, and more fuel changes nothing.
use go_managesieve.Common.{
  ℕ, zero, suc, ◌≤◌, ◌<◌, ◌≡◌, ◌≢◌, refl, ap, Bool, true, false, [], ◌∷◌, Option, some, none, arith,
  Bytes, ◌==◌, length, length-append, Bool-cases, inl, inr,
}
use go_managesieve.Text.Utf8.{to_upper}
use go_managesieve.Text.Space.{trim_space}
use go_managesieve.Text.Space.Bounds.{trim_space-length, trim_space-head}
use go_managesieve.Text.Search.{cut_at, cut_at_whole}
use go_managesieve.Server.Parser.{
  Line, blank, command, tokens, unclosed_quote, command_line, nonblank_line, parse_line, Tokens,
  out_of_fuel, push_token, closing_quote, push_byte, quoted_token, atom_token, next_token,
  tokens_from, parse_tokens,
}
use go_managesieve.Server.Parser.Requests.{tokens_from-suc, parse_tokens_lem}

-- What stands behind the closing quote is shorter than the text.
abbrev Shorter : Bytes → Option (Bytes × Bytes) → Type 0
Shorter s none = Unit
Shorter s (some (arg, rem)) = length rem < length s

push_byte-Shorter :
    (c d : ℕ) (s : Bytes) (r : Option (Bytes × Bytes))
    → Shorter s r
    → Shorter (d ∷ s) (push_byte c r)
push_byte-Shorter c d s none h = tt
push_byte-Shorter c d s (some (arg, rem)) h = omega arith

closing_quote-Shorter : (escaped : Bool) (s : Bytes) → Shorter s (closing_quote escaped s)
unfolding closing_quote
closing_quote-Shorter true [] = tt
closing_quote-Shorter false [] = tt
closing_quote-Shorter true (c ∷ s) = push_byte-Shorter c c s _ (closing_quote-Shorter false s)
closing_quote-Shorter false (c ∷ s) = elim (Bool-cases (c == b'"')) [
  | inl e ↦ rw e (omega arith)
  | inr e ↦ rw e (push_byte-Shorter c c s _ (closing_quote-Shorter (c == b'\\') s))
]

-- `more` gives a result on every text shorter than `s`.
abbrev Covers : (Bytes → Tokens) → Bytes → Type 0
Covers more s = (rem : Bytes) → length rem < length s → more rem ≢ out_of_fuel

push_token-ne : (arg : Bytes) (t : Tokens) → t ≢ out_of_fuel → push_token arg t ≢ out_of_fuel
push_token-ne arg t h = ground arith

quoted_token-ne :
    (more : Bytes → Tokens) (s : Bytes) (r : Option (Bytes × Bytes))
    → Covers more s
    → Shorter s r
    → quoted_token more r ≢ out_of_fuel
unfolding quoted_token
quoted_token-ne more s none h k = ground arith
quoted_token-ne more s (some (arg, rem)) h k = push_token-ne _ (more rem) (h rem k)

-- Behind an atom less is left, since the atom does not start with a space.
cut_at-length : (c : ℕ) (s : Bytes) → c ≢ b' ' → length (cut_at b' ' (c ∷ s)).1 ≤ length s
unfolding cut_at
cut_at-length c s h =
    ground
      (arith, ap length (cut_at_whole b' ' s), length-append (cut_at b' ' s).0 (cut_at b' ' s).1)

atom_token-ne :
    (more : Bytes → Tokens) (s : Bytes) (r : Bytes × Bytes)
    → Covers more s
    → length r.1 < length s
    → atom_token more r ≢ out_of_fuel
unfolding atom_token
atom_token-ne more s (arg, rem) h k = push_token-ne _ (more rem) (h rem k)

next_token-ne :
    (more : Bytes → Tokens) (s : Bytes)
    → Covers more s
    → ((c : ℕ) (t : Bytes) → s ≡ c ∷ t → c ≢ b' ')
    → next_token more s ≢ out_of_fuel
unfolding next_token
next_token-ne more [] h k = ground arith
next_token-ne more (c ∷ s) h k = elim (Bool-cases (c == b'"')) [
  | inl e ↦
      rw e
        (quoted_token-ne more s _ (λ rem lt. h rem (omega arith)) (closing_quote-Shorter false s))
  | inr e ↦ rw e (atom_token-ne more (c ∷ s) _ h (omega (arith, cut_at-length c s (k c s refl))))
]

tokens_from-ne-out_of_fuel :
    (fuel : ℕ) (rem : Bytes) → length rem < fuel → tokens_from fuel rem ≢ out_of_fuel
tokens_from-ne-out_of_fuel zero rem h = absurd (omega arith)
tokens_from-ne-out_of_fuel (suc fuel) rem h = rw (tokens_from-suc fuel rem) (
    next_token-ne (tokens_from fuel) (trim_space rem)
      (λ r lt. tokens_from-ne-out_of_fuel fuel r (omega (arith, trim_space-length rem)))
      (λ c t e. trim_space-head rem e))

-- The tokenizer ends on every text: with tokens, or with the error for an unclosed quote.
pub parse_tokens-ne-out_of_fuel : (rem : Bytes) → parse_tokens rem ≢ out_of_fuel
parse_tokens-ne-out_of_fuel rem =
    rw (parse_tokens_lem rem) (tokens_from-ne-out_of_fuel (suc (length rem)) rem (omega arith))

-- A line whose arguments are tokens, or that has an unclosed quote.
abbrev pub IsParsed : Line → Type 0
IsParsed blank = Unit {0}
IsParsed (command cmd (tokens args)) = Unit {0}
IsParsed (command cmd unclosed_quote) = Unit {0}
IsParsed (command cmd out_of_fuel) = ⊥

command-IsParsed : (cmd : Bytes) (t : Tokens) → t ≢ out_of_fuel → IsParsed (command cmd t)
command-IsParsed cmd (tokens args) h = _
command-IsParsed cmd unclosed_quote h = _
command-IsParsed cmd out_of_fuel h = h refl

module _ (upper_rune : ℕ → ℕ) where
  command_line-IsParsed : (p : Bytes × Option Bytes) → IsParsed (command_line upper_rune p)
  unfolding command_line
  command_line-IsParsed (verb, none) = _
  command_line-IsParsed (verb, some text) =
      command-IsParsed (to_upper upper_rune verb) (parse_tokens (trim_space text))
        (parse_tokens-ne-out_of_fuel (trim_space text))

  nonblank_line-IsParsed : (line : Bytes) → IsParsed (nonblank_line upper_rune line)
  unfolding nonblank_line
  nonblank_line-IsParsed [] = _
  nonblank_line-IsParsed (c ∷ s) = command_line-IsParsed _

  pub parse_line-IsParsed : (line : Bytes) → IsParsed (parse_line upper_rune line)
  unfolding parse_line
  parse_line-IsParsed line = nonblank_line-IsParsed (trim_space line)
