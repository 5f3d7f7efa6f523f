-- ===== src/Server/Parser/Quoting.antt =====
-- Quoted strings: what managesieve.Quote writes is one token, and unquoteString gives the text back.
use go_managesieve.Common.{
  ℕ, ◌≡◌, refl, ◌∙◌, ap, false, [], ◌∷◌, ◌++◌, append_assoc, some, arith, Bytes, ◌==◌,
  if◌then◌else◌,
}
use go_managesieve.Wire.{escape, quote}
use go_managesieve.Server.Parser.{closing_quote, unsnoc, unescape, unquote_string}

-- What the two passes of the escaping make of one byte.
abbrev pub escape_byte : ℕ → Bytes
escape_byte c =
    if c == b'\\' then b'\\' ∷ b'\\' ∷ [] else if c == b'"' then b'\\' ∷ b'"' ∷ [] else c ∷ []

pub escape-cons : (c : ℕ) (s : Bytes) → escape (c ∷ s) ≡ escape_byte c ++ escape s
unfolding escape
escape-cons c s = ground arith

pub escape-nil : escape [] ≡ []
unfolding escape
escape-nil = refl

unescape_byte : (c : ℕ) (s : Bytes) → unescape false (escape_byte c ++ s) ≡ c ∷ unescape false s
unfolding unescape
unescape_byte c s = ground arith

pub unescape-escape : (s : Bytes) → unescape false (escape s) ≡ s
unescape-escape [] = rw escape-nil (unfold unescape in refl)
unescape-escape (c ∷ s) = rw (escape-cons, unescape_byte) (ap (◌∷◌ c) (unescape-escape s))

unsnoc-append : (x : ℕ) (s : Bytes) (l : ℕ) → unsnoc x (s ++ l ∷ []) ≡ (x ∷ s, l)
unfolding unsnoc
unsnoc-append x [] l = refl
unsnoc-append x (y ∷ s) l = rw (unsnoc-append y s l)

unsnoc_pair :
    (s : Bytes) (l : ℕ)
    → unquote_string (b'"' ∷ (s ++ l ∷ []))
      ≡ (if l == b'"' then unescape false s else b'"' ∷ (s ++ l ∷ []))
unfolding unquote_string
unsnoc_pair [] l = ground arith
unsnoc_pair (x ∷ s) l = rw (unsnoc-append x s l)

-- Unquoting undoes quoting, whatever bytes the text holds.
pub unquote_string-quote : (s : Bytes) → unquote_string (quote s) ≡ s
unfolding quote
unquote_string-quote s = unsnoc_pair (escape s) b'"' ∙ unescape-escape s

closing_byte :
    (c : ℕ) (s : Bytes) {arg rem : Bytes}
    → closing_quote false s ≡ some (arg, rem)
    → closing_quote false (escape_byte c ++ s) ≡ some (escape_byte c ++ arg, rem)
unfolding closing_quote
closing_byte c s h = ground arith

-- The closing quote of a quoted text is found, whatever bytes the text holds.
pub closing_quote-escape :
    (s rest : Bytes)
    → closing_quote false (escape s ++ b'"' ∷ rest) ≡ some (escape s ++ b'"' ∷ [], rest)
closing_quote-escape [] rest = rw escape-nil (unfold closing_quote in refl)
closing_quote-escape (c ∷ s) rest =
    rw (escape-cons, append_assoc, append_assoc) (closing_byte c _ (closing_quote-escape s rest))
