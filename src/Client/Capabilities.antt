-- ===== src/Client/Capabilities.antt =====
-- parseCapabilityLine of managesieveclient/client.go on the lines that the server writes.
use go_managesieve.Common.{
  ℕ, suc, ◌+◌, ◌-◌, ◌≡◌, refl, sym, ◌∙◌, ap, subst, Bool, true, false, [], ◌∷◌, ◌++◌, append_assoc,
  append-nil, some, arith, Bytes, ltb, ◌==◌, if◌then◌else◌, Bool-cases, inl, inr, length,
  length-append, take, take-front, drop-front,
}
use go_managesieve.Text.Space.{
  trim_space, trim_space-is_visible, trim_space_lem, trim_left-space, trim_right,
}
use go_managesieve.Wire.{Capability, escape, quote}
use go_managesieve.Server.Parser.{unsnoc, unescape, unquote_string}
use go_managesieve.Server.Parser.Quoting.{
  escape_byte, escape-cons, escape-nil, unquote_string-quote,
}
use go_managesieve.Server.Parser.Requests.{trim_space-args}
use go_managesieve.Server.Conn.Capabilities.{capability_line}
use go_managesieve.Client.Responses.{
  byte_at, closing_from, closing_index, unescape_loop, unquote, value_of, quoted_capability,
  capability_of, parse_capability_line,
}

unescape_loop-unescape : (escaped : Bool) (s : Bytes) → unescape_loop escaped s ≡ unescape escaped s
unfolding unescape_loop unescape
unescape_loop-unescape true [] = refl
unescape_loop-unescape false [] = refl
unescape_loop-unescape true (c ∷ s) = ap (◌∷◌ c) (unescape_loop-unescape false s)
unescape_loop-unescape false (c ∷ s) = rw (unescape_loop-unescape (c == b'\\') s) refl

unsnoc-take :
    (x : ℕ) (s : Bytes) → unsnoc x s ≡ (take (length s) (x ∷ s), byte_at (x ∷ s) (length s))
unfolding unsnoc byte_at
unsnoc-take x [] = refl
unsnoc-take x (y ∷ s) = rw (unsnoc-take y s) refl

-- The client unquotes as the server does.
pub unquote-unquote_string : (s : Bytes) → unquote s ≡ unquote_string s
unfolding unquote unquote_string byte_at
unquote-unquote_string [] = ground arith
unquote-unquote_string (c ∷ []) = ground arith
unquote-unquote_string (c ∷ d ∷ s) =
    let long : ltb (suc (suc (length s))) 2 ≡ false = ground arith in
    let last : suc (suc (length s)) - 1 ≡ suc (length s) = omega arith in
    let inner : suc (suc (length s)) - 2 ≡ length s = omega arith in
    rw (unsnoc-take d s, unescape_loop-unescape, long, last, inner) (ground arith)

unquote-quote : (s : Bytes) → unquote (quote s) ≡ s
unquote-quote s = unquote-unquote_string (quote s) ∙ unquote_string-quote s

closing_byte :
    (i c : ℕ) (t : Bytes)
    → closing_from i false (escape_byte c ++ t) ≡ closing_from (i + length (escape_byte c)) false t
unfolding closing_from
closing_byte i c t = ground arith

closing_from-escape :
    (i : ℕ) (s rest : Bytes)
    → closing_from i false (escape s ++ b'"' ∷ rest) ≡ some (i + length (escape s))
closing_from-escape i [] rest = rw escape-nil (unfold closing_from in ap some (omega arith))
closing_from-escape i (c ∷ s) rest =
    rw (escape-cons c s, append_assoc, closing_byte, length-append)
      (closing_from-escape (i + length (escape_byte c)) s rest ∙ ap some (omega arith))

closing_index-quote :
    (s rest : Bytes) → closing_index (quote s ++ rest) ≡ some (1 + length (escape s))
unfolding closing_index quote
closing_index-quote s rest = rw append_assoc (closing_from-escape 1 s rest)

length-quote : (s : Bytes) → length (escape s) + 2 ≡ length (quote s)
unfolding quote
length-quote s = omega (arith, length-append {0} (escape s) (b'"' ∷ []))

-- A quoted name, with anything behind it.
quoted_capability-quote :
    (name rest : Bytes)
    → quoted_capability (quote name ++ rest) (closing_index (quote name ++ rest))
      ≡ (name, value_of (trim_space rest))
unfolding quoted_capability
quoted_capability-quote name rest =
    let end : 1 + length (escape name) + 1 ≡ length (quote name) =
      omega (arith, length-quote name) in
    rw
      (
        closing_index-quote name rest,
        take-front _ (quote name) rest end,
        drop-front _ (quote name) rest end,
        unquote-quote name,
      )
      refl

capability_of-quote :
    (name rest : Bytes)
    → capability_of (quote name ++ rest)
      ≡ quoted_capability (quote name ++ rest) (closing_index (quote name ++ rest))
unfolding capability_of quote
capability_of-quote name rest = refl

-- A quoted text is not trimmed.
trim_space-quote : (s : Bytes) → trim_space (quote s) ≡ quote s
unfolding quote
trim_space-quote s = trim_space-is_visible b'"' (escape s) b'"' refl refl

trim_space-behind : (s : Bytes) → trim_space (b' ' ∷ s) ≡ trim_space s
trim_space-behind s =
    trim_space_lem _ ∙ ap trim_right (trim_left-space b' ' s refl) ∙ sym (trim_space_lem s)

value_of-unquote : (s : Bytes) → value_of (quote s) ≡ unquote (quote s)
unfolding value_of quote
value_of-unquote s = refl

value_of-quote : (s : Bytes) → value_of (quote s) ≡ s
value_of-quote s = value_of-unquote s ∙ unquote-quote s

value_of-trim_space : value_of (trim_space []) ≡ []
unfolding value_of trim_space
value_of-trim_space = refl

trim_space-two :
    (name value : Bytes)
    → trim_space (quote name ++ b' ' ∷ quote value) ≡ quote name ++ b' ' ∷ quote value
trim_space-two name value =
    subst (λ v. trim_space (quote name ++ b' ' ∷ v) ≡ quote name ++ b' ' ∷ v)
      (append-nil (quote value)) (trim_space-args name (value ∷ []))

parse_capability_line_lem :
    (line : Bytes) → parse_capability_line line ≡ capability_of (trim_space line)
unfolding parse_capability_line
parse_capability_line_lem line = refl

parse-trimmed :
    (name rest : Bytes)
    → trim_space (quote name ++ rest) ≡ quote name ++ rest
    → parse_capability_line (quote name ++ rest) ≡ (name, value_of (trim_space rest))
parse-trimmed name rest h =
    parse_capability_line_lem _
    ∙ ap capability_of h
    ∙ capability_of-quote name rest
    ∙ quoted_capability-quote name rest

parse-with_value :
    (name value : Bytes) → parse_capability_line (quote name ++ b' ' ∷ quote value) ≡ (name, value)
parse-with_value name value =
    parse-trimmed name (b' ' ∷ quote value) (trim_space-two name value)
    ∙ ap (λ v. (name, v))
        (ap value_of (trim_space-behind (quote value) ∙ trim_space-quote value)
          ∙ value_of-quote value)

parse-without_value : (name : Bytes) → parse_capability_line (quote name) ≡ (name, [])
parse-without_value name =
    subst (λ l. parse_capability_line l ≡ (name, [])) (append-nil (quote name))
      (parse-trimmed name [] (trim_space-args name []) ∙ ap (λ v. (name, v)) value_of-trim_space)

-- A capability line as the server writes it gives the client the name and the value, whatever bytes
-- they hold; a capability without a value has the empty one.
pub parse_capability_line-quote :
    (capa : Capability)
    → parse_capability_line (capability_line capa)
      ≡ (capa.name, if capa.has_value then capa.value else [])
parse_capability_line-quote capa = elim (Bool-cases capa.has_value) [
  | inl h ↦ rw h (parse-with_value capa.name capa.value)
  | inr h ↦ rw h (parse-without_value capa.name)
]
