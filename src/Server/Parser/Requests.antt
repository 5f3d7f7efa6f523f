-- ===== src/Server/Parser/Requests.antt =====
-- A command line tl a client writes it, and the tokens that the server reads from it.
use go_managesieve.Common.{
  ℕ, zero, suc, ◌≤◌, ◌<◌, ◌≡◌, refl, sym, ◌∙◌, ap, ◌≡⟨◌⟩◌, ◌∎, true, List, [], ◌∷◌, ◌++◌,
  append_assoc, append-nil, some, arith, Bytes, length, length-append, All,
}
use go_managesieve.Text.Utf8.{is_ascii, map_bytes, upper_ascii, to_upper}
use go_managesieve.Text.Space.{
  trim_space, trim_right, trim_space_lem, trim_space-is_visible, trim_left-is_visible,
  trim_left-space, trim_right-space, trim_right-is_visible, is_visible,
}
use go_managesieve.Text.Search.{split_once, split_once-Lacks, split_once-none, Lacks}
use go_managesieve.Wire.{escape, quote}
use go_managesieve.Server.Parser.{
  Tokens, tokens, push_token, next_token, tokens_from, parse_tokens, command, command_line,
  parse_line,
}
use go_managesieve.Server.Parser.Quoting.{closing_quote-escape}

-- Every argument quoted, with a space in front.
abbrev pub render_args : List Bytes → Bytes
render_args [] = []
render_args (a ∷ tl) = b' ' ∷ (quote a ++ render_args tl)

abbrev pub quoted : List Bytes → List Bytes
quoted [] = []
quoted (a ∷ tl) = quote a ∷ quoted tl

-- A request line with its terminator.
abbrev pub request : Bytes → List Bytes → Bytes
request verb args = verb ++ (render_args args ++ b'\r' ∷ b'\n' ∷ [])

args_glue :
    (a m : Bytes)
    → quote a ++ b' ' ∷ b'"' ∷ (m ++ b'"' ∷ [])
      ≡ b'"' ∷ ((escape a ++ b'"' ∷ b' ' ∷ b'"' ∷ m) ++ b'"' ∷ [])
unfolding quote
args_glue a m = ap (◌∷◌ b'"') (
    append_assoc (escape a) (b'"' ∷ []) _
    ∙ sym (append_assoc (escape a) (b'"' ∷ b' ' ∷ b'"' ∷ m) _))

-- The rendered arguments without the first space end in a quote.
args_end :
    (a : Bytes) (tl : List Bytes)
    → (m : Bytes) × (quote a ++ render_args tl ≡ b'"' ∷ (m ++ b'"' ∷ []))
args_end a [] = (escape a, unfold quote in append-nil _)
args_end a (b ∷ bs) =
    let (m, e) = args_end b bs in (escape a ++ b'"' ∷ b' ' ∷ b'"' ∷ m, rw e (args_glue a m))

pub trim_space-args :
    (a : Bytes) (tl : List Bytes)
    → trim_space (quote a ++ render_args tl) ≡ quote a ++ render_args tl
trim_space-args a tl =
    let (m, e) = args_end a tl in rw e (trim_space-is_visible b'"' m b'"' refl refl)

next_token-quote :
    (more : Bytes → Tokens) (a rest : Bytes)
    → next_token more (quote a ++ rest) ≡ push_token (quote a) (more rest)
unfolding next_token quote
next_token-quote more a rest = rw (append_assoc, closing_quote-escape a rest)

-- A space in front of the arguments changes nothing.
trim_space-render :
    (a : Bytes) (tl : List Bytes) → trim_space (render_args (a ∷ tl)) ≡ quote a ++ render_args tl
trim_space-render a tl =
    trim_space_lem _
    ∙ ap trim_right (trim_left-space b' ' _ refl)
    ∙ sym (trim_space_lem _)
    ∙ trim_space-args a tl

pub tokens_from-suc :
    (fuel : ℕ) (rem : Bytes)
    → tokens_from (suc fuel) rem ≡ next_token (tokens_from fuel) (trim_space rem)
unfolding tokens_from
tokens_from-suc fuel rem = refl

tokens_from-render :
    (fuel : ℕ) (args : List Bytes)
    → length args < fuel
    → tokens_from fuel (render_args args) ≡ tokens (quoted args)
tokens_from-render zero args h = absurd (omega arith)
tokens_from-render (suc fuel) [] h = unfold tokens_from trim_space in refl
tokens_from-render (suc fuel) (a ∷ tl) h =
    tokens_from (suc fuel) (render_args (a ∷ tl))
    ≡⟨ tokens_from-suc fuel _ ∙ ap (next_token (tokens_from fuel)) (trim_space-render a tl) ⟩
      next_token (tokens_from fuel) (quote a ++ render_args tl)
    ≡⟨ next_token-quote _ a _ ⟩ push_token (quote a) (tokens_from fuel (render_args tl))
    ≡⟨ ap (push_token (quote a)) (tokens_from-render fuel tl (omega arith)) ⟩
      tokens (quoted (a ∷ tl)) ∎

length-render : (args : List Bytes) → length args ≤ length (render_args args)
length-render [] = omega arith
length-render (a ∷ tl) =
    omega (arith, length-append {0} (quote a) (render_args tl), length-render tl)

args_fuel : (a : Bytes) (tl : List Bytes) → length tl < length (quote a ++ render_args tl)
unfolding quote
args_fuel a tl =
    omega (arith, length-append {0} (escape a ++ b'"' ∷ []) (render_args tl), length-render tl)

pub parse_tokens_lem : (rem : Bytes) → parse_tokens rem ≡ tokens_from (suc (length rem)) rem
unfolding parse_tokens
parse_tokens_lem rem = refl

-- The arguments of a request are read back one by one.
pub parse_tokens-render :
    (a : Bytes) (tl : List Bytes)
    → parse_tokens (quote a ++ render_args tl) ≡ tokens (quoted (a ∷ tl))
parse_tokens-render a tl =
    parse_tokens (quote a ++ render_args tl)
    ≡⟨ parse_tokens_lem _ ⟩
      tokens_from (suc (length (quote a ++ render_args tl))) (quote a ++ render_args tl)
    ≡⟨ tokens_from-suc _ _ ∙ ap (next_token _) (trim_space-args a tl) ⟩
      next_token (tokens_from (length (quote a ++ render_args tl))) (quote a ++ render_args tl)
    ≡⟨ next_token-quote _ a _ ⟩
      push_token (quote a) (tokens_from (length (quote a ++ render_args tl)) (render_args tl))
    ≡⟨ ap (push_token (quote a)) (tokens_from-render _ tl (args_fuel a tl)) ⟩
      tokens (quoted (a ∷ tl)) ∎

-- A byte of a verb: a visible ASCII character.
abbrev pub IsVisible : ℕ → Type 0
IsVisible c = is_visible c ≡ true

record EndsVisible (w : Bytes) : Type 0 where
  front : Bytes
  last : ℕ
  splits : w ≡ front ++ last ∷ []
  visible : is_visible last ≡ true

EndsVisible-cons : (x : ℕ) {w : Bytes} → EndsVisible w → EndsVisible (x ∷ w)
EndsVisible-cons x e = record {
  front = x ∷ e.front;
  last = e.last;
  splits = ap (◌∷◌ x) e.splits;
  visible = e.visible;
}

EndsVisible-append : (v : Bytes) {w : Bytes} → EndsVisible w → EndsVisible (v ++ w)
EndsVisible-append [] e = e
EndsVisible-append (x ∷ v) e = EndsVisible-cons x (EndsVisible-append v e)

EndsVisible-verb : (c : ℕ) (v : Bytes) → All IsVisible (c ∷ v) → EndsVisible (c ∷ v)
EndsVisible-verb c [] h = record { front = []; last = c; splits = refl; visible = h.0 }
EndsVisible-verb c (d ∷ v) h = EndsVisible-cons c (EndsVisible-verb d v h.1)

EndsVisible-args : (a : Bytes) (tl : List Bytes) → EndsVisible (quote a ++ render_args tl)
EndsVisible-args a tl =
    let (m, e) = args_end a tl in
    record { front = b'"' ∷ m; last = b'"'; splits = e; visible = refl }

trim_right-EndsVisible : (w : Bytes) → EndsVisible w → trim_right (w ++ b'\r' ∷ b'\n' ∷ []) ≡ w
trim_right-EndsVisible w e =
    trim_right (w ++ b'\r' ∷ b'\n' ∷ [])
    ≡⟨ ap trim_right (sym (append_assoc w (b'\r' ∷ []) (b'\n' ∷ []))) ⟩
      trim_right ((w ++ b'\r' ∷ []) ++ b'\n' ∷ [])
    ≡⟨ trim_right-space _ b'\n' refl ⟩ trim_right (w ++ b'\r' ∷ [])
    ≡⟨ trim_right-space w b'\r' refl ⟩ trim_right w
    ≡⟨ ap trim_right e.splits ⟩ trim_right (e.front ++ e.last ∷ [])
    ≡⟨ trim_right-is_visible e.front e.last e.visible ⟩ e.front ++ e.last ∷ []
    ≡⟨ sym e.splits ⟩ w ∎

trim_space-line :
    (c : ℕ) (w : Bytes)
    → is_visible c ≡ true
    → EndsVisible (c ∷ w)
    → trim_space (c ∷ (w ++ b'\r' ∷ b'\n' ∷ [])) ≡ c ∷ w
trim_space-line c w h e =
    trim_space_lem _ ∙ ap trim_right (trim_left-is_visible c _ h) ∙ trim_right-EndsVisible (c ∷ w) e

is_ascii-IsVisible : (v : Bytes) → All IsVisible v → is_ascii v ≡ true
unfolding is_ascii
is_ascii-IsVisible [] h = refl
is_ascii-IsVisible (c ∷ v) h = ground (arith, is_ascii-IsVisible v h.1)

to_upper-IsVisible :
    (up : ℕ → ℕ) (v : Bytes) → All IsVisible v → to_upper up v ≡ map_bytes upper_ascii v
unfolding to_upper
to_upper-IsVisible up v h = rw (is_ascii-IsVisible v h)

Lacks-IsVisible : (v : Bytes) → All IsVisible v → Lacks b' ' v
Lacks-IsVisible [] h = tt
Lacks-IsVisible (c ∷ v) h = (ground arith, Lacks-IsVisible v h.1)

parse_line-trimmed :
    (up : ℕ → ℕ) (line : Bytes) (c : ℕ) (w : Bytes)
    → trim_space line ≡ c ∷ w
    → parse_line up line ≡ command_line up (split_once b' ' (c ∷ w))
parse_line-trimmed up line c w e = unfold parse_line in rw e

command_line-some :
    (up : ℕ → ℕ) (verb rest : Bytes) {upper : Bytes} {args : Tokens}
    → to_upper up verb ≡ upper
    → parse_tokens (trim_space rest) ≡ args
    → command_line up (verb, some rest) ≡ command upper args
unfolding command_line
command_line-some up verb rest e h = cc

-- The line of a request is read back as its verb, in upper case, and its arguments, each as the
-- quoted string that was written.
pub parse_line-request :
    (up : ℕ → ℕ) (c : ℕ) (v : Bytes) (args : List Bytes)
    → All IsVisible (c ∷ v)
    → parse_line up (request (c ∷ v) args)
      ≡ command (map_bytes upper_ascii (c ∷ v)) (tokens (quoted args))
parse_line-request up c v [] h =
    parse_line-trimmed up _ c v (trim_space-line c v h.0 (EndsVisible-verb c v h))
    ∙ ap (command_line up) (split_once-none b' ' (c ∷ v) (Lacks-IsVisible (c ∷ v) h))
    ∙ unfold command_line in ap (λ u. command u (tokens [])) (to_upper-IsVisible up (c ∷ v) h)
parse_line-request up c v (a ∷ tl) h =
    let ends = EndsVisible-append (c ∷ v) (EndsVisible-cons b' ' (EndsVisible-args a tl)) in
    parse_line-trimmed up _ c (v ++ render_args (a ∷ tl)) (
      ap trim_space (ap (◌∷◌ c) (sym (append_assoc v (render_args (a ∷ tl)) _)))
      ∙ trim_space-line c (v ++ render_args (a ∷ tl)) h.0 ends)
    ∙ ap (command_line up) (split_once-Lacks b' ' (c ∷ v) _ (Lacks-IsVisible (c ∷ v) h))
    ∙ command_line-some up (c ∷ v) _ (to_upper-IsVisible up (c ∷ v) h)
        (ap parse_tokens (trim_space-args a tl) ∙ parse_tokens-render a tl)
