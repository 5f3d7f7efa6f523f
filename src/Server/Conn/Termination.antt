-- ===== src/Server/Conn/Termination.antt =====
-- The loops of a connection end: each round of resolveLiteralArgs and of serve reads a line.
pub mod Serving
use go_managesieve.Common.{
  ℕ, zero, suc, ◌+◌, ◌≤◌, ◌<◌, ◌≡◌, ◌≢◌, refl, sym, ◌∙◌, ap, subst, arith, Bool, true, false, not,
  ◌&&◌, ◌||◌, List, [], ◌∷◌, ◌++◌, Option, none, some, Bytes, if◌then◌else◌, length, ltb, ◌⊎◌, inl,
  inr, Bool-cases, codes, append_assoc, append-nil,
}
use go_managesieve.Text.Space.{trim_space}
use go_managesieve.Wire.{quote}
use go_managesieve.Server.Parser.{
  Tokens, tokens, unclosed_quote, out_of_fuel, Literal, literal, bad_literal, not_literal,
  literal_length, parse_tokens, Line, blank, command, parse_line,
}
use go_managesieve.Server.Parser.Fuel.{parse_tokens-ne-out_of_fuel}
use go_managesieve.Server.Reader
use go_managesieve.Server.Reader.{ReadError, flat, LineResult, got, refused, read_bounded_line}
use go_managesieve.Server.Reader.Lines.{seen}
use go_managesieve.Server.Reader.Shrinking.{Took, read_bounded_line-Took}
use go_managesieve.Server.Conn.State.{
  Received, received, read_error, settled, Conn, Env, read_line, read_body, emit, write, write_line,
  next_flush, flush, request_close, set_error, no_line, client_error,
}
use go_managesieve.Server.Conn.Literals.{
  BodyRead, complete, incomplete, read_literal, behind_body, line_behind, continuation,
  literal_deferred, pending_bytes, close_if, read_failure, failed_read, Resolved, resolved,
  rejected, unresolved, more_args, resolve_body, resolve_continued, resolve_last, resolve_from,
  resolve_literal_args, split_last,
}
use go_managesieve.Server.Conn.Responses.{sent_bytes}
use go_managesieve.Server.Conn.Rejections.{
  read_literal-trace, Follows, IsResolved, client_error-IsResolved, closed-IsResolved,
  failed_read-IsResolved, Continued, continuation-Continued,
}
use go_managesieve.Server.Conn.Quiet.{Calm, rest, read_body-Calm, continuation-Calm}

-- A read of a line that came to its end took something.
abbrev pub TookLine : {S : Type 0} → ℕ → Received × Conn S → Type 0
TookLine n (received line, c) = rest c < n
TookLine n (read_error e, c) = Unit {0}

abbrev pub TookLiteral : {S : Type 0} → ℕ → BodyRead × Conn S → Type 0
TookLiteral n (complete body line, c) = rest c < n
TookLiteral n (incomplete e, c) = Unit {0}

module _ {S : Type 0} where
  settled-TookLine :
      (n : ℕ) (r : LineResult) (c : Conn S) → Took n (r, flat c.reader) → TookLine n (settled r, c)
  settled-TookLine n (got line) c h = h
  settled-TookLine n (refused e) c h = _
  settled-TookLine n Reader.out_of_fuel c h = _

module _ {S : Type 0} (env : Env S) where
  pub read_line-TookLine : (c : Conn S) → TookLine (rest c) (read_line env c)
  unfolding read_line
  read_line-TookLine c =
      settled-TookLine (rest c) (read_bounded_line env.options.max_line_length c.reader).0 _
        (read_bounded_line-Took env.options.max_line_length c.reader)

  line_behind-TookLiteral :
      (n : ℕ) (body : Bytes) (r : Received × Conn S)
      → TookLine n r
      → TookLiteral n (line_behind body r)
  unfolding line_behind
  line_behind-TookLiteral n body (received line, c) h = h
  line_behind-TookLiteral n body (read_error e, c) h = _

  TookLiteral-le : (m n : ℕ) (r : BodyRead × Conn S) → m ≤ n → TookLiteral m r → TookLiteral n r
  TookLiteral-le m n (complete body line, c) le h = omega (arith, le, h)
  TookLiteral-le m n (incomplete e, c) le h = _

  behind_body-TookLiteral :
      (n : ℕ) (r : Received × Conn S) → rest r.1 ≤ n → TookLiteral n (behind_body env r)
  unfolding behind_body
  behind_body-TookLiteral n (received body, c) h =
      TookLiteral-le (rest c) n _ h
        (line_behind-TookLiteral (rest c) body (read_line env c) (read_line-TookLine c))
  behind_body-TookLiteral n (read_error e, c) h = _

  read_literal-TookLiteral : (n : ℕ) (c : Conn S) → TookLiteral (rest c) (read_literal env n c)
  unfolding read_literal
  read_literal-TookLiteral n c =
      behind_body-TookLiteral (rest c) (read_body n c) (read_body-Calm n c).no_more

  module _ (fuel : ℕ) (before : Bytes) (again : List Bytes → Conn S → Resolved × Conn S)
      (ends : (args : List Bytes) (c : Conn S)
        → Follows env before c
        → rest c < fuel
        → IsResolved env before (again args c)) where
    more_args-IsResolved :
        (args : List Bytes) (t : Tokens) (c : Conn S)
        → t ≢ out_of_fuel
        → Follows env before c
        → rest c < fuel
        → IsResolved env before (more_args env again args t c)
    unfolding more_args set_error
    more_args-IsResolved args (tokens more) c ne follows h = ends (args ++ more) c follows h
    more_args-IsResolved args unclosed_quote c ne follows h =
        client_error-IsResolved env before _ (set_error _ c) follows
    more_args-IsResolved args out_of_fuel c ne follows h = absurd (ne refl)

    resolve_body-IsResolved :
        (front : List Bytes) (r : BodyRead × Conn S)
        → Follows env before r.1
        → TookLiteral fuel r
        → IsResolved env before (resolve_body env again front r)
    unfolding resolve_body
    resolve_body-IsResolved front (complete body line, c) follows h =
        more_args-IsResolved _ (parse_tokens (trim_space line)) c
          (parse_tokens-ne-out_of_fuel (trim_space line)) follows h
    resolve_body-IsResolved front (incomplete e, c) follows h =
        failed_read-IsResolved env before _ e c follows

    resolve_continued-IsResolved :
        (front : List Bytes) (n : ℕ) (r : Bool × Conn S)
        → Continued env before r
        → rest r.1 ≤ fuel
        → IsResolved env before (resolve_continued env again front n r)
    unfolding resolve_continued request_close
    resolve_continued-IsResolved front n (true, c) follows h =
        resolve_body-IsResolved front _
          (subst (λ t. (more : Bytes) × (sent_bytes t ≡ before ++ more))
            (sym (read_literal-trace env n c)) follows)
          (TookLiteral-le (rest c) fuel _ h (read_literal-TookLiteral n c))
    resolve_continued-IsResolved front n (false, c) failed h = inr (failed, refl)

    if-IsResolved :
        (b : Bool) (x y : Resolved × Conn S)
        → IsResolved env before x
        → IsResolved env before y
        → IsResolved env before (if b then x else y)
    if-IsResolved true x y p q = p
    if-IsResolved false x y p q = q

    resolve_last-IsResolved :
        (cmd : Bytes) (args : List Bytes) (p : List Bytes × Bytes) (l : Literal) (c : Conn S)
        → Follows env before c
        → rest c ≤ fuel
        → IsResolved env before (resolve_last env again cmd args p l c)
    unfolding resolve_last
    resolve_last-IsResolved cmd args (front, last) not_literal c follows h = follows
    resolve_last-IsResolved cmd args (front, last) (bad_literal non_sync) c follows h =
        if-IsResolved (literal_deferred cmd (length front)) _ _ follows
          (closed-IsResolved env before _ non_sync c follows)
    resolve_last-IsResolved cmd args (front, last) (literal n non_sync) c follows h =
        if-IsResolved (literal_deferred cmd (length front)) _ _ follows (
          if-IsResolved (ltb env.options.max_line_length n) _ _
            (closed-IsResolved env before _ _ c follows)
            (resolve_continued-IsResolved front n _
              (continuation-Continued env before non_sync c follows)
              (omega (arith, (continuation-Calm non_sync c).no_more, h))))

  resolve_from-IsResolved :
      (fuel : ℕ) (before cmd : Bytes) (args : List Bytes) (c : Conn S)
      → Follows env before c
      → rest c < fuel
      → IsResolved env before (resolve_from env fuel cmd args c)
  unfolding resolve_from
  resolve_from-IsResolved zero before cmd args c follows h = absurd (omega (arith, h))
  resolve_from-IsResolved (suc fuel) before cmd [] c follows h = follows
  resolve_from-IsResolved (suc fuel) before cmd (a ∷ args) c follows h =
      resolve_last-IsResolved fuel before (resolve_from env fuel cmd)
        (resolve_from-IsResolved fuel before cmd) cmd (a ∷ args) _ _ c follows (omega (arith, h))

  pub resolve_literal_args-IsResolved :
      (cmd : Bytes) (args : List Bytes) (c : Conn S)
      → IsResolved env (sent_bytes c.trace) (resolve_literal_args env cmd args c)
  unfolding resolve_literal_args
  resolve_literal_args-IsResolved cmd args c =
      resolve_from-IsResolved (suc (rest c)) (sent_bytes c.trace) cmd args c
        ([], sym (append-nil (sent_bytes c.trace))) (omega arith)
