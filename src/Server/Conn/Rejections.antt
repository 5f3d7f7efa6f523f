-- ===== src/Server/Conn/Rejections.antt =====
-- How resolveLiteralArgs of managesieveserver/conn.go refuses a literal argument.
use go_managesieve.Common.{
  ℕ, ◌≡◌, ◌⊎◌, inl, inr, refl, ◌∙◌, ap, subst, Bool, true, false, not, ◌&&◌, ◌++◌, append_assoc,
  Bytes, codes, Bool-cases,
}
use go_managesieve.Server.Reader.{ReadError}
use go_managesieve.Server.Conn.State.{
  Received, received, read_error, Conn, Env, read_line, read_body, emit, write, write_line,
  next_flush, flush, request_close, set_error, no_line, client_error,
}
use go_managesieve.Server.Conn.Literals.{
  read_literal, behind_body, line_behind, continuation, close_if, read_failure, failed_read,
  Resolved, resolved, rejected, unresolved,
}
use go_managesieve.Server.Conn.Responses.{sent_bytes}
use go_managesieve.Server.Conn.Answers.{Refuses, no_line-Refuses, client_error-Refuses}

module _ {S : Type 0} (env : Env S) where
  read_line-trace : (c : Conn S) → (read_line env c).1.trace ≡ c.trace
  unfolding read_line
  read_line-trace c = refl

  line_behind-trace :
      (body : Bytes) (r : Received × Conn S) → (line_behind body r).1.trace ≡ r.1.trace
  unfolding line_behind
  line_behind-trace body (received line, c) = refl
  line_behind-trace body (read_error e, c) = refl

  behind_body-trace : (r : Received × Conn S) → (behind_body env r).1.trace ≡ r.1.trace
  unfolding behind_body
  behind_body-trace (received body, c) =
      line_behind-trace body (read_line env c) ∙ read_line-trace c
  behind_body-trace (read_error e, c) = refl

  pub read_literal-trace : (n : ℕ) (c : Conn S) → (read_literal env n c).1.trace ≡ c.trace
  unfolding read_literal read_body
  read_literal-trace n c = behind_body-trace (read_body n c)

  -- What has been written begins with `before`.
  abbrev pub Follows : Bytes → Conn S → Type 0
  Follows before d = (more : Bytes) × (sent_bytes d.trace ≡ before ++ more)

  -- What has been written behind `before` ends with a NO line.
  abbrev pub Answered : Bytes → Conn S → Type 0
  Answered before d = (more : Bytes) × Refuses (before ++ more) d

  -- The client can no longer be written to, and the connection is to be closed.
  abbrev pub Lost : Conn S → Type 0
  Lost d = (d.write_failed ≡ true) × (d.close_pending ≡ true)

  Follows-Answered :
      (before : Bytes) (c d : Conn S)
      → Follows before c
      → Refuses (sent_bytes c.trace) d
      → Answered before d
  Follows-Answered before c d (more, e) refuses = (more, subst (λ t. Refuses t d) e refuses)

  -- The arguments are resolved, or a NO has been written for a failure, or the client is lost.
  abbrev pub IsResolved : Bytes → Resolved × Conn S → Type 0
  IsResolved before (resolved args, d) = Follows before d
  IsResolved before (rejected, d) = Answered before d ⊎ Lost d
  IsResolved before (unresolved, d) = ⊥

  pub client_error-IsResolved :
      (before msg : Bytes) (c : Conn S)
      → Follows before c
      → IsResolved before (rejected, client_error env msg c)
  client_error-IsResolved before msg c follows =
      inl (
        Follows-Answered before c (client_error env msg c) follows (client_error-Refuses env msg c))

  pub closed-IsResolved :
      (before msg : Bytes) (b : Bool) (c : Conn S)
      → Follows before c
      → IsResolved before (rejected, close_if b (client_error env msg c))
  unfolding close_if request_close
  closed-IsResolved before msg true c follows =
      inl (
        Follows-Answered before c (client_error env msg c) follows (client_error-Refuses env msg c))
  closed-IsResolved before msg false c follows = client_error-IsResolved before msg c follows

  pub failed_read-IsResolved :
      (before msg : Bytes) (e : ReadError) (c : Conn S)
      → Follows before c
      → IsResolved before (rejected, failed_read msg e c)
  unfolding failed_read request_close set_error
  failed_read-IsResolved before msg e c follows = inl (
      Follows-Answered before c (no_line msg (set_error (read_failure e) c)) follows
        (no_line-Refuses msg (set_error (read_failure e) c)))

  -- The continuation was sent, or the flush failed.
  abbrev pub Continued : Bytes → Bool × Conn S → Type 0
  Continued before (true, c) = Follows before c
  Continued before (false, c) = c.write_failed ≡ true

  flush-Continued : (before : Bytes) (c : Conn S) → Follows before c → Continued before (flush c)
  unfolding flush emit
  flush-Continued before c follows =
      elim (Bool-cases (not c.write_failed && next_flush c.flushes)) [
        | inl p ↦ rw p follows
        | inr p ↦ rw p refl
      ]

  pub continuation-Continued :
      (before : Bytes) (non_sync : Bool) (c : Conn S)
      → Follows before c
      → Continued before (continuation non_sync c)
  unfolding continuation write_line write emit
  continuation-Continued before true c follows = follows
  continuation-Continued before false c (more, e) =
      flush-Continued before (write_line (codes "+") c)
        (more ++ codes "+\r\n", ap (λ t. t ++ codes "+\r\n") e ∙ append_assoc before more _)
