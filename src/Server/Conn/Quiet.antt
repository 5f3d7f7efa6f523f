-- ===== src/Server/Conn/Quiet.antt =====
-- What writing, reading and counting errors leave alone: the state of the protocol, the session, and
-- the calls of the session's methods with the TLS upgrades between them.
pub mod Literals
use go_managesieve.Common.{
  ℕ, zero, suc, ◌≡◌, refl, sym, subst, ◌≤◌, ◌<◌, length, ◌∙◌, ap, Bool, true, false, not, ◌&&◌,
  ◌||◌, List, [], ◌∷◌, ◌++◌, Option, none, some, arith, Bytes, codes, bytes_eq, ltb, leb, ◌==◌,
  if◌then◌else◌, Bool-cases, inl, inr,
}
use go_managesieve.Wire.{Capability}
use go_managesieve.Server.Parser.{
  Tokens, tokens, unclosed_quote, out_of_fuel, Literal, literal, bad_literal, not_literal,
  literal_length, parse_tokens,
}
use go_managesieve.Server.Reader
use go_managesieve.Server.Reader.{flat, got, refused, LineResult, read_bounded_line}
use go_managesieve.Server.Reader.Lines.{seen}
use go_managesieve.Server.Reader.Shrinking.{
  Took, Took-le, read_bounded_line-Took, read_full-le_length,
}
use go_managesieve.Server.Errors.{Error, Failure}
use go_managesieve.Server.Conn.State
use go_managesieve.Server.Conn.State.{
  Received, received, read_error, Event, wrote, flushed, delayed, called_auth, called_script,
  called_unknown, upgraded, command_done, timed_out, session_closed, conn_closed, Conn, Env, emit,
  write, write_line, ok_line, no_line, flush, request_close, set_error, apply_error_delay,
  count_error, client_error, plain_error, respond_error, session_error, auth_failure, read_line,
  read_body, copy_body,
}
use go_managesieve.Server.Conn.Capabilities.{
  write_if, write_extra, send_capability_block, send_greeting,
}
use go_managesieve.Server.Conn.Literals.{
  close_if, failed_read, BodyRead, complete, incomplete, line_behind, behind_body, read_literal,
  copy_literal, continuation, quota_max_size, script_body, script_continued, script_literal,
  read_script_argument, auth_body, read_auth_literal, Resolved, more_args, resolve_body,
  resolve_continued, resolve_last, resolve_from, resolve_literal_args, split_last,
}

-- The calls and the TLS upgrades of a trace, newest first.
abbrev pub calls : List Event → List Event
calls [] = []
calls (wrote x ∷ t) = calls t
calls (flushed x ∷ t) = calls t
calls (delayed x ∷ t) = calls t
calls (called_auth x ∷ t) = called_auth x ∷ calls t
calls (called_script x ∷ t) = called_script x ∷ calls t
calls (called_unknown ∷ t) = called_unknown ∷ calls t
calls (upgraded ∷ t) = upgraded ∷ calls t
calls (command_done x y ∷ t) = calls t
calls (timed_out x ∷ t) = calls t
calls (session_closed ∷ t) = calls t
calls (conn_closed ∷ t) = calls t

pub record View (S : Type 0) : Type 0 where
  pub authenticated : Bool
  pub is_tls : Bool
  pub hijacked : Bool
  pub session : S
  pub calls : List Event

abbrev pub view : {S : Type 0} → Conn S → View S
view c = record {
  authenticated = c.authenticated;
  is_tls = c.is_tls;
  hijacked = c.hijacked;
  session = c.session;
  calls = calls c.trace;
}

-- What is left to read of the connection that stands.
abbrev pub rest : {S : Type 0} → Conn S → ℕ
rest c = length (flat c.reader)

-- The second connection is the first behind code that leaves the view alone and only reads.
pub record Calm {S : Type 0} (c d : Conn S) : Type 0 where
  pub same_view : view d ≡ view c
  pub no_more : rest d ≤ rest c

module _ {S : Type 0} {c d : Conn S} where
  pub still : view d ≡ view c → d.reader ≡ c.reader → Calm c d
  still p q = record {
    same_view = p;
    no_more = subst (λ rd. length (flat rd) ≤ rest c) (sym q) (omega arith);
  }

infixr 40 ◌behind◌
pub ◌behind◌ : {S : Type 0} {c d e : Conn S} → Calm d e → Calm c d → Calm c e
q behind p = record {
  same_view = q.same_view ∙ p.same_view;
  no_more = omega (arith, q.no_more, p.no_more);
}

module _ {S : Type 0} where
  pub if-Calm :
      (b : Bool) (x y : Conn S) {c : Conn S} → Calm c x → Calm c y → Calm c (if b then x else y)
  if-Calm true x y h k = h
  if-Calm false x y h k = k

  pub write_line-Calm : (line : Bytes) (c : Conn S) → Calm c (write_line line c)
  unfolding write_line write emit
  write_line-Calm line c = still refl refl

  pub ok_line-Calm : (msg : Bytes) (c : Conn S) → Calm c (ok_line msg c)
  unfolding ok_line
  ok_line-Calm [] c = write_line-Calm _ c
  ok_line-Calm (x ∷ msg) c = write_line-Calm _ c

  pub no_line-Calm : (msg : Bytes) (c : Conn S) → Calm c (no_line msg c)
  unfolding no_line
  no_line-Calm [] c = write_line-Calm _ c
  no_line-Calm (x ∷ msg) c = write_line-Calm _ c

  pub flush-Calm : (c : Conn S) → Calm c (flush c).1
  unfolding flush emit
  flush-Calm c = still refl refl

  pub request_close-Calm : (c : Conn S) → Calm c (request_close c)
  unfolding request_close
  request_close-Calm c = still refl refl

  pub set_error-Calm : (e : Failure) (c : Conn S) → Calm c (set_error e c)
  unfolding set_error
  set_error-Calm e c = still refl refl

  pub close_if-Calm : (b : Bool) (c : Conn S) → Calm c (close_if b c)
  unfolding close_if
  close_if-Calm b c = if-Calm b _ _ (request_close-Calm c) (still refl refl)

  pub read_body-Calm : (n : ℕ) (c : Conn S) → Calm c (read_body n c).1
  unfolding read_body
  read_body-Calm n c = record { same_view = refl; no_more = read_full-le_length n c.reader }

  pub copy_body-Calm : (n : ℕ) (c : Conn S) → Calm c (copy_body n c).1
  unfolding copy_body
  copy_body-Calm n c = record { same_view = refl; no_more = read_full-le_length n c.reader }

  pub continuation-Calm : (b : Bool) (c : Conn S) → Calm c (continuation b c).1
  unfolding continuation
  continuation-Calm true c = still refl refl
  continuation-Calm false c = flush-Calm _ behind write_line-Calm _ c

module _ {S : Type 0} (env : Env S) where
  pub apply_error_delay-Calm : (c : Conn S) → Calm c (apply_error_delay env c)
  unfolding apply_error_delay emit
  apply_error_delay-Calm c =
      if-Calm (env.options.error_delay == 0) _ _ (still refl refl) (still refl refl)

  pub count_error-Calm : (c : Conn S) → Calm c (count_error env c)
  unfolding count_error
  count_error-Calm c = still refl refl

  pub client_error-Calm : (msg : Bytes) (c : Conn S) → Calm c (client_error env msg c)
  unfolding client_error count_error
  client_error-Calm msg c =
      no_line-Calm _ _ behind (apply_error_delay-Calm _ behind still refl refl)

  plain_error-Calm : (e : Failure) (c : Conn S) → Calm c (plain_error env e c)
  unfolding plain_error
  plain_error-Calm e c =
      if-Calm e.is_close _ _ (still refl refl behind no_line-Calm _ c)
        (if-Calm env.options.strict_session_errors _ _ (no_line-Calm _ c) (no_line-Calm _ c))

  respond_error-Calm :
      (o : Option Error) (e : Failure) (c : Conn S) → Calm c (respond_error env o e c)
  unfolding respond_error
  respond_error-Calm none e c = plain_error-Calm e c
  respond_error-Calm (some merr) e c = still refl refl behind no_line-Calm _ c

  pub session_error-Calm : (e : Failure) (c : Conn S) → Calm c (session_error env e c)
  unfolding session_error
  session_error-Calm e c = respond_error-Calm e.as_error e _ behind set_error-Calm e c

  pub auth_failure-Calm : (e : Failure) (c : Conn S) → Calm c (auth_failure env e c)
  unfolding auth_failure
  auth_failure-Calm e c =
      session_error-Calm e _
      behind apply_error_delay-Calm _
      behind if-Calm env.options.auth_failures_exempt _ _ (still refl refl) (count_error-Calm c)

  pub read_line-Calm : (c : Conn S) → Calm c (read_line env c).1
  unfolding read_line
  read_line-Calm c = record {
    same_view = refl;
    no_more =
        Took-le (rest c) (seen (read_bounded_line env.options.max_line_length c.reader))
          (read_bounded_line-Took env.options.max_line_length c.reader);
  }

  pub failed_read-Calm :
      (msg : Bytes) (e : Reader.ReadError) (c : Conn S) → Calm c (failed_read msg e c)
  unfolding failed_read
  failed_read-Calm msg e c = request_close-Calm _ behind no_line-Calm _ _ behind set_error-Calm _ c

  line_behind-Calm : (body : Bytes) (r : Received × Conn S) → Calm r.1 (line_behind body r).1
  unfolding line_behind
  line_behind-Calm body (received rest, c) = still refl refl
  line_behind-Calm body (read_error e, c) = still refl refl

  behind_body-Calm : (r : Received × Conn S) → Calm r.1 (behind_body env r).1
  unfolding behind_body
  behind_body-Calm (received body, c) = line_behind-Calm body _ behind read_line-Calm c
  behind_body-Calm (read_error e, c) = still refl refl

  pub read_literal-Calm : (n : ℕ) (c : Conn S) → Calm c (read_literal env n c).1
  unfolding read_literal
  read_literal-Calm n c = behind_body-Calm _ behind read_body-Calm n c

  pub copy_literal-Calm : (n : ℕ) (c : Conn S) → Calm c (copy_literal env n c).1
  unfolding copy_literal
  copy_literal-Calm n c = behind_body-Calm _ behind copy_body-Calm n c

  pub quota_max_size-Calm : (n : ℕ) (c : Conn S) → Calm c (quota_max_size env n c)
  unfolding quota_max_size
  quota_max_size-Calm n c = no_line-Calm _ _ behind set_error-Calm _ c
