-- ===== src/Server/Conn/Refinement/Rounds.antt =====
-- Rounds of the loop and whole connections run in the protocol.
use go_managesieve.Common.{
  ℕ, zero, suc, refl, Bool, true, false, not, ◌&&◌, ◌||◌, [], ◌∷◌, Option, none, some,
  if◌then◌else◌, Bytes,
}
use go_managesieve.Server.Parser.{tokens, unclosed_quote, out_of_fuel, Line, blank, command}
use go_managesieve.Server.Reader.{
  ReadError, timeout, line_too_long, missing_crlf, eof, unexpected_eof, broken,
}
use go_managesieve.Server.Conn.State.{
  Received, received, read_error, Conn, Env, emit, flush, max_errors_exceeded, read_line,
}
use go_managesieve.Server.Conn.Literals.{
  Resolved, resolved, rejected, unresolved, resolve_literal_args,
}
use go_managesieve.Server.Conn.Capabilities.{send_greeting}
use go_managesieve.Server.Conn.Serve.{
  Round, stops, goes_on, unfinished, farewell, flushed_round, close, clear_error, absolute,
  shutdown_bye, timeout_bye, failed_line, finish_round, run_command, resolved_round, parsed_round,
  trimmed_round, line_round, one_round, next_round, serve_from, greeted, serve,
}
use go_managesieve.Server.Conn.Quiet.{
  Calm, still, ◌behind◌, if-Calm, write_line-Calm, flush-Calm, set_error-Calm, client_error-Calm,
  read_line-Calm,
}
use go_managesieve.Server.Conn.Quiet.Literals.{resolve_literal_args-Calm, send_greeting-Calm}
use go_managesieve.Server.Conn.Refinement.{quiet_then, Run, then-Run, quiet, then_quiet}
use go_managesieve.Server.Conn.Refinement.Commands.{dispatch-Run}

module _ {S : Type 0} where
  farewell-Calm : (line : Bytes) (c : Conn S) → Calm c (farewell line c)
  unfolding farewell
  farewell-Calm line c = flush-Calm _ behind write_line-Calm line c

  close-Calm : (c : Conn S) → Calm c (close c)
  unfolding close emit
  close-Calm c = if-Calm c.hijacked _ _ (still refl refl) (still refl refl)

module _ {S : Type 0} (env : Env S) where
  -- The rounds that run in the protocol from a connection on, and the ends of serve.
  abbrev pub Lawful : Conn S → Round S → Type 0
  Lawful c (stops d) = Run env c d
  Lawful c (goes_on d) = Run env c d
  Lawful c unfinished = Unit {0}

  abbrev pub Ended : Conn S → Option (Conn S) → Type 0
  Ended c none = Unit {0}
  Ended c (some d) = Run env c d

  if-Lawful :
      (c : Conn S) (b : Bool) (x y : Round S)
      → Lawful c x
      → Lawful c y
      → Lawful c (if b then x else y)
  if-Lawful c true x y p q = p
  if-Lawful c false x y p q = q

  Run-Lawful : (c d : Conn S) (r : Round S) → Run env c d → Lawful d r → Lawful c r
  Run-Lawful c d (stops e) h k = then-Run h k
  Run-Lawful c d (goes_on e) h k = then-Run h k
  Run-Lawful c d unfinished h k = _

  Run-Ended : (c d : Conn S) (o : Option (Conn S)) → Run env c d → Ended d o → Ended c o
  Run-Ended c d none h k = _
  Run-Ended c d (some e) h k = then-Run h k

  flushed_round-Lawful :
      (c : Conn S) (quit : Bool) (r : Bool × Conn S)
      → Run env c r.1
      → Lawful c (flushed_round quit r)
  unfolding flushed_round
  flushed_round-Lawful c quit (false, d) h = h
  flushed_round-Lawful c quit (true, d) h = if-Lawful c quit (stops d) (goes_on d) h h

  shutdown_bye-Calm : (round : ℕ) (c : Conn S) → Calm c (shutdown_bye env round c)
  unfolding shutdown_bye emit
  shutdown_bye-Calm round c =
      if-Calm (absolute env round) _ _ (still refl refl behind farewell-Calm _ c)
        (farewell-Calm _ c)

  timeout_bye-Calm : (round : ℕ) (c : Conn S) → Calm c (timeout_bye env round c)
  unfolding timeout_bye emit
  timeout_bye-Calm round c =
      if-Calm (absolute env round) _ _ (still refl refl behind farewell-Calm _ c)
        (still refl refl behind farewell-Calm _ c)

  failed_line-Calm : (round : ℕ) (e : ReadError) (c : Conn S) → Calm c (failed_line env round e c)
  unfolding failed_line
  failed_line-Calm round timeout c = timeout_bye-Calm round c
  failed_line-Calm round line_too_long c = farewell-Calm _ c
  failed_line-Calm round missing_crlf c = farewell-Calm _ c
  failed_line-Calm round eof c = still refl refl
  failed_line-Calm round unexpected_eof c = still refl refl
  failed_line-Calm round broken c = still refl refl

  finish_round-Lawful :
      (c : Conn S) (r : Bool × Conn S) → Run env c r.1 → Lawful c (finish_round env r)
  unfolding finish_round
  finish_round-Lawful c (quit, d) h = if-Lawful c d.hijacked _ _ h (
      if-Lawful c (not (quit || d.close_pending) && max_errors_exceeded env d) _ _
        (flushed_round-Lawful c true _ (then_quiet h (flush-Calm _ behind write_line-Calm _ d)))
        (flushed_round-Lawful c _ _ (then_quiet h (flush-Calm d))))

  run_command-Calm : (cmd : Bytes) (r : Bool × Conn S) → Calm r.1 (run_command env cmd r).1
  unfolding run_command emit
  run_command-Calm cmd (quit, c) = still refl refl

  clear_error-Calm : (c : Conn S) → Calm c (clear_error c)
  unfolding clear_error
  clear_error-Calm c = still refl refl

  resolved_round-Lawful :
      (cmd : Bytes) (r : Resolved × Conn S) → Lawful r.1 (resolved_round env cmd r)
  unfolding resolved_round
  resolved_round-Lawful cmd (resolved args, c) = finish_round-Lawful c _ (
      then_quiet (quiet_then (clear_error-Calm c) (dispatch-Run env cmd args (clear_error c)))
        (run_command-Calm cmd _))
  resolved_round-Lawful cmd (rejected, c) = finish_round-Lawful c _ (quiet (still refl refl))
  resolved_round-Lawful cmd (unresolved, c) = _

  parsed_round-Lawful : (line : Line) (c : Conn S) → Lawful c (parsed_round env line c)
  unfolding parsed_round
  parsed_round-Lawful blank c = quiet (still refl refl)
  parsed_round-Lawful (command cmd unclosed_quote) c =
      finish_round-Lawful c _ (quiet (client_error-Calm env _ _ behind set_error-Calm _ c))
  parsed_round-Lawful (command [] (tokens args)) c = quiet (still refl refl)
  parsed_round-Lawful (command (x ∷ cmd) (tokens args)) c =
      Run-Lawful c _ (resolved_round env (x ∷ cmd) (resolve_literal_args env (x ∷ cmd) args c))
        (quiet (resolve_literal_args-Calm env (x ∷ cmd) args c))
        (resolved_round-Lawful (x ∷ cmd) (resolve_literal_args env (x ∷ cmd) args c))
  parsed_round-Lawful (command cmd out_of_fuel) c = _

  pub trimmed_round-Lawful : (line : Bytes) (c : Conn S) → Lawful c (trimmed_round env line c)
  unfolding trimmed_round
  trimmed_round-Lawful [] c = quiet (still refl refl)
  trimmed_round-Lawful (x ∷ line) c = parsed_round-Lawful _ c

  line_round-Lawful : (round : ℕ) (r : Received × Conn S) → Lawful r.1 (line_round env round r)
  unfolding line_round
  line_round-Lawful round (read_error e, c) = quiet (
      if-Calm (env.cancelled_after round) _ _ (shutdown_bye-Calm round c)
        (failed_line-Calm round e c))
  line_round-Lawful round (received line, c) = trimmed_round-Lawful _ c

  pub one_round-Lawful : (round : ℕ) (c : Conn S) → Lawful c (one_round env round c)
  unfolding one_round
  one_round-Lawful round c =
      if-Lawful c (env.cancelled_before round) _ _ (quiet (shutdown_bye-Calm round c)) (
        Run-Lawful c _ (line_round env round (read_line env c)) (quiet (read_line-Calm env c))
          (line_round-Lawful round (read_line env c)))

  next_round-Ended :
      (again : Conn S → Option (Conn S))
      → ((d : Conn S) → Ended d (again d))
      → (c : Conn S) (r : Round S) → Lawful c r
      → Ended c (next_round env again r)
  unfolding next_round
  next_round-Ended again f c (stops d) h = then_quiet h (close-Calm d)
  next_round-Ended again f c (goes_on d) h = Run-Ended c d (again d) h (f d)
  next_round-Ended again f c unfinished h = _

  serve_from-Ended : (fuel round : ℕ) (c : Conn S) → Ended c (serve_from env fuel round c)
  unfolding serve_from
  serve_from-Ended zero round c = _
  serve_from-Ended (suc fuel) round c =
      next_round-Ended (serve_from env fuel (suc round)) (serve_from-Ended fuel (suc round)) c
        (one_round env round c) (one_round-Lawful round c)

  greeted-Ended : (fuel : ℕ) (r : Bool × Conn S) → Ended r.1 (greeted env fuel r)
  unfolding greeted
  greeted-Ended fuel (false, c) = quiet (close-Calm c)
  greeted-Ended fuel (true, c) = serve_from-Ended fuel 0 c

  pub serve-Ended : (fuel : ℕ) (c : Conn S) → Ended c (serve env fuel c)
  unfolding serve
  serve-Ended fuel c =
      Run-Ended c _ (greeted env fuel (flush (send_greeting env c)))
        (quiet (flush-Calm _ behind send_greeting-Calm env c))
        (greeted-Ended fuel (flush (send_greeting env c)))
