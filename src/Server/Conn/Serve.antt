-- ===== src/Server/Conn/Serve.antt =====
-- The command loop: serve, shutdownBye and close.
use go_managesieve.Common.{
  ℕ, zero, suc, Bool, true, false, not, ◌&&◌, ◌||◌, [], ◌∷◌, Option, none, some, Bytes, codes,
  if◌then◌else◌,
}
use go_managesieve.Text.Space.{trim_space}
use go_managesieve.Server.Parser.{
  tokens, unclosed_quote, out_of_fuel, Line, blank, command, parse_line,
}
use go_managesieve.Server.Reader.{
  ReadError, timeout, line_too_long, missing_crlf, eof, unexpected_eof, broken,
}
use go_managesieve.Server.Errors.{plain_failure}
use go_managesieve.Server.Conn.State.{
  Received, received, read_error, command_done, timed_out, session_closed, conn_closed, Conn, Env,
  emit, write_line, flush, set_error, client_error, max_errors_exceeded, read_line,
}
use go_managesieve.Server.Conn.Capabilities.{send_greeting}
use go_managesieve.Server.Conn.Literals.{
  Resolved, resolved, rejected, unresolved, resolve_literal_args,
}
use go_managesieve.Server.Conn.Dispatch.{dispatch}

-- A round of the loop: the connection is to be closed, or the loop goes on.
pub data Round (S : Type 0) : Type 0 where
  stops : Conn S → Round S
  goes_on : Conn S → Round S
  unfinished : Round S

module _ {S : Type 0} where
  unfoldable pub farewell : Bytes → Conn S → Conn S
  farewell line c = let (done, c') = flush (write_line line c) in c'

  unfoldable pub flushed_round : Bool → Bool × Conn S → Round S
  flushed_round quit (false, c) = stops c
  flushed_round quit (true, c) = if quit then stops c else goes_on c

  -- `close`, deferred by serve: the session is closed, and the connection unless it was hijacked.
  unfoldable pub close : Conn S → Conn S
  close c = let c' = emit session_closed c in if c'.hijacked then c' else emit conn_closed c'

  unfoldable pub clear_error : Conn S → Conn S
  clear_error c = record c { last_err = none }

module _ {S : Type 0} (env : Env S) where
  open env use {options}

  abbrev maximum_duration : Bytes
  maximum_duration = codes "BYE (TRYLATER) \"Maximum session duration exceeded, please reconnect\""

  abbrev idle_timeout : Bytes
  idle_timeout = codes "BYE (TRYLATER) \"Connection timed out due to inactivity, please reconnect\""

  abbrev shutting_down : Bytes
  shutting_down = codes "BYE (TRYLATER) \"Server shutting down, please reconnect\""

  unfoldable pub absolute : ℕ → Bool
  absolute round = options.absolute_session_timeout && env.absolute_passed round

  unfoldable pub shutdown_bye : ℕ → Conn S → Conn S
  shutdown_bye round c =
      if absolute round
      then emit (timed_out true) (farewell maximum_duration c)
      else farewell shutting_down c

  unfoldable pub timeout_bye : ℕ → Conn S → Conn S
  timeout_bye round c =
      if absolute round
      then emit (timed_out true) (farewell maximum_duration c)
      else emit (timed_out false) (farewell idle_timeout c)

  unfoldable pub failed_line : ℕ → ReadError → Conn S → Conn S
  failed_line round timeout c = timeout_bye round c
  failed_line round line_too_long c = farewell (codes "NO \"Command line too long\"") c
  failed_line round missing_crlf c = farewell (codes "NO \"Command line must end with CRLF\"") c
  failed_line round eof c = c
  failed_line round unexpected_eof c = c
  failed_line round broken c = c

  -- The central enforcement behind a command, and the flush of its response.
  unfoldable pub finish_round : Bool × Conn S → Round S
  finish_round (quit, c) =
      if c.hijacked
      then stops c
      else if not (quit || c.close_pending) && max_errors_exceeded env c
      then flushed_round true
          (flush (write_line (codes "BYE \"Too many errors, closing connection\"") c))
      else flushed_round (quit || c.close_pending) (flush c)

  unfoldable pub run_command : Bytes → Bool × Conn S → Bool × Conn S
  run_command cmd (quit, c) = (quit, emit (command_done cmd c.last_err) c)

  unfoldable pub resolved_round : Bytes → Resolved × Conn S → Round S
  resolved_round cmd (resolved args, c) =
      finish_round (run_command cmd (dispatch env cmd args (clear_error c)))
  resolved_round cmd (rejected, c) = finish_round (false, c)
  resolved_round cmd (unresolved, c) = unfinished

  unfoldable pub parsed_round : Line → Conn S → Round S
  parsed_round blank c = goes_on c
  parsed_round (command cmd unclosed_quote) c = finish_round (
    false,
    client_error env (codes "Invalid command syntax: unclosed quote in command arguments")
        (set_error (plain_failure (codes "unclosed quote in command arguments")) c),
  )
  parsed_round (command [] (tokens args)) c = goes_on c
  parsed_round (command (x ∷ cmd) (tokens args)) c =
      resolved_round (x ∷ cmd) (resolve_literal_args env (x ∷ cmd) args c)
  parsed_round (command cmd out_of_fuel) c = unfinished

  unfoldable pub trimmed_round : Bytes → Conn S → Round S
  trimmed_round [] c = goes_on c
  trimmed_round (x ∷ line) c = parsed_round (parse_line env.upper_rune (x ∷ line)) c

  unfoldable pub line_round : ℕ → Received × Conn S → Round S
  line_round round (read_error e, c) =
      stops (if env.cancelled_after round then shutdown_bye round c else failed_line round e c)
  line_round round (received line, c) = trimmed_round (trim_space line) c

  unfoldable pub one_round : ℕ → Conn S → Round S
  one_round round c =
      if env.cancelled_before round
      then stops (shutdown_bye round c)
      else line_round round (read_line env c)

  -- The loop, with the number of the round; `none` means that the fuel ran out.
  unfoldable pub next_round : (Conn S → Option (Conn S)) → Round S → Option (Conn S)
  next_round again (stops c) = some (close c)
  next_round again (goes_on c) = again c
  next_round again unfinished = none

  unfoldable pub serve_from : ℕ → ℕ → Conn S → Option (Conn S)
  serve_from zero round c = none
  serve_from (suc fuel) round c = next_round (serve_from fuel (suc round)) (one_round round c)

  unfoldable pub greeted : ℕ → Bool × Conn S → Option (Conn S)
  greeted fuel (false, c) = some (close c)
  greeted fuel (true, c) = serve_from fuel 0 c

  unfoldable pub serve : ℕ → Conn S → Option (Conn S)
  serve fuel c = greeted fuel (flush (send_greeting env c))
