-- ===== src/Server/Conn/State.antt =====
-- The state of a connection (type Conn of managesieveserver/conn.go), what it does to the outside, and
-- the helpers that every handler uses.
use go_managesieve.Common.{
  ℕ, ◌+◌, ◌*◌, ◌%◌, ◌^◌, Bool, true, false, not, ◌&&◌, ◌||◌, List, [], ◌∷◌, ◌++◌, Option, none,
  some, Bytes, codes, ltb, leb, ◌==◌, if◌then◌else◌,
}
use go_managesieve.Wire.{quote, sanitize_text}
use go_managesieve.Server.Reader.{
  ReadError, broken, Reader, LineResult, got, refused, out_of_fuel, read_bounded_line,
}
use go_managesieve.Server.Reader.Full.{read_full}
use go_managesieve.Server.Errors.{Error, Failure, failure, wire_message, strip_crlf}
use go_managesieve.Server.Options.{Options}
use go_managesieve.Server.Session.{Session}

-- A read that came to its end, or its error.
pub data Received : Type 0 where
  received : Bytes → Received
  read_error : ReadError → Received

-- The fuel of a read does not run out, so the last clause is not reached.
abbrev pub settled : LineResult → Received
settled (got line) = received line
settled (refused e) = read_error e
settled out_of_fuel = read_error broken

-- The methods of the session that work on scripts.
pub data ScriptCall : Type 0 where
  list_scripts get_script put_script check_script : ScriptCall
  set_active delete_script rename_script have_space : ScriptCall

-- What the connection does to its surroundings. An authentication is recorded with its success.
pub data Event : Type 0 where
  wrote : Bytes → Event
  flushed : Bool → Event
  delayed : ℕ → Event
  called_auth : Bool → Event
  called_script : ScriptCall → Event
  called_unknown : Event
  upgraded : Event
  -- the OnCommand hook, with the verb and the error
  command_done : Bytes → Option Failure → Event
  -- the OnTimeout hook; true for the absolute timeout
  timed_out : Bool → Event
  session_closed : Event
  conn_closed : Event

pub record Conn (S : Type 0) : Type 0 where
  pub reader : Reader
  -- newest first
  pub trace : List Event
  -- how the coming flushes end; past the end they succeed
  pub flushes : List Bool
  pub write_failed : Bool
  pub authenticated : Bool
  pub error_count : ℕ
  pub is_tls : Bool
  pub hijacked : Bool
  pub close_pending : Bool
  pub last_err : Option Failure
  pub session : S

-- What a connection runs in: the options, the session's methods, unicode.ToUpper beyond ASCII, and the
-- TLS handshake, which fails or gives the stream of the client behind it, and the clock.
pub record Env (S : Type 0) : Type 0 where
  pub options : Options
  pub methods : Session S
  pub upper_rune : ℕ → ℕ
  pub handshake : Option Reader
  -- in each round of the command loop: whether the context is done before the line is read, whether it
  -- is done when reading it failed, and whether the absolute session time has passed
  pub cancelled_before : ℕ → Bool
  pub cancelled_after : ℕ → Bool
  pub absolute_passed : ℕ → Bool

unfoldable pub next_flush : List Bool → Bool
next_flush [] = true
next_flush (b ∷ bs) = b

unfoldable pub later_flushes : List Bool → List Bool
later_flushes [] = []
later_flushes (b ∷ bs) = bs

unfoldable pub default_error : Failure → Option Failure → Option Failure
default_error e none = some e
default_error e (some f) = some f

module _ {S : Type 0} where
  unfoldable pub emit : Event → Conn S → Conn S
  emit e c = record c { trace = e ∷ c.trace }

  unfoldable pub write : Bytes → Conn S → Conn S
  write text c = emit (wrote text) c

  unfoldable pub write_line : Bytes → Conn S → Conn S
  write_line line c = write (line ++ codes "\r\n") c

  unfoldable pub ok_line : Bytes → Conn S → Conn S
  ok_line [] c = write_line (codes "OK") c
  ok_line (x ∷ msg) c = write_line (codes "OK " ++ strip_crlf (x ∷ msg)) c

  unfoldable pub no_line : Bytes → Conn S → Conn S
  no_line [] c = write_line (codes "NO") c
  no_line (x ∷ msg) c = write_line (codes "NO " ++ strip_crlf (x ∷ msg)) c

  -- bufio.Writer's Flush: an error stays.
  unfoldable pub flush : Conn S → Bool × Conn S
  flush c =
      let done = not c.write_failed && next_flush c.flushes in
      (
        done,
        emit (flushed done)
            (record c { flushes = later_flushes c.flushes; write_failed = not done }),
      )

  unfoldable pub request_close : Conn S → Conn S
  request_close c = record c { close_pending = true }

  unfoldable pub set_error : Failure → Conn S → Conn S
  set_error e c = record c { last_err = some e }

module _ {S : Type 0} (env : Env S) where
  open env use {options}

  -- The progressive delay, in int64 nanoseconds; a product beyond them is negative, and such a timer
  -- fires at once.
  unfoldable pub error_delay_of : ℕ → ℕ
  error_delay_of count =
      let d = (count * options.error_delay) % 2 ^ 64 in
      if leb (2 ^ 63) d
      then 0
      else if ltb 0 options.max_error_delay && ltb options.max_error_delay d
      then options.max_error_delay
      else d

  unfoldable pub apply_error_delay : Conn S → Conn S
  apply_error_delay c =
      if options.error_delay == 0 then c else emit (delayed (error_delay_of c.error_count)) c

  unfoldable pub count_error : Conn S → Conn S
  count_error c = record c { error_count = c.error_count + 1 }

  unfoldable pub client_error : Bytes → Conn S → Conn S
  client_error msg c =
      let counted = count_error c in
      let e = failure env.upper_rune (record { code = []; message = msg; close = false }) in
      let recorded = record counted { last_err = default_error e counted.last_err } in
      no_line (quote (sanitize_text msg)) (apply_error_delay recorded)

  unfoldable pub plain_error : Failure → Conn S → Conn S
  plain_error e c =
      if e.is_close
      then record (no_line (codes "\"internal error\"") c) { close_pending = true }
      else if options.strict_session_errors
      then no_line (codes "\"internal error\"") c
      else no_line e.text c

  unfoldable pub respond_error : Option Error → Failure → Conn S → Conn S
  respond_error none e c = plain_error e c
  respond_error (some merr) e c =
      let answered = no_line (wire_message env.upper_rune merr) c in
      record answered { close_pending = answered.close_pending || merr.close }

  unfoldable pub session_error : Failure → Conn S → Conn S
  session_error e c = respond_error e.as_error e (set_error e c)

  unfoldable pub auth_failure : Failure → Conn S → Conn S
  auth_failure e c =
      session_error e
        (apply_error_delay (if options.auth_failures_exempt then c else count_error c))

  unfoldable pub max_errors_exceeded : Conn S → Bool
  max_errors_exceeded c = ltb 0 options.max_errors && leb options.max_errors c.error_count

  unfoldable pub read_line : Conn S → Received × Conn S
  read_line c =
      let (result, reader) = read_bounded_line options.max_line_length c.reader in
      (settled result, record c { reader = reader })

unfoldable pub read_body : {S : Type 0} → ℕ → Conn S → Received × Conn S
read_body n c =
    let (result, reader) = read_full n c.reader in (settled result, record c { reader = reader })

-- io.CopyN of a body that comes short gives the error of the stream itself, EOF included.
unfoldable pub copied : ReadError → LineResult → LineResult
copied ending (refused e) = refused ending
copied ending (got body) = got body
copied ending out_of_fuel = out_of_fuel

unfoldable pub copy_body : {S : Type 0} → ℕ → Conn S → Received × Conn S
copy_body n c =
    let (result, reader) = read_full n c.reader in
    (settled (copied c.reader.ending result), record c { reader = reader })
