-- ===== src/Server/Conn/Literals.antt =====
-- Literal arguments: literalDeferred, resolveLiteralArgs, readScriptArgument and readAuthLiteral.
use go_managesieve.Common.{
  ℕ, zero, suc, Bool, true, false, ◌&&◌, ◌||◌, List, [], ◌∷◌, ◌++◌, Option, none, some, Bytes,
  codes, bytes_eq, ltb, ◌==◌, if◌then◌else◌, length,
}
use go_managesieve.Text.Decimal.{decimal}
use go_managesieve.Text.Space.{trim_space}
use go_managesieve.Wire.{quote}
use go_managesieve.Server.Parser.{
  Tokens, tokens, unclosed_quote, out_of_fuel, parse_tokens, unquote_string, Literal, not_literal,
  literal, bad_literal, literal_length,
}
use go_managesieve.Server.Reader.{
  ReadError, eof, unexpected_eof, timeout, broken, line_too_long, missing_crlf, flat,
}
use go_managesieve.Server.Errors.{Error, Failure, failure, plain_failure, wire_message}
use go_managesieve.Server.Conn.State.{
  Received, received, read_error, Conn, Env, write_line, no_line, flush, request_close, set_error,
  client_error, read_line, read_body, copy_body,
}

unfoldable pub literal_deferred : Bytes → ℕ → Bool
literal_deferred cmd idx =
    if bytes_eq cmd (codes "PUTSCRIPT") || bytes_eq cmd (codes "AUTHENTICATE")
    then idx == 1
    else if bytes_eq cmd (codes "CHECKSCRIPT")
    then idx == 0
    else false

-- The text of a read error.
unfoldable pub error_text : ReadError → Bytes
error_text eof = codes "EOF"
error_text unexpected_eof = codes "unexpected EOF"
error_text timeout = codes "i/o timeout"
error_text broken = codes "read failed"
error_text line_too_long = codes "managesieveserver: line too long"
error_text missing_crlf = codes "managesieveserver: line not terminated by CRLF"

abbrev pub read_failure : ReadError → Failure
read_failure e = plain_failure (error_text e)

module _ {S : Type 0} where
  unfoldable pub pending_bytes : Conn S → Bool
  pending_bytes c = ltb 0 (length c.reader.buffered)

  unfoldable pub close_if : Bool → Conn S → Conn S
  close_if b c = if b then request_close c else c

  -- The response to a literal that could not be read.
  unfoldable pub failed_read : Bytes → ReadError → Conn S → Conn S
  failed_read msg e c = request_close (no_line msg (set_error (read_failure e) c))

-- A body with the line behind it, or the error of the read that failed.
pub data BodyRead : Type 0 where
  complete : Bytes → Bytes → BodyRead
  incomplete : ReadError → BodyRead

module _ {S : Type 0} where
  unfoldable pub line_behind : Bytes → Received × Conn S → BodyRead × Conn S
  line_behind body (received rest, c) = (complete body rest, c)
  line_behind body (read_error e, c) = (incomplete e, c)

  -- The `+` continuation of a synchronizing literal; false if it could not be sent.
  unfoldable pub continuation : Bool → Conn S → Bool × Conn S
  continuation true c = (true, c)
  continuation false c = flush (write_line (codes "+") c)

  unfoldable pub script_body : BodyRead × Conn S → Option Bytes × Conn S
  script_body (complete body rest, c) = (some body, c)
  script_body (incomplete e, c) =
      (none, failed_read (codes "\"Failed to read literal string content\"") e c)

  unfoldable pub auth_body : BodyRead × Conn S → Option Bytes × Conn S
  auth_body (complete body rest, c) = (some body, c)
  auth_body (incomplete e, c) = (none, failed_read (codes "\"Authentication failed\"") e c)

module _ {S : Type 0} (env : Env S) where
  open env use {options}

  unfoldable pub behind_body : Received × Conn S → BodyRead × Conn S
  behind_body (received body, c) = line_behind body (read_line env c)
  behind_body (read_error e, c) = (incomplete e, c)

  -- The body of a literal and the line behind it.
  unfoldable pub read_literal : ℕ → Conn S → BodyRead × Conn S
  read_literal n c = behind_body (read_body n c)

  -- The same of readScriptArgument, with io.CopyN.
  unfoldable pub copy_literal : ℕ → Conn S → BodyRead × Conn S
  copy_literal n c = behind_body (copy_body n c)

  unfoldable pub quota_max_size : ℕ → Conn S → Conn S
  quota_max_size size c =
      let e : Error = record {
        code = codes "QUOTA/MAXSIZE";
        message =
            codes "Script size "
            ++ (decimal size
                ++ (codes " exceeds maximum allowed size " ++ decimal options.max_script_size));
        close = false;
      } in
      no_line (wire_message env.upper_rune e) (set_error (failure env.upper_rune e) c)

  unfoldable pub script_continued : ℕ → Bool × Conn S → Option Bytes × Conn S
  script_continued n (true, c) = script_body (copy_literal n c)
  script_continued n (false, c) = (none, request_close c)

  unfoldable pub script_literal : Bytes → Literal → Conn S → Option Bytes × Conn S
  script_literal arg not_literal c = (some (unquote_string arg), c)
  script_literal arg (bad_literal non_sync) c =
      (none, close_if non_sync (client_error env (codes "Invalid literal string length") c))
  script_literal arg (literal n non_sync) c =
      if ltb 0 options.max_script_size && ltb options.max_script_size n
      then (none, close_if (non_sync || pending_bytes c) (quota_max_size n c))
      else script_continued n (continuation non_sync c)

  -- The content of PUTSCRIPT and CHECKSCRIPT; none if it is refused, or the client is lost.
  unfoldable pub read_script_argument : Bytes → Conn S → Option Bytes × Conn S
  read_script_argument arg c = script_literal arg (literal_length arg) c

  unfoldable pub read_auth_literal : ℕ → Conn S → Option Bytes × Conn S
  read_auth_literal n c = auth_body (read_literal n c)

-- The outcome of resolveLiteralArgs: the arguments, or they are refused.
pub data Resolved : Type 0 where
  resolved : List Bytes → Resolved
  rejected : Resolved
  unresolved : Resolved

-- The last argument and those before it.
unfoldable pub split_last : Bytes → List Bytes → List Bytes × Bytes
split_last x [] = ([], x)
split_last x (y ∷ ys) = let (front, last) = split_last y ys in (x ∷ front, last)

module _ {S : Type 0} (env : Env S) where
  open env use {options}

  -- The tokens behind a body go on as arguments.
  unfoldable pub more_args :
      (List Bytes → Conn S → Resolved × Conn S) → List Bytes → Tokens → Conn S → Resolved × Conn S
  more_args again args (tokens more) c = again (args ++ more) c
  more_args again args unclosed_quote c = (
    rejected,
    client_error env (codes "Invalid command syntax: unclosed quote in command arguments")
        (set_error (plain_failure (codes "unclosed quote in command arguments")) c),
  )
  more_args again args out_of_fuel c = (unresolved, c)

  unfoldable pub resolve_body :
      (List Bytes → Conn S → Resolved × Conn S) → List Bytes → BodyRead × Conn S → Resolved × Conn S
  resolve_body again front (complete body rest, c) =
      more_args again (front ++ quote body ∷ []) (parse_tokens (trim_space rest)) c
  resolve_body again front (incomplete e, c) =
      (rejected, failed_read (codes "\"Failed to read literal argument\"") e c)

  unfoldable pub resolve_continued :
      (List Bytes → Conn S → Resolved × Conn S) → List Bytes → ℕ → Bool × Conn S → Resolved × Conn S
  resolve_continued again front n (true, c) = resolve_body again front (read_literal env n c)
  resolve_continued again front n (false, c) = (rejected, request_close c)

  unfoldable pub resolve_last :
      (List Bytes → Conn S → Resolved × Conn S)
      → Bytes
      → List Bytes
      → List Bytes × Bytes
      → Literal
      → Conn S
      → Resolved × Conn S
  resolve_last again cmd args (front, last) not_literal c = (resolved args, c)
  resolve_last again cmd args (front, last) (bad_literal non_sync) c =
      if literal_deferred cmd (length front) then (resolved args, c) else (
        rejected,
        close_if non_sync (client_error env (codes "Invalid literal string length") c),
      )
  resolve_last again cmd args (front, last) (literal n non_sync) c =
      if literal_deferred cmd (length front)
      then (resolved args, c)
      else if ltb options.max_line_length n
      then (let refused = client_error env (codes "Literal argument too large") c in
          (rejected, close_if (non_sync || pending_bytes refused) refused))
      else resolve_continued again front n (continuation non_sync c)

  -- The loop; a round that goes on has read a line.
  unfoldable pub resolve_from : ℕ → Bytes → List Bytes → Conn S → Resolved × Conn S
  resolve_from zero cmd args c = (unresolved, c)
  resolve_from (suc fuel) cmd [] c = (resolved [], c)
  resolve_from (suc fuel) cmd (a ∷ args) c =
      let (front, last) = split_last a args in
      resolve_last (resolve_from fuel cmd) cmd (a ∷ args) (front, last) (literal_length last) c

  unfoldable pub resolve_literal_args : Bytes → List Bytes → Conn S → Resolved × Conn S
  resolve_literal_args cmd args c = resolve_from (suc (length (flat c.reader))) cmd args c
