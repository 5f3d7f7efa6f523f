-- ===== src/Server/Conn/Auth.antt =====
-- AUTHENTICATE, LOGIN, STARTTLS and Hijack.
use go_managesieve.Common.{
  Bool, true, false, not, ◌||◌, List, [], ◌∷◌, Option, none, some, Bytes, codes, bytes_eq, ltb,
  if◌then◌else◌,
}
use go_managesieve.Text.Utf8.{to_upper}
use go_managesieve.Text.Base64.{decode_base64}
use go_managesieve.Text.Space.{trim_space}
use go_managesieve.Text.Search.{split}
use go_managesieve.Server.Parser.{
  unquote_string, Literal, not_literal, literal, bad_literal, literal_length,
}
use go_managesieve.Server.Reader.{Reader}
use go_managesieve.Server.Errors.{failure, plain_failure}
use go_managesieve.Server.Session.{succeeds, Reply, returns, fails, AuthReply}
use go_managesieve.Server.Conn.State.{
  Received, received, read_error, called_auth, upgraded, Conn, Env, emit, write_line, no_line,
  flush, request_close, set_error, client_error, auth_failure, read_line,
}
use go_managesieve.Server.Conn.Capabilities.{auth_allowed, send_greeting}
use go_managesieve.Server.Conn.Literals.{pending_bytes, failed_read, read_auth_literal}

module _ {S : Type 0} where
  unfoldable pub take_over : Bool × Conn S → Conn S
  take_over (true, c) = record c { hijacked = true }
  take_over (false, c) = c

  -- Conn.Hijack, called from within an authenticating method.
  unfoldable pub hijack : Conn S → Conn S
  hijack c = if c.authenticated || c.hijacked then c else take_over (flush c)

  unfoldable pub hijack_if : Bool → Conn S → Conn S
  hijack_if b c = if b then hijack c else c

module _ {S : Type 0} (env : Env S) where
  open env use {options}

  unfoldable pub authenticated_as : Reply (Unit {0}) → Conn S → Conn S
  authenticated_as (fails e) c = auth_failure env e c
  authenticated_as (returns _) c =
      if c.hijacked
      then c
      else write_line (codes "OK \"Authenticated\"") (record c { authenticated = true })

  -- Behind the call of the session's method.
  unfoldable pub auth_called : AuthReply × S → Conn S → Conn S
  auth_called (r, s) c =
      authenticated_as r.reply
        (hijack_if r.hijack (emit (called_auth (succeeds r.reply)) (record c { session = s })))

  unfoldable pub plain_credentials : List Bytes → Conn S → Conn S
  plain_credentials (authz ∷ authn ∷ [] ∷ []) c =
      auth_failure env
        (failure env.upper_rune
          (record { code = []; message = codes "\"Authentication failed\""; close = false }))
        c
  plain_credentials (authz ∷ authn ∷ (p ∷ password) ∷ []) c =
      auth_called (env.methods.authenticate_plain authz authn (p ∷ password) c.session) c
  plain_credentials _ c = client_error env (codes "Invalid authentication format") c

  -- The text of the decoder's error names a position, which is left out here.
  unfoldable pub auth_decoded : Option Bytes → Conn S → Conn S
  auth_decoded none c =
      client_error env (codes "Invalid authentication data")
        (set_error (plain_failure (codes "illegal base64 data")) c)
  auth_decoded (some decoded) c = plain_credentials (split 0 decoded) c

  unfoldable pub auth_data : Option Bytes × Conn S → Conn S
  auth_data (none, c) = c
  auth_data (some text, c) = auth_decoded (decode_base64 text) c

  -- An initial or a continued response: a literal within the bound, or a string.
  unfoldable pub auth_argument : Bytes → Literal → Conn S → Option Bytes × Conn S
  auth_argument arg not_literal c = (some (unquote_string arg), c)
  auth_argument arg (bad_literal non_sync) c =
      (none, request_close (client_error env (codes "Invalid literal size") c))
  auth_argument arg (literal n non_sync) c =
      if ltb options.max_auth_literal n
      then (none, request_close (client_error env (codes "Invalid literal size") c))
      else read_auth_literal env n c

  unfoldable pub auth_line : Received × Conn S → Option Bytes × Conn S
  auth_line (read_error e, c) = (none, failed_read (codes "\"Authentication failed\"") e c)
  auth_line (received line, c) =
      let text = trim_space line in
      if bytes_eq text (codes "*")
      then (
        none,
        no_line (codes "\"Authentication cancelled\"") (
            set_error
              (failure env.upper_rune
                (record { code = []; message = codes "Authentication cancelled"; close = false }))
              c),
      )
      else auth_argument text (literal_length text) c

  unfoldable pub auth_continued : Bool × Conn S → Option Bytes × Conn S
  auth_continued (false, c) = (none, request_close c)
  auth_continued (true, c) = auth_line (read_line env c)

  unfoldable pub auth_response : List Bytes → Conn S → Option Bytes × Conn S
  auth_response [] c = auth_continued (flush (write_line (codes "\"\"") c))
  auth_response (arg ∷ _) c = auth_argument arg (literal_length arg) c

  insecure : Bytes
  insecure = codes "Authentication not permitted on insecure connection. Use STARTTLS first."

  unfoldable pub auth_mechanism : List Bytes → Conn S → Conn S
  unfolding insecure
  auth_mechanism [] c = client_error env (codes "Syntax: AUTHENTICATE mechanism") c
  auth_mechanism (mechanism ∷ args) c =
      if not (auth_allowed env c)
      then client_error env insecure c
      else if not (bytes_eq (to_upper env.upper_rune (unquote_string mechanism)) (codes "PLAIN"))
      then client_error env (codes "Unsupported authentication mechanism") c
      else auth_data (auth_response args c)

  unfoldable pub handle_authenticate : List Bytes → Conn S → Conn S
  handle_authenticate args c =
      if c.authenticated
      then client_error env (codes "Already authenticated") c
      else auth_mechanism args c

  unfoldable pub login_args : (Bytes → Bytes → S → AuthReply × S) → List Bytes → Conn S → Conn S
  login_args login (username ∷ password ∷ _) c =
      auth_called (login (unquote_string username) (unquote_string password) c.session) c
  login_args login _ c = client_error env (codes "Syntax: LOGIN address password") c

  unfoldable pub handle_login : (Bytes → Bytes → S → AuthReply × S) → List Bytes → Conn S → Conn S
  unfolding insecure
  handle_login login args c =
      if c.authenticated
      then client_error env (codes "Already authenticated") c
      else if not (auth_allowed env c)
      then client_error env insecure c
      else login_args login args c

  unfoldable pub tls_handshake : Option Reader → Conn S → Bool × Conn S
  tls_handshake none c = (true, set_error (plain_failure (codes "handshake failed")) c)
  tls_handshake (some reader) c = (
    false,
    send_greeting env
        (emit upgraded (record c { reader = reader; is_tls = true; write_failed = false })),
  )

  unfoldable pub tls_announced : Bool × Conn S → Bool × Conn S
  tls_announced (false, c) = (true, c)
  tls_announced (true, c) = tls_handshake env.handshake c

  -- The flag of the result asks for the connection to be closed.
  unfoldable pub handle_start_tls : Conn S → Bool × Conn S
  handle_start_tls c =
      if not options.tls_config
      then (false, client_error env (codes "STARTTLS not supported") c)
      else if c.is_tls
      then (false, client_error env (codes "TLS already active") c)
      else if c.authenticated
      then (false, client_error env (codes "STARTTLS not permitted after authentication") c)
      else if pending_bytes c
      then (
        true,
        no_line (codes "\"Pipelined data after STARTTLS is not allowed\"")
            (set_error (plain_failure (codes "pipelined data after STARTTLS")) c),
      )
      else tls_announced (flush (write_line (codes "OK \"Begin TLS negotiation\"") c))
