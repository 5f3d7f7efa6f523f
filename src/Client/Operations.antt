-- ===== src/Client/Operations.antt =====
-- The operations of the client (managesieveclient/client.go): NewClient, Capability,
-- AuthenticatePlain, Cmd, Logout, startTLS and the accessors.
use go_managesieve.Common.{
  ℕ, Bool, true, false, not, ◌&&◌, List, [], ◌∷◌, ◌++◌, Option, none, some, Bytes, codes, ◌==◌,
  if◌then◌else◌, Deadlines, fresh_deadlines,
}
use go_managesieve.Text.Base64.{encode_base64}
use go_managesieve.Wire.{quote}
use go_managesieve.Server.Reader.{Reader}
use go_managesieve.Client.Responses.{is_ok}
use go_managesieve.Client.State.{
  Context, set_conn_deadline, ClientError, protocol_error, handshake_failed, Client, LineReply,
  response, no_response, read_response, write_cmd, read_capability_block,
}

-- A limit of 0, or below it in Go, stands for the default.
pub record ClientOptions : Type 0 where
  pub tls_config : Bool
  pub start_tls : Bool
  pub max_line_length : ℕ
  pub max_capability_lines : ℕ

unfoldable pub limit_or : ℕ → ℕ → ℕ
limit_or default limit = if limit == 0 then default else limit

-- The end of an operation that wants an OK.
unfoldable pub expect_ok : LineReply × Client → Option ClientError × Client
expect_ok (no_response e, c) = (some e, c)
expect_ok (response line, c) = (if is_ok line then none else some (protocol_error line), c)

-- What stands behind a write that succeeded.
unfoldable pub after_write {ℓ} :
    {A : Type ℓ}
    → (ClientError → A)
    → (Client → A × Client)
    → Option ClientError × Client
    → A × Client
after_write refuse more (some e, c) = (refuse e, c)
after_write refuse more (none, c) = more c

unfoldable pub cmd : Context → Bytes → Client → LineReply × Client
unfolding after_write
cmd ctx line c = after_write no_response (read_response ctx) (write_cmd ctx line c)

unfoldable pub logout : Context → Client → Option ClientError × Client
logout ctx c = expect_ok (cmd ctx (codes "LOGOUT") c)

abbrev pub plain_payload : Bytes → Bytes → Bytes → Bytes
plain_payload identity username password = identity ++ 0 ∷ (username ++ 0 ∷ password)

unfoldable pub plain_command : Bytes → Bytes → Bytes → Bytes
plain_command identity username password =
    codes "AUTHENTICATE \"PLAIN\" "
    ++ quote (encode_base64 (plain_payload identity username password))

unfoldable pub authenticate : Context → Bytes → Bytes → Bytes → Client → Option ClientError × Client
unfolding plain_command expect_ok after_write
authenticate ctx identity username password c =
    after_write some (λ c'. expect_ok (read_response ctx c'))
      (write_cmd ctx (plain_command identity username password) c)

-- The copy that the caller gets.
unfoldable pub capabilities : Client → List (Bytes × Bytes)
capabilities c = c.caps

unfoldable pub close_client : Client → Client
close_client c = record c { closed = true }

abbrev pub fresh_client : ClientOptions → Reader → Bool → Deadlines → List Bool → Client
fresh_client options reader is_tls deadlines writes = record {
  reader = reader;
  sent = [];
  writes = writes;
  write_broken = false;
  max_line = limit_or 8192 options.max_line_length;
  max_caps = limit_or 64 options.max_capability_lines;
  caps = [];
  greeting = [];
  is_tls = is_tls;
  closed = false;
  deadlines = deadlines;
}

module _ (upper_rune : ℕ → ℕ) where
  unfoldable pub refresh_capabilities : Context → Client → Option ClientError × Client
  unfolding after_write
  refresh_capabilities ctx c =
      after_write some (read_capability_block upper_rune ctx) (write_cmd ctx (codes "CAPABILITY") c)

  -- The TLS handshake fails, or gives the stream of the server behind it.
  unfoldable pub after_handshake : Context → Option Reader → Client → Option ClientError × Client
  after_handshake ctx none c =
      (some handshake_failed, record c { deadlines = set_conn_deadline ctx c.deadlines })
  after_handshake ctx (some secure) c = read_capability_block upper_rune ctx (record c {
    reader = secure;
    write_broken = false;
    is_tls = true;
    deadlines = set_conn_deadline ctx c.deadlines;
  })

  unfoldable pub start_tls_answered :
      Context → Option Reader → Option ClientError × Client → Option ClientError × Client
  unfolding after_handshake
  start_tls_answered ctx handshake (some e, c) = (some e, c)
  start_tls_answered ctx handshake (none, c) = after_handshake ctx handshake c

  unfoldable pub start_tls : Context → Option Reader → Client → Option ClientError × Client
  unfolding start_tls_answered expect_ok after_write
  start_tls ctx handshake c =
      after_write some (λ c'. start_tls_answered ctx handshake (expect_ok (read_response ctx c')))
        (write_cmd ctx (codes "STARTTLS") c)

  -- On an error the connection is closed and there is no client.
  unfoldable pub or_close : Option ClientError × Client → Option ClientError × Client
  unfolding close_client
  or_close (none, c) = (none, c)
  or_close (some e, c) = (some e, close_client c)

  unfoldable pub connected :
      Context → ClientOptions → Option Reader → Client → Option ClientError × Client
  unfolding or_close
  connected ctx options handshake c = or_close (
      after_write some
        (λ c'.
          if options.tls_config && options.start_tls
          then start_tls ctx handshake c'
          else (none, c'))
        (read_capability_block upper_rune ctx c))

  -- Implicit TLS wraps the connection before the greeting is read.
  unfoldable pub implicit_tls :
      Context → ClientOptions → Option Reader → Reader → List Bool → Option ClientError × Client
  unfolding connected
  implicit_tls ctx options none reader writes = (
    some handshake_failed,
    close_client (fresh_client options reader false (set_conn_deadline ctx fresh_deadlines) writes),
  )
  implicit_tls ctx options (some secure) reader writes =
      connected ctx options none
        (fresh_client options secure true (set_conn_deadline ctx fresh_deadlines) writes)

  unfoldable pub new_client :
      Context → ClientOptions → Option Reader → Reader → List Bool → Option ClientError × Client
  unfolding implicit_tls
  new_client ctx options handshake reader writes =
      if options.tls_config && not options.start_tls
      then implicit_tls ctx options handshake reader writes
      else connected ctx options handshake
          (fresh_client options reader false fresh_deadlines writes)
