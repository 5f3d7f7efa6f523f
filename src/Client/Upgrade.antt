-- ===== src/Client/Upgrade.antt =====
-- startTLS of managesieveclient/client.go: nothing that was sent in the clear behind the OK response is
-- read as if it came over TLS.
use go_managesieve.Common.{
  ℕ, ◌≤◌, ◌≡◌, refl, ◌∙◌, ap, true, false, not, ◌&&◌, ◌∷◌, ◌++◌, Option, none, some, Bytes, codes,
  length,
}
use go_managesieve.Text.Search.{Lacks}
use go_managesieve.Server.Reader.{Reader, flat, LineResult}
use go_managesieve.Client.Responses.{is_ok}
use go_managesieve.Client.Lines.{read_response_line}
use go_managesieve.Client.Blocks.{crlf, read_response_line-crlf}
use go_managesieve.Client.State.{
  Context, arm_read_deadline, arm_write_deadline, set_conn_deadline, ClientError, Client, LineReply,
  response, response_of, read_response, next_write, later_writes, write_cmd, read_capability_block,
}
use go_managesieve.Client.Operations.{
  expect_ok, after_write, after_handshake, start_tls_answered, start_tls,
}

-- The client behind the STARTTLS command, its OK and the handshake.
abbrev pub behind_handshake : Context → Reader → Client → Client
behind_handshake ctx secure c = record c {
  reader = secure;
  sent = codes "STARTTLS\r\n" ∷ c.sent;
  writes = later_writes c.writes;
  write_broken = false;
  is_tls = true;
  deadlines = set_conn_deadline ctx (arm_read_deadline ctx (arm_write_deadline ctx c.deadlines));
}

-- The client behind a command that was written.
abbrev pub behind_command : Context → Bytes → Client → Client
behind_command ctx line c = record c {
  sent = (line ++ codes "\r\n") ∷ c.sent;
  writes = later_writes c.writes;
  deadlines = arm_write_deadline ctx c.deadlines;
}

pub write_cmd-none :
    (ctx : Context) (line : Bytes) (c : Client)
    → (not c.write_broken && next_write c.writes) ≡ true
    → write_cmd ctx line c ≡ (none, behind_command ctx line c)
unfolding write_cmd
write_cmd-none ctx line c writable = rw writable refl

module _ (upper_rune : ℕ → ℕ) (ctx : Context) (secure : Reader) where
  answered-ok :
      (status : Bytes) (r : LineReply) (c : Client)
      → r ≡ response status
      → is_ok status ≡ true
      → start_tls_answered upper_rune ctx (some secure) (expect_ok (r, c))
        ≡ after_handshake upper_rune ctx (some secure) c
  unfolding start_tls_answered expect_ok
  answered-ok status r c e ok = rw (e, ok) refl

  written-answered :
      (c : Client) (w : Option ClientError × Client)
      → w ≡ (none, c)
      → after_write some
          (λ c'. start_tls_answered upper_rune ctx (some secure) (expect_ok (read_response ctx c')))
          w
        ≡ start_tls_answered upper_rune ctx (some secure) (expect_ok (read_response ctx c))
  unfolding after_write
  written-answered c w e = rw e refl

  answered-line :
      (c : Client) (status injected : Bytes)
      → Lacks b'\n' status
      → length status ≤ c.max_line
      → is_ok status ≡ true
      → flat c.reader ≡ status ++ (crlf ++ injected)
      → start_tls_answered upper_rune ctx (some secure) (expect_ok (read_response ctx c))
        ≡ read_capability_block upper_rune ctx (record c {
          reader = secure;
          write_broken = false;
          is_tls = true;
          deadlines = set_conn_deadline ctx (arm_read_deadline ctx c.deadlines);
        })
  unfolding read_response after_handshake response_of
  answered-line c status injected lacks le ok e =
      let r = read_response_line c.max_line c.reader in
      let line = read_response_line-crlf c.max_line c.reader status injected lacks le e in
      answered-ok status (response_of r.0)
        (record c { reader = r.1; deadlines = arm_read_deadline ctx c.deadlines })
        (ap (λ (x : LineResult × Bytes). response_of x.0) line) ok

  -- Behind an OK to STARTTLS and a handshake, what the client goes on with, and with it the capabilities
  -- that it reads, are the same whatever else the server sent in the clear.
  pub start_tls-secure :
      (c : Client) (status injected : Bytes)
      → (not c.write_broken && next_write c.writes) ≡ true
      → Lacks b'\n' status
      → length status ≤ c.max_line
      → is_ok status ≡ true
      → flat c.reader ≡ status ++ (crlf ++ injected)
      → start_tls upper_rune ctx (some secure) c
        ≡ read_capability_block upper_rune ctx (behind_handshake ctx secure c)
  unfolding start_tls
  start_tls-secure c status injected writable lacks le ok e =
      written-answered (behind_command ctx (codes "STARTTLS") c) _
        (write_cmd-none ctx (codes "STARTTLS") c writable)
      ∙ answered-line (behind_command ctx (codes "STARTTLS") c) status injected lacks le ok e
