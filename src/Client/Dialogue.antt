-- ===== src/Client/Dialogue.antt =====
-- AUTHENTICATE from both ends: the client of managesieveclient/client.go and the handler of
-- managesieveserver/conn.go agree on the outcome.
pub mod Accounts
use go_managesieve.Common.{
  ◌≤◌, ◌≡◌, ◌≢◌, ◌↔◌, inl, inr, refl, sym, ◌∙◌, ap, subst, true, false, not, ◌&&◌, [], ◌∷◌, ◌++◌,
  append_assoc, Option, none, some, arith, Bytes, codes, ltb, if◌then◌else◌, length, All,
  Bool-cases,
}
use go_managesieve.Text.Search.{Lacks}
use go_managesieve.Text.Base64.RoundTrip.{IsByte}
use go_managesieve.Server.Reader.{Reader, ReadError, line_too_long, flat, LineResult, got, refused}
use go_managesieve.Server.Reader.Lines.{seen}
use go_managesieve.Server.Parser.{tokens, command, parse_line}
use go_managesieve.Server.Parser.Requests.{quoted}
use go_managesieve.Server.Conn.State.{Conn, Env}
use go_managesieve.Server.Conn.Capabilities.{auth_allowed}
use go_managesieve.Server.Conn.Auth.{auth_called, handle_authenticate}
use go_managesieve.Server.Conn.Responses.{sent_bytes, IsInline}
use go_managesieve.Client.Responses.{is_ok}
use go_managesieve.Client.Lines.{read_response_line}
use go_managesieve.Client.Lines.Stream.{Reads}
use go_managesieve.Client.Blocks.{crlf, read_response_line-crlf, read_response_line-Reads-crlf}
use go_managesieve.Server.Conn.Answers.{authenticated_line, Outcome, auth_called-Outcome}
use go_managesieve.Client.State.{
  Context, arm_read_deadline, ClientError, read_failed, protocol_error, Client, response_of,
  read_response, next_write,
}
use go_managesieve.Client.Operations.{expect_ok, after_write, plain_command, authenticate}
use go_managesieve.Client.Upgrade.{behind_command, write_cmd-none}
use go_managesieve.Client.Login.{plain_arguments, plain_command-arrives}

cancel-front : (a b d : Bytes) → a ++ b ≡ a ++ d → b ≡ d
cancel-front [] b d h = h
cancel-front (x ∷ a) b d h = cancel-front a b d cc

Lacks-IsInline : (l : Bytes) → All IsInline l → Lacks b'\n' l
Lacks-IsInline [] h = tt
Lacks-IsInline (x ∷ l) h = (h.0.1, Lacks-IsInline l h.1)

expect_ok-got :
    (ctx : Context) (k : Client) (l : Bytes) (r : LineResult × Reader)
    → r.0 ≡ got l
    → (expect_ok (
      response_of r.0,
      record k { reader = r.1; deadlines = arm_read_deadline ctx k.deadlines },
    )).0
      ≡ (if is_ok l then none else some (protocol_error l))
unfolding expect_ok response_of
expect_ok-got ctx k l r e = rw e refl

expect_ok-refused :
    (ctx : Context) (k : Client) (e : ReadError) (r : LineResult × Reader)
    → r.0 ≡ refused e
    → (expect_ok (
      response_of r.0,
      record k { reader = r.1; deadlines = arm_read_deadline ctx k.deadlines },
    )).0
      ≡ some (read_failed e)
unfolding expect_ok response_of
expect_ok-refused ctx k e r p = rw p refl

some-ne-none : (o : Option ClientError) (e : ClientError) → o ≡ some e → o ≢ none
some-ne-none o e h k = ground arith

not_ok : (l : Bytes) → is_ok (b'N' ∷ l) ≡ false
unfolding is_ok
not_ok l = refl

module _ (ctx : Context) (k : Client) (rest : Bytes) where
  answer-ok :
      length authenticated_line ≤ k.max_line
      → flat k.reader ≡ authenticated_line ++ (crlf ++ rest)
      → (expect_ok (read_response ctx k)).0 ≡ none
  unfolding read_response
  answer-ok le e =
      let r = read_response_line k.max_line k.reader in
      let line =
        read_response_line-crlf k.max_line k.reader authenticated_line rest (ground arith) le e in
      expect_ok-got ctx k authenticated_line r (ap (λ (x : LineResult × Bytes). x.0) line)
      ∙ unfold is_ok in refl

  answer-no :
      (l : Bytes)
      → All IsInline l
      → flat k.reader ≡ (b'N' ∷ l) ++ (crlf ++ rest)
      → (expect_ok (read_response ctx k)).0 ≢ none
  unfolding read_response
  answer-no l inline e =
      let r = read_response_line k.max_line k.reader in
      let reads : Reads k.max_line (b'N' ∷ l) rest (seen r) =
        read_response_line-Reads-crlf k.max_line k.reader (b'N' ∷ l) rest
          (omega arith, Lacks-IsInline l inline) e in
      elim (Bool-cases (ltb k.max_line (length (b'N' ∷ l)))) [
        | inl p ↦
            let over : r.0 ≡ refused line_too_long = (rw p at reads) in
            some-ne-none _ (read_failed line_too_long)
              (expect_ok-refused ctx k line_too_long r over)
        | inr p ↦
            let line : seen r ≡ (got (b'N' ∷ l), rest) = (rw p at reads) in
            let answered =
              expect_ok-got ctx k (b'N' ∷ l) r (ap (λ (x : LineResult × Bytes). x.0) line) in
            some-ne-none _ (protocol_error (b'N' ∷ l))
              (answered ∙ ap (λ b. if b then none else some (protocol_error (b'N' ∷ l))) (not_ok l))
      ]

authenticate-written :
    (ctx : Context) (identity username password : Bytes) (k : Client)
    → (not k.write_broken && next_write k.writes) ≡ true
    → authenticate ctx identity username password k
      ≡ expect_ok
          (read_response ctx (behind_command ctx (plain_command identity username password) k))
unfolding authenticate after_write
authenticate-written ctx identity username password k writable =
    rw (write_cmd-none ctx (plain_command identity username password) k writable) refl

module _ {S : Type 0} (env : Env S) (ctx : Context) (k : Client) (before answer rest : Bytes) where
  Outcome-agrees :
      (d : Conn S)
      → length authenticated_line ≤ k.max_line
      → Outcome env before d
      → sent_bytes d.trace ≡ before ++ answer
      → flat k.reader ≡ answer ++ rest
      → ((expect_ok (read_response ctx k)).0 ≡ none) ↔ (d.authenticated ≡ true)
  Outcome-agrees d le (inl (granted, sent)) answered e = (
    λ _. granted,
    λ _. answer-ok ctx k rest le (
        e
        ∙ ap (λ a. a ++ rest) (cancel-front before _ _ (sym answered ∙ sent))
        ∙ append_assoc authenticated_line crlf rest),
  )
  Outcome-agrees d le (inr (denied, (l, inline, sent))) answered e = (
    λ accepted. absurd (
        answer-no ctx k rest l inline
          (e
            ∙ ap (λ a. a ++ rest) (cancel-front before _ _ (sym answered ∙ sent))
            ∙ append_assoc (b'N' ∷ l) crlf rest)
          accepted),
    λ granted. absurd (ground arith),
  )

-- AuthenticatePlain and the server's handler, on a connection that is not authenticated and that allows
-- it, with a session that does not take the connection over, for an identity, a user and a password
-- without a NUL of which the password is not empty, with a client that can write and reads next what
-- the server has answered: the line that the client writes is parsed as AUTHENTICATE, the handler
-- calls the session with the same identity, user and password, and the client reports no error if and
-- only if the connection is then authenticated.
pub authenticate-agrees :
    {S : Type 0} (env : Env S) (c : Conn S) (ctx : Context) (k : Client)
    (identity username password answer rest : Bytes)
    → c.authenticated ≡ false
    → c.hijacked ≡ false
    → auth_allowed env c ≡ true
    → (env.methods.authenticate_plain identity username password c.session).0.hijack ≡ false
    → Lacks 0 identity
    → Lacks 0 username
    → Lacks 0 password
    → password ≢ []
    → All IsByte identity
    → All IsByte username
    → All IsByte password
    → (not k.write_broken && next_write k.writes) ≡ true
    → length authenticated_line ≤ k.max_line
    → let args = quoted (plain_arguments identity username password) in
      let d = handle_authenticate env args c in
      sent_bytes d.trace ≡ sent_bytes c.trace ++ answer
      → flat k.reader ≡ answer ++ rest
      → (parse_line env.upper_rune (plain_command identity username password ++ crlf)
          ≡ command (codes "AUTHENTICATE") (tokens args))
        × (d
            ≡ auth_called env
                (env.methods.authenticate_plain identity username password c.session)
                c)
        × (((authenticate ctx identity username password k).0 ≡ none) ↔ (d.authenticated ≡ true))
authenticate-agrees env c ctx k identity username password answer rest fresh kept allowed relays hi
      hu hp some_password bi bu bp writable le answered e =
    let reply = env.methods.authenticate_plain identity username password c.session in
    let (parsed, handled) =
      plain_command-arrives env c identity username password fresh allowed hi hu hp some_password bi
        bu bp in
    let d = handle_authenticate env (quoted (plain_arguments identity username password)) c in
    let outcome : Outcome env (sent_bytes c.trace) d =
      subst (Outcome env (sent_bytes c.trace)) (sym handled)
        (auth_called-Outcome env reply.0 reply.1 c relays kept fresh) in
    (
      parsed,
      handled,
      subst (λ (r : Option ClientError × Client). (r.0 ≡ none) ↔ (d.authenticated ≡ true))
          (sym (authenticate-written ctx identity username password k writable))
          (Outcome-agrees env ctx (behind_command ctx (plain_command identity username password) k)
            (sent_bytes c.trace) answer rest d le outcome answered e),
    )
