-- ===== src/Client/Dialogue/Accounts.antt =====
-- A login through the three packages: managesieveclient/client.go, managesieveserver/conn.go and the
-- store of managesievemem/store.go.
use go_managesieve.Common.{
  ℕ, ◌≤◌, ◌≡◌, ◌≢◌, ◌↔◌, sym, ◌∙◌, ap, subst, true, false, not, ◌&&◌, [], ◌++◌, Option, none, Bytes,
  length, All,
}
use go_managesieve.Text.Search.{Lacks}
use go_managesieve.Text.Base64.RoundTrip.{IsByte}
use go_managesieve.Server.Reader.{flat}
use go_managesieve.Server.Parser.Requests.{quoted}
use go_managesieve.Server.Session.{Reply, Session}
use go_managesieve.Server.Conn.State.{Conn, Env}
use go_managesieve.Server.Conn.Capabilities.{auth_allowed}
use go_managesieve.Server.Conn.Auth.{auth_called, handle_authenticate}
use go_managesieve.Server.Conn.Responses.{sent_bytes}
use go_managesieve.Server.Conn.Answers.{
  authenticated_line, auth_called-succeeds, auth_called-session,
}
use go_managesieve.Store.Memory.{MemSession, log_in_plain, mem_methods}
use go_managesieve.Store.Memory.Admission.{admits, log_in_plain-Admission}
use go_managesieve.Client.State.{Context, Client, next_write}
use go_managesieve.Client.Operations.{authenticate}
use go_managesieve.Client.Login.{plain_arguments}
use go_managesieve.Client.Dialogue.{authenticate-agrees}

module _ (upper_rune : ℕ → ℕ) (sha256 : Bytes → Bytes)
    (validate_hook : Option (Bytes → Reply Bytes)) where
  -- The connection is authenticated if the store admits the user, and then goes on as that user's.
  abbrev Admitted : Bytes → Bytes → Bytes → MemSession → Conn MemSession → Type 0
  Admitted identity user password s d =
      (d.authenticated ≡ admits upper_rune sha256 validate_hook identity user password s)
      × (d.authenticated ≡ true → d.session.username ≡ user)

  called-admits :
      (env : Env MemSession) (c : Conn MemSession) (identity user password : Bytes)
      → c.hijacked ≡ false
      → c.authenticated ≡ false
      → Admitted identity user password c.session (
          auth_called env
            (log_in_plain upper_rune sha256 validate_hook identity user password c.session)
            c)
  called-admits env c identity user password kept fresh =
      let called = log_in_plain upper_rune sha256 validate_hook identity user password c.session in
      let (relays, decided, named) =
        log_in_plain-Admission upper_rune sha256 validate_hook identity user password c.session in
      let same = auth_called-succeeds env called.0 called.1 c relays kept fresh in
      (
        same ∙ decided,
        λ granted.
            ap (λ s. s.username)
              (auth_called-session env called.0 called.1 c relays kept (sym same ∙ granted))
            ∙ named (sym same ∙ granted),
      )

  -- AuthenticatePlain of the client, against the server with the in-memory store, on a connection that is
  -- not authenticated, that no session has taken over and that allows it, for an identity, a user and a
  -- password of bytes without a NUL of which the password is not empty, with a client that can write and
  -- reads next what the server has answered: the client reports no error if and only if the user has an
  -- account, the password has the digest of that account's password, and the identity is empty or the
  -- user's name; and then the connection goes on with a session of that user.
  pub authenticate-admits :
      (env : Env MemSession) (c : Conn MemSession) (ctx : Context) (k : Client)
      (identity user password answer rest : Bytes)
      → env.methods ≡ mem_methods upper_rune sha256 validate_hook
      → c.authenticated ≡ false
      → c.hijacked ≡ false
      → auth_allowed env c ≡ true
      → Lacks 0 identity
      → Lacks 0 user
      → Lacks 0 password
      → password ≢ []
      → All IsByte identity
      → All IsByte user
      → All IsByte password
      → (not k.write_broken && next_write k.writes) ≡ true
      → length authenticated_line ≤ k.max_line
      → let d = handle_authenticate env (quoted (plain_arguments identity user password)) c in
        sent_bytes d.trace ≡ sent_bytes c.trace ++ answer
        → flat k.reader ≡ answer ++ rest
        → (((authenticate ctx identity user password k).0 ≡ none)
            ↔ (admits upper_rune sha256 validate_hook identity user password c.session ≡ true))
          × ((authenticate ctx identity user password k).0 ≡ none → d.session.username ≡ user)
  authenticate-admits env c ctx k identity user password answer rest store fresh kept allowed hi hu
        hp some_password bi bu bp writable le answered e =
      let stored = ap (λ (m : Session MemSession). m.authenticate_plain) store in
      let called = log_in_plain upper_rune sha256 validate_hook identity user password c.session in
      let same : env.methods.authenticate_plain identity user password c.session ≡ called =
        ap (λ m. m identity user password c.session) stored in
      let relays : (env.methods.authenticate_plain identity user password c.session).0.hijack
          ≡ false =
        ap (λ r. r.0.hijack) same
        ∙ (log_in_plain-Admission upper_rune sha256 validate_hook identity user password
            c.session).0 in
      let (_, handled, agrees) =
        authenticate-agrees env c ctx k identity user password answer rest fresh kept allowed relays
          hi hu hp some_password bi bu bp writable le answered e in
      let behind = handled ∙ ap (λ r. auth_called env r c) same in
      let (admitted, named) =
        subst (Admitted identity user password c.session) (sym behind)
          (called-admits env c identity user password kept fresh) in
      (
        (λ accepted. sym admitted ∙ agrees.0 accepted, λ h. agrees.1 (admitted ∙ h)),
        λ accepted. named (agrees.0 accepted),
      )
