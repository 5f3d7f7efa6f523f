-- ===== src/Server/Conn/Answers.antt =====
-- What the AUTHENTICATE handler of managesieveserver/conn.go has written and done when it returns.
use go_managesieve.Common.{
  ◌≡◌, ◌⊎◌, inl, inr, refl, sym, ◌∙◌, ap, subst, Bool, true, false, [], ◌∷◌, ◌++◌, Option, none,
  some, arith, Bytes, codes, ◌==◌, if◌then◌else◌, All, Bool-cases,
}
use go_managesieve.Server.Errors.{Error, Failure, wire_message, strip_crlf}
use go_managesieve.Server.Session.{Reply, returns, fails, AuthReply, succeeds}
use go_managesieve.Server.Conn.State.{
  called_auth, Conn, Env, emit, write, write_line, no_line, set_error, apply_error_delay,
  count_error, client_error, plain_error, respond_error, session_error, auth_failure,
}
use go_managesieve.Server.Conn.Quiet.{auth_failure-Calm}
use go_managesieve.Server.Conn.Auth.{hijack_if, authenticated_as, auth_called}
use go_managesieve.Server.Conn.Responses.{sent_bytes, IsInline, strip_crlf-IsInline}

-- A connection has written, behind the bytes `before`, one line that begins with an N.
abbrev pub Refuses : {S : Type 0} → Bytes → Conn S → Type 0
Refuses before d =
    (l : Bytes) × All IsInline l × (sent_bytes d.trace ≡ before ++ (b'N' ∷ (l ++ codes "\r\n")))

module _ {S : Type 0} where
  pub no_line-Refuses : (msg : Bytes) (c : Conn S) → Refuses (sent_bytes c.trace) (no_line msg c)
  unfolding no_line write_line write emit
  no_line-Refuses [] c = (codes "O", ((omega arith, omega arith), tt), refl)
  no_line-Refuses (x ∷ msg) c = (
    codes "O " ++ strip_crlf (x ∷ msg),
    ((omega arith, omega arith), ((omega arith, omega arith), strip_crlf-IsInline (x ∷ msg))),
    refl,
  )

abbrev pub authenticated_line : Bytes
authenticated_line = codes "OK \"Authenticated\""

module _ {S : Type 0} (env : Env S) where
  plain_error-Refuses :
      (e : Failure) (c : Conn S) → Refuses (sent_bytes c.trace) (plain_error env e c)
  unfolding plain_error
  plain_error-Refuses e c = elim (Bool-cases e.is_close) [
    | inl p ↦ rw p (no_line-Refuses _ c)
    | inr p ↦ rw p (elim (Bool-cases env.options.strict_session_errors) [
      | inl q ↦ rw q (no_line-Refuses _ c)
      | inr q ↦ rw q (no_line-Refuses e.text c)
    ])
  ]

  respond_error-Refuses :
      (m : Option Error) (e : Failure) (c : Conn S)
      → Refuses (sent_bytes c.trace) (respond_error env m e c)
  unfolding respond_error
  respond_error-Refuses none e c = plain_error-Refuses e c
  respond_error-Refuses (some merr) e c = no_line-Refuses (wire_message env.upper_rune merr) c

  delay-sent_bytes : (c : Conn S) → sent_bytes (apply_error_delay env c).trace ≡ sent_bytes c.trace
  unfolding apply_error_delay emit
  delay-sent_bytes c = elim (Bool-cases (env.options.error_delay == 0)) [
    | inl p ↦ rw p refl
    | inr p ↦ rw p refl
  ]

  counted-sent_bytes :
      (b : Bool) (c : Conn S)
      → sent_bytes (if b then c else count_error env c).trace ≡ sent_bytes c.trace
  unfolding count_error
  counted-sent_bytes true c = refl
  counted-sent_bytes false c = refl

  pub client_error-Refuses :
      (msg : Bytes) (c : Conn S) → Refuses (sent_bytes c.trace) (client_error env msg c)
  unfolding client_error count_error
  client_error-Refuses msg c =
      subst (λ before. Refuses before (client_error env msg c)) (delay-sent_bytes _)
        (no_line-Refuses _ _)

  auth_failure-Refuses :
      (e : Failure) (c : Conn S) → Refuses (sent_bytes c.trace) (auth_failure env e c)
  unfolding auth_failure session_error set_error
  auth_failure-Refuses e c =
      let counted = if env.options.auth_failures_exempt then c else count_error env c in
      let same : sent_bytes (apply_error_delay env counted).trace ≡ sent_bytes c.trace =
        delay-sent_bytes counted ∙ counted-sent_bytes env.options.auth_failures_exempt c in
      subst (λ before. Refuses before (auth_failure env e c)) same
        (respond_error-Refuses e.as_error e (set_error e (apply_error_delay env counted)))

  -- The connection is authenticated and has said so, or it is not and has refused.
  abbrev pub Outcome : Bytes → Conn S → Type 0
  Outcome before d =
      ((d.authenticated ≡ true)
        × (sent_bytes d.trace ≡ before ++ (authenticated_line ++ codes "\r\n")))
      ⊎ ((d.authenticated ≡ false) × Refuses before d)

  authenticated_as-succeeds :
      (r : Reply (Unit {0})) (c : Conn S)
      → c.hijacked ≡ false
      → c.authenticated ≡ false
      → (authenticated_as env r c).authenticated ≡ succeeds r
  unfolding authenticated_as
  authenticated_as-succeeds (fails e) c kept fresh =
      ap (λ v. v.authenticated) (auth_failure-Calm env e c).same_view ∙ fresh
  authenticated_as-succeeds (returns u) c kept fresh =
      rw kept (unfold write_line write emit in refl)

  authenticated_as-Outcome :
      (r : Reply (Unit {0})) (c : Conn S)
      → c.hijacked ≡ false
      → c.authenticated ≡ false
      → Outcome (sent_bytes c.trace) (authenticated_as env r c)
  unfolding authenticated_as
  authenticated_as-Outcome (fails e) c kept fresh =
      inr (authenticated_as-succeeds (fails e) c kept fresh, auth_failure-Refuses e c)
  authenticated_as-Outcome (returns u) c kept fresh =
      subst (Outcome (sent_bytes c.trace))
        (ap
          (λ b. if b then c else write_line authenticated_line (record c { authenticated = true }))
          (sym kept))
        (inl (unfold write_line write emit in (refl, refl)))

  -- A session that does not take the connection over.
  pub auth_called-Outcome :
      (r : AuthReply) (s : S) (c : Conn S)
      → r.hijack ≡ false
      → c.hijacked ≡ false
      → c.authenticated ≡ false
      → Outcome (sent_bytes c.trace) (auth_called env (r, s) c)
  unfolding auth_called hijack_if emit
  auth_called-Outcome r s c relays kept fresh = rw relays (
      authenticated_as-Outcome r.reply
        (record c { trace = called_auth (succeeds r.reply) ∷ c.trace; session = s }) kept fresh)

  -- The method decides: the connection is authenticated as its reply says.
  pub auth_called-succeeds :
      (r : AuthReply) (s : S) (c : Conn S)
      → r.hijack ≡ false
      → c.hijacked ≡ false
      → c.authenticated ≡ false
      → (auth_called env (r, s) c).authenticated ≡ succeeds r.reply
  unfolding auth_called hijack_if emit
  auth_called-succeeds r s c relays kept fresh = rw relays (
      authenticated_as-succeeds r.reply
        (record c { trace = called_auth (succeeds r.reply) ∷ c.trace; session = s }) kept fresh)

  authenticated_as-session :
      (r : Reply (Unit {0})) (c : Conn S)
      → c.hijacked ≡ false
      → succeeds r ≡ true
      → (authenticated_as env r c).session ≡ c.session
  unfolding authenticated_as
  authenticated_as-session (fails e) c kept h = absurd (ground arith)
  authenticated_as-session (returns u) c kept h = rw kept (unfold write_line write emit in refl)

  -- The connection goes on with the session as the method that admits leaves it.
  pub auth_called-session :
      (r : AuthReply) (s : S) (c : Conn S)
      → r.hijack ≡ false
      → c.hijacked ≡ false
      → succeeds r.reply ≡ true
      → (auth_called env (r, s) c).session ≡ s
  unfolding auth_called hijack_if emit
  auth_called-session r s c relays kept h = rw relays (
      authenticated_as-session r.reply
        (record c { trace = called_auth (succeeds r.reply) ∷ c.trace; session = s }) kept h)
