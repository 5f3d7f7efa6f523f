-- ===== src/Server/Conn/Refinement/Auth.antt =====
-- AUTHENTICATE and LOGIN run in the protocol.
use go_managesieve.Common.{
  ◌≤◌, ◌≡◌, refl, sym, ◌∙◌, ap, subst, arith, Bool, true, false, not, ◌&&◌, ◌||◌, List, [], ◌∷◌,
  Option, none, some, if◌then◌else◌, Bytes, codes, ltb, bytes_eq,
}
use go_managesieve.Text.Utf8.{to_upper}
use go_managesieve.Text.Space.{trim_space}
use go_managesieve.Server.Parser.{unquote_string, Literal, not_literal, literal, bad_literal}
use go_managesieve.Server.Session.{succeeds, Reply, returns, fails, AuthReply}
use go_managesieve.Server.Conn.State.{
  Received, received, read_error, Conn, Env, called_auth, emit, flush,
}
use go_managesieve.Server.Conn.Capabilities.{auth_allowed}
use go_managesieve.Server.Conn.Auth.{
  take_over, hijack, hijack_if, authenticated_as, auth_called, plain_credentials, auth_decoded,
  auth_data, auth_argument, auth_line, auth_continued, auth_response, auth_mechanism,
  handle_authenticate, login_args, handle_login,
}
use go_managesieve.Server.Conn.Quiet.{
  View, view, Calm, still, ◌behind◌, rest, write_line-Calm, no_line-Calm, flush-Calm,
  request_close-Calm, set_error-Calm, client_error-Calm, auth_failure-Calm, failed_read-Calm,
  read_line-Calm,
}
use go_managesieve.Server.Conn.Quiet.Literals.{if_pair-Calm, read_auth_literal-Calm}
use go_managesieve.Server.Conn.Protocol.{tries, Steps, stays, later}
use go_managesieve.Server.Conn.Refinement.{Run, left-view, quiet, quiet_then, if-Run}

abbrev with_hijacked : {S : Type 0} → Bool → View S → View S
with_hijacked b v = record {
  authenticated = v.authenticated;
  is_tls = v.is_tls;
  hijacked = b;
  session = v.session;
  calls = v.calls;
}

abbrev with_access : {S : Type 0} → Bool → View S → View S
with_access b v = record {
  authenticated = b;
  is_tls = v.is_tls;
  hijacked = v.hijacked;
  session = v.session;
  calls = v.calls;
}

module _ {S : Type 0} where
  -- What taking the connection over changes.
  Taken : Conn S → Conn S → Type 0
  Taken c d = (view d ≡ with_hijacked d.hijacked (view c)) × (rest d ≤ rest c)

  if-Taken : (b : Bool) (c x y : Conn S) → Taken c x → Taken c y → Taken c (if b then x else y)
  unfolding Taken
  if-Taken true c x y p q = p
  if-Taken false c x y p q = q

  take_over-Taken : (r : Bool × Conn S) → Taken r.1 (take_over r)
  unfolding Taken take_over
  take_over-Taken (true, c) = (refl, omega arith)
  take_over-Taken (false, c) = (refl, omega arith)

  flush-Taken : (c : Conn S) → Taken c (take_over (flush c))
  unfolding Taken
  flush-Taken c =
      let (same, no_more) = take_over-Taken (flush c) in
      let calm = flush-Calm c in
      (same ∙ ap (with_hijacked _) calm.same_view, omega (arith, no_more, calm.no_more))

  hijack_if-Taken : (b : Bool) (c : Conn S) → Taken c (hijack_if b c)
  unfolding Taken hijack_if hijack
  hijack_if-Taken true c =
      if-Taken (c.authenticated || c.hijacked) c _ _ (refl, omega arith) (flush-Taken c)
  hijack_if-Taken false c = (refl, omega arith)

  -- What granting the access, or refusing it, changes.
  Granted : Bool → Conn S → Conn S → Type 0
  Granted access c d = (view d ≡ with_access access (view c)) × (rest d ≤ rest c)

  if-Granted :
      (b : Bool) (c x y : Conn S) (ok : Bool)
      → Granted (ok && not true) c x
      → Granted (ok && not false) c y
      → Granted (ok && not b) c (if b then x else y)
  if-Granted true c x y ok p q = p
  if-Granted false c x y ok p q = q

module _ {S : Type 0} (env : Env S) where
  authenticated_as-Granted :
      (r : Reply (Unit {0})) (c : Conn S)
      → c.authenticated ≡ false
      → Granted (succeeds r && not c.hijacked) c (authenticated_as env r c)
  unfolding Granted authenticated_as
  authenticated_as-Granted (fails e) c auth =
      let calm = auth_failure-Calm env e c in
      (calm.same_view ∙ ap (λ b. with_access b (view c)) auth, calm.no_more)
  authenticated_as-Granted (returns u) c auth =
      let said =
        write_line-Calm (codes "OK \"Authenticated\"") (record c { authenticated = true }) in
      if-Granted c.hijacked c _ _ true (ap (λ b. with_access b (view c)) auth, omega arith)
        (said.same_view, said.no_more)

  Ready : Conn S → Type 0
  Ready c = (c.authenticated ≡ false) × ((env.options.insecure_auth || c.is_tls) ≡ true)

  Ready-Calm : (c d : Conn S) → Calm c d → Ready c → Ready d
  unfolding Ready
  Ready-Calm c d p (auth, allowed) = (
    ap (λ v. v.authenticated) p.same_view ∙ auth,
    ap (λ v. env.options.insecure_auth || v.is_tls) p.same_view ∙ allowed,
  )

  auth_called-Run :
      (r : AuthReply) (s : S) (c : Conn S) → Ready c → Run env c (auth_called env (r, s) c)
  unfolding Ready Taken Granted auth_called emit
  auth_called-Run r s c (auth, allowed) =
      let asked = emit (called_auth (succeeds r.reply)) (record c { session = s }) in
      let taken = hijack_if-Taken r.hijack asked in
      let granted =
        authenticated_as-Granted r.reply (hijack_if r.hijack asked)
          (ap (λ v. v.authenticated) taken.0 ∙ auth) in
      let same = granted.0 ∙ ap (with_access _) taken.0 in
      record {
        steps = subst (Steps env.options.insecure_auth (view c)) (sym same) (
            later stays
              (tries s (succeeds r.reply) (hijack_if r.hijack asked).hijacked auth allowed));
        less =
            left-view env c (auth_called env (r, s) c) (ap (λ v. v.is_tls) same)
              (omega (arith, granted.1, taken.1));
      }

  plain_credentials-Run :
      (parts : List Bytes) (c : Conn S) → Ready c → Run env c (plain_credentials env parts c)
  unfolding plain_credentials
  plain_credentials-Run [] c h = quiet (client_error-Calm env _ c)
  plain_credentials-Run (x ∷ []) c h = quiet (client_error-Calm env _ c)
  plain_credentials-Run (x ∷ y ∷ []) c h = quiet (client_error-Calm env _ c)
  plain_credentials-Run (x ∷ y ∷ [] ∷ []) c h = quiet (auth_failure-Calm env _ c)
  plain_credentials-Run (x ∷ y ∷ (p ∷ z) ∷ []) c h = auth_called-Run _ _ c h
  plain_credentials-Run (x ∷ y ∷ [] ∷ z ∷ zs) c h = quiet (client_error-Calm env _ c)
  plain_credentials-Run (x ∷ y ∷ (p ∷ ps) ∷ z ∷ zs) c h = quiet (client_error-Calm env _ c)

  auth_decoded-Run : (o : Option Bytes) (c : Conn S) → Ready c → Run env c (auth_decoded env o c)
  unfolding auth_decoded
  auth_decoded-Run none c h = quiet (client_error-Calm env _ _ behind set_error-Calm _ c)
  auth_decoded-Run (some decoded) c h = plain_credentials-Run _ c h

  auth_data-Run : (r : Option Bytes × Conn S) → Ready r.1 → Run env r.1 (auth_data env r)
  unfolding auth_data
  auth_data-Run (none, c) h = quiet (still refl refl)
  auth_data-Run (some text, c) h = auth_decoded-Run _ c h

  auth_argument-Calm :
      (arg : Bytes) (l : Literal) (c : Conn S) → Calm c (auth_argument env arg l c).1
  unfolding auth_argument
  auth_argument-Calm arg not_literal c = still refl refl
  auth_argument-Calm arg (bad_literal non_sync) c =
      request_close-Calm _ behind client_error-Calm env _ c
  auth_argument-Calm arg (literal n non_sync) c =
      if_pair-Calm (ltb env.options.max_auth_literal n) _ _
        (request_close-Calm _ behind client_error-Calm env _ c) (read_auth_literal-Calm env n c)

  auth_line-Calm : (r : Received × Conn S) → Calm r.1 (auth_line env r).1
  unfolding auth_line
  auth_line-Calm (read_error e, c) = failed_read-Calm env _ e c
  auth_line-Calm (received line, c) =
      if_pair-Calm (bytes_eq (trim_space line) (codes "*")) _ _
        (no_line-Calm _ _ behind set_error-Calm _ c) (auth_argument-Calm _ _ c)

  auth_continued-Calm : (r : Bool × Conn S) → Calm r.1 (auth_continued env r).1
  unfolding auth_continued
  auth_continued-Calm (false, c) = request_close-Calm c
  auth_continued-Calm (true, c) = auth_line-Calm _ behind read_line-Calm env c

  auth_response-Calm : (args : List Bytes) (c : Conn S) → Calm c (auth_response env args c).1
  unfolding auth_response
  auth_response-Calm [] c = auth_continued-Calm _ behind flush-Calm _ behind write_line-Calm _ c
  auth_response-Calm (arg ∷ args) c = auth_argument-Calm arg _ c

  auth_allowed-Ready :
      (c : Conn S) → c.authenticated ≡ false → not (auth_allowed env c) ≡ false → Ready c
  unfolding Ready auth_allowed
  auth_allowed-Ready c auth p = (auth, ground (arith, p))

  auth_mechanism-Run :
      (args : List Bytes) (c : Conn S)
      → c.authenticated ≡ false
      → Run env c (auth_mechanism env args c)
  unfolding auth_mechanism
  auth_mechanism-Run [] c auth = quiet (client_error-Calm env _ c)
  auth_mechanism-Run (mechanism ∷ args) c auth =
      if-Run (not (auth_allowed env c)) _ _ (λ _. quiet (client_error-Calm env _ c))
        (λ p.
          if-Run
            (not (bytes_eq (to_upper env.upper_rune (unquote_string mechanism)) (codes "PLAIN"))) _
            _ (λ _. quiet (client_error-Calm env _ c))
            (λ _. quiet_then (auth_response-Calm args c) (
              auth_data-Run _
                (Ready-Calm _ _ (auth_response-Calm args c) (auth_allowed-Ready c auth p)))))

  pub handle_authenticate-Run :
      (args : List Bytes) (c : Conn S) → Run env c (handle_authenticate env args c)
  unfolding handle_authenticate
  handle_authenticate-Run args c =
      if-Run c.authenticated _ _ (λ _. quiet (client_error-Calm env _ c))
        (auth_mechanism-Run args c)

  module _ (method : Bytes → Bytes → S → AuthReply × S) where
    login_args-Run :
        (args : List Bytes) (c : Conn S) → Ready c → Run env c (login_args env method args c)
    unfolding login_args
    login_args-Run [] c h = quiet (client_error-Calm env _ c)
    login_args-Run (x ∷ []) c h = quiet (client_error-Calm env _ c)
    login_args-Run (x ∷ y ∷ args) c h = auth_called-Run _ _ c h

    pub handle_login-Run :
        (args : List Bytes) (c : Conn S) → Run env c (handle_login env method args c)
    unfolding handle_login
    handle_login-Run args c =
        if-Run c.authenticated _ _ (λ _. quiet (client_error-Calm env _ c))
          (λ auth.
            if-Run (not (auth_allowed env c)) _ _ (λ _. quiet (client_error-Calm env _ c))
              (λ p. login_args-Run args c (auth_allowed-Ready c auth p)))
