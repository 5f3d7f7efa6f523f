-- ===== src/Server/Conn/Refinement/Upgrade.antt =====
-- STARTTLS runs in the protocol.
use go_managesieve.Common.{
  ◌≡◌, refl, ◌∙◌, ap, arith, Bool, true, false, not, Option, none, some, codes,
}
use go_managesieve.Server.Reader.{Reader}
use go_managesieve.Server.Conn.State.{upgraded, Conn, Env, emit}
use go_managesieve.Server.Conn.Literals.{pending_bytes}
use go_managesieve.Server.Conn.Auth.{tls_handshake, tls_announced, handle_start_tls}
use go_managesieve.Server.Conn.Quiet.{
  still, ◌behind◌, write_line-Calm, no_line-Calm, flush-Calm, set_error-Calm, client_error-Calm,
}
use go_managesieve.Server.Conn.Quiet.Literals.{send_greeting-Calm}
use go_managesieve.Server.Conn.Protocol.{upgrades}
use go_managesieve.Server.Conn.Refinement.{
  Run, left-upgraded, one_step, quiet, then_quiet, quiet_then, if_pair-Run,
}

module _ {S : Type 0} (env : Env S) where
  tls_handshake-Run :
      (o : Option Reader) (c : Conn S)
      → o ≡ env.handshake
      → c.authenticated ≡ false
      → c.is_tls ≡ false
      → Run env c (tls_handshake env o c).1
  unfolding tls_handshake emit
  tls_handshake-Run none c same auth plain = quiet (set_error-Calm _ c)
  tls_handshake-Run (some reader) c same auth plain =
      let upgraded_conn =
        emit upgraded (record c { reader = reader; is_tls = true; write_failed = false }) in
      then_quiet
        (one_step {d = upgraded_conn} (upgrades auth plain)
          (omega (arith, left-upgraded env reader c plain same)))
        (send_greeting-Calm env upgraded_conn)

  tls_announced-Run :
      (r : Bool × Conn S)
      → r.1.authenticated ≡ false
      → r.1.is_tls ≡ false
      → Run env r.1 (tls_announced env r).1
  unfolding tls_announced
  tls_announced-Run (false, c) auth plain = quiet (still refl refl)
  tls_announced-Run (true, c) auth plain = tls_handshake-Run env.handshake c refl auth plain

  pub handle_start_tls-Run : (c : Conn S) → Run env c (handle_start_tls env c).1
  unfolding handle_start_tls
  handle_start_tls-Run c =
      if_pair-Run (not env.options.tls_config) _ _ (λ _. quiet (client_error-Calm env _ c))
        (λ _.
          if_pair-Run c.is_tls _ _ (λ _. quiet (client_error-Calm env _ c))
            (λ plain.
              if_pair-Run c.authenticated _ _ (λ _. quiet (client_error-Calm env _ c))
                (λ auth.
                  if_pair-Run (pending_bytes c) _ _
                    (λ _. quiet (no_line-Calm _ _ behind set_error-Calm _ c))
                    (λ _.
                      let said =
                        flush-Calm _
                        behind write_line-Calm (codes "OK \"Begin TLS negotiation\"") c in
                      quiet_then said (
                        tls_announced-Run _ (ap (λ v. v.authenticated) said.same_view ∙ auth)
                          (ap (λ v. v.is_tls) said.same_view ∙ plain))))))
