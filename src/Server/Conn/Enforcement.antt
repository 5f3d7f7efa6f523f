-- ===== src/Server/Conn/Enforcement.antt =====
-- The central enforcement of the command loop: no round goes on behind a request to close, or behind
-- too many errors.
use go_managesieve.Common.{
  ℕ, ◌≡◌, refl, arith, Bool, true, false, not, ◌&&◌, ◌||◌, [], ◌∷◌, Bytes, if◌then◌else◌,
}
use go_managesieve.Server.Parser.{tokens, unclosed_quote, out_of_fuel, Line, blank, command}
use go_managesieve.Server.Conn.State.{
  Received, received, read_error, Conn, Env, flush, emit, max_errors_exceeded, read_line,
}
use go_managesieve.Server.Conn.Literals.{Resolved, resolved, rejected, unresolved}
use go_managesieve.Server.Conn.Serve.{
  Round, stops, goes_on, unfinished, flushed_round, shutdown_bye, finish_round, resolved_round,
  parsed_round, trimmed_round, line_round, one_round,
}

module _ {S : Type 0} (env : Env S) where
  -- A connection that nothing asks to close.
  unfoldable pub Admitted : Conn S → Type 0
  Admitted c = (c.close_pending ≡ false) × (max_errors_exceeded env c ≡ false)

  abbrev pub AdmittedRound : Round S → Type 0
  AdmittedRound (stops d) = Unit {0}
  AdmittedRound (goes_on d) = Admitted d
  AdmittedRound unfinished = Unit {0}

  flushed_stop : (r : Bool × Conn S) → AdmittedRound (flushed_round true r)
  unfolding flushed_round
  flushed_stop (false, c) = _
  flushed_stop (true, c) = _

  flushed_on :
      (quit : Bool) (r : Bool × Conn S)
      → (quit ≡ false → Admitted r.1)
      → AdmittedRound (flushed_round quit r)
  unfolding flushed_round
  flushed_on quit (false, c) h = _
  flushed_on true (true, c) h = _
  flushed_on false (true, c) h = h refl

  flush-Admitted : (c : Conn S) → Admitted c → Admitted (flush c).1
  unfolding Admitted flush emit max_errors_exceeded
  flush-Admitted c h = h

  Admitted-if :
      (quit : Bool) (c : Conn S)
      → (not (quit || c.close_pending) && max_errors_exceeded env c) ≡ false
      → (quit || c.close_pending) ≡ false
      → Admitted c
  unfolding Admitted
  Admitted-if quit c p q = (ground (arith, q), ground (arith, p, q))

  if-AdmittedRound :
      (b : Bool) (x y : Round S)
      → (b ≡ true → AdmittedRound x)
      → (b ≡ false → AdmittedRound y)
      → AdmittedRound (if b then x else y)
  if-AdmittedRound true x y p q = p refl
  if-AdmittedRound false x y p q = q refl

  finish_round-AdmittedRound : (r : Bool × Conn S) → AdmittedRound (finish_round env r)
  unfolding finish_round
  finish_round-AdmittedRound (quit, c) = if-AdmittedRound c.hijacked (stops c) _ _ (λ _.
      if-AdmittedRound (not (quit || c.close_pending) && max_errors_exceeded env c) _ _
        (λ _. flushed_stop _)
        (λ p.
          flushed_on (quit || c.close_pending) (flush c)
            (λ q. flush-Admitted c (Admitted-if quit c p q))))

  resolved_round-AdmittedRound :
      (cmd : Bytes) (r : Resolved × Conn S) → AdmittedRound (resolved_round env cmd r)
  unfolding resolved_round
  resolved_round-AdmittedRound cmd (resolved args, c) = finish_round-AdmittedRound _
  resolved_round-AdmittedRound cmd (rejected, c) = finish_round-AdmittedRound _
  resolved_round-AdmittedRound cmd (unresolved, c) = _

  parsed_round-AdmittedRound :
      (line : Line) (c : Conn S) → Admitted c → AdmittedRound (parsed_round env line c)
  unfolding parsed_round
  parsed_round-AdmittedRound blank c h = h
  parsed_round-AdmittedRound (command cmd unclosed_quote) c h = finish_round-AdmittedRound _
  parsed_round-AdmittedRound (command [] (tokens args)) c h = h
  parsed_round-AdmittedRound (command (x ∷ cmd) (tokens args)) c h =
      resolved_round-AdmittedRound (x ∷ cmd) _
  parsed_round-AdmittedRound (command cmd out_of_fuel) c h = _

  trimmed_round-AdmittedRound :
      (line : Bytes) (c : Conn S) → Admitted c → AdmittedRound (trimmed_round env line c)
  unfolding trimmed_round
  trimmed_round-AdmittedRound [] c h = h
  trimmed_round-AdmittedRound (x ∷ line) c h = parsed_round-AdmittedRound _ c h

  line_round-AdmittedRound :
      (round : ℕ) (r : Received × Conn S) → Admitted r.1 → AdmittedRound (line_round env round r)
  unfolding line_round
  line_round-AdmittedRound round (read_error e, c) h = _
  line_round-AdmittedRound round (received line, c) h = trimmed_round-AdmittedRound _ c h

  read_line-Admitted : (c : Conn S) → Admitted c → Admitted (read_line env c).1
  unfolding Admitted read_line max_errors_exceeded
  read_line-Admitted c h = h

  -- From a connection that nothing asks to close and whose errors are within MaxErrors, a round that
  -- goes on leads to another such connection, whatever the command was: no path of a handler gets past
  -- the limit or past a request to close.
  pub one_round-AdmittedRound :
      (round : ℕ) (c : Conn S) → Admitted c → AdmittedRound (one_round env round c)
  unfolding one_round
  one_round-AdmittedRound round c h =
      if-AdmittedRound (env.cancelled_before round) (stops (shutdown_bye env round c)) _ _
        (λ _. line_round-AdmittedRound round (read_line env c) (read_line-Admitted c h))
