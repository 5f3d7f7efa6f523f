-- ===== src/Server/Conn/Termination/Serving.antt =====
-- serve ends: a round that goes on has read a line, so that there are no more rounds than bytes.
use go_managesieve.Common.{
  ℕ, zero, suc, ◌<◌, ◌≡◌, refl, ap, subst, arith, Bool, true, false, not, ◌&&◌, ◌||◌, [], ◌∷◌,
  Option, some, Bytes, if◌then◌else◌,
}
use go_managesieve.Server.Parser.{tokens, unclosed_quote, out_of_fuel, Line, blank, command}
use go_managesieve.Server.Parser.Fuel.{IsParsed, parse_line-IsParsed}
use go_managesieve.Server.Conn.State.{
  Received, received, read_error, Conn, Env, flush, max_errors_exceeded, read_line,
}
use go_managesieve.Server.Conn.Capabilities.{send_greeting}
use go_managesieve.Server.Conn.Literals.{Resolved, resolved, rejected, unresolved}
use go_managesieve.Server.Conn.Serve.{
  Round, stops, goes_on, unfinished, flushed_round, close, finish_round, resolved_round,
  parsed_round, trimmed_round, line_round, one_round, next_round, serve_from, greeted, serve,
}
use go_managesieve.Server.Conn.Responses.{sent_bytes}
use go_managesieve.Server.Conn.Quiet.{view, calls, rest, ◌behind◌, flush-Calm, read_line-Calm}
use go_managesieve.Server.Conn.Quiet.Literals.{send_greeting-Calm}
use go_managesieve.Server.Conn.Refinement.{Run, left, left-less, quiet}
use go_managesieve.Server.Conn.Refinement.Rounds.{Ended, serve-Ended, Lawful, trimmed_round-Lawful}
use go_managesieve.Server.Conn.Protocol.Invariants.{guarded, confidential, Steps-Sound, fresh-Sound}
use go_managesieve.Server.Conn.Rejections.{IsResolved}
use go_managesieve.Server.Conn.Termination.{
  TookLine, read_line-TookLine, resolve_literal_args-IsResolved,
}

-- A round that comes to its end.
abbrev pub IsFinished : {S : Type 0} → Round S → Type 0
IsFinished (stops d) = Unit {0}
IsFinished (goes_on d) = Unit {0}
IsFinished unfinished = ⊥

module _ {S : Type 0} (env : Env S) where
  if-IsFinished :
      (b : Bool) (x y : Round S) → IsFinished x → IsFinished y → IsFinished (if b then x else y)
  if-IsFinished true x y p q = p
  if-IsFinished false x y p q = q

  flushed_round-IsFinished : (quit : Bool) (r : Bool × Conn S) → IsFinished (flushed_round quit r)
  unfolding flushed_round
  flushed_round-IsFinished quit (false, c) = _
  flushed_round-IsFinished true (true, c) = _
  flushed_round-IsFinished false (true, c) = _

  finish_round-IsFinished : (r : Bool × Conn S) → IsFinished (finish_round env r)
  unfolding finish_round
  finish_round-IsFinished (quit, c) = if-IsFinished c.hijacked (stops c) _ _ (
      if-IsFinished (not (quit || c.close_pending) && max_errors_exceeded env c) _ _
        (flushed_round-IsFinished true _) (flushed_round-IsFinished (quit || c.close_pending) _))

  resolved_round-IsFinished :
      (before cmd : Bytes) (r : Resolved × Conn S)
      → IsResolved env before r
      → IsFinished (resolved_round env cmd r)
  unfolding resolved_round
  resolved_round-IsFinished before cmd (resolved args, c) h = finish_round-IsFinished _
  resolved_round-IsFinished before cmd (rejected, c) h = finish_round-IsFinished _
  resolved_round-IsFinished before cmd (unresolved, c) h = h

  parsed_round-IsFinished :
      (line : Line) (c : Conn S) → IsParsed line → IsFinished (parsed_round env line c)
  unfolding parsed_round
  parsed_round-IsFinished blank c h = _
  parsed_round-IsFinished (command cmd unclosed_quote) c h = finish_round-IsFinished _
  parsed_round-IsFinished (command [] (tokens args)) c h = _
  parsed_round-IsFinished (command (x ∷ cmd) (tokens args)) c h =
      resolved_round-IsFinished (sent_bytes c.trace) (x ∷ cmd) _
        (resolve_literal_args-IsResolved env (x ∷ cmd) args c)
  parsed_round-IsFinished (command cmd out_of_fuel) c h = h

  pub trimmed_round-IsFinished : (line : Bytes) (c : Conn S) → IsFinished (trimmed_round env line c)
  unfolding trimmed_round
  trimmed_round-IsFinished [] c = _
  trimmed_round-IsFinished (x ∷ line) c =
      parsed_round-IsFinished _ c (parse_line-IsParsed env.upper_rune (x ∷ line))

  -- A round that stops the loop, or goes on with less to read.
  abbrev pub Shrinks : ℕ → Round S → Type 0
  Shrinks n (stops d) = Unit {0}
  Shrinks n (goes_on d) = left env d < n
  Shrinks n unfinished = ⊥

  if-Shrinks :
      (n : ℕ) (b : Bool) (x y : Round S)
      → Shrinks n x
      → Shrinks n y
      → Shrinks n (if b then x else y)
  if-Shrinks n true x y p q = p
  if-Shrinks n false x y p q = q

  Lawful-Shrinks :
      (n : ℕ) (c : Conn S) (r : Round S)
      → left env c < n
      → Lawful env c r
      → IsFinished r
      → Shrinks n r
  Lawful-Shrinks n c (stops d) h k f = _
  Lawful-Shrinks n c (goes_on d) h k f = omega (arith, h, k.less)
  Lawful-Shrinks n c unfinished h k f = f

  line_round-Shrinks :
      (n round : ℕ) (r : Received × Conn S)
      → ((line : Bytes) → r.0 ≡ received line → left env r.1 < n)
      → Shrinks n (line_round env round r)
  unfolding line_round
  line_round-Shrinks n round (read_error e, c) h = _
  line_round-Shrinks n round (received line, c) h =
      Lawful-Shrinks n c _ (h line refl) (trimmed_round-Lawful env _ c)
        (trimmed_round-IsFinished _ c)

  received-left :
      (c : Conn S) (r : Received × Conn S)
      → r.1.is_tls ≡ c.is_tls
      → TookLine (rest c) r
      → (line : Bytes) → r.0 ≡ received line
      → left env r.1 < left env c
  received-left c (read_error e, d) p h line q = absurd (ground (arith, q))
  received-left c (received l, d) p h line q = left-less env c d p h

  -- A round ends, and where the loop goes on, there is less to read than before.
  pub one_round-Shrinks : (round : ℕ) (c : Conn S) → Shrinks (left env c) (one_round env round c)
  unfolding one_round
  one_round-Shrinks round c = if-Shrinks (left env c) (env.cancelled_before round) _ _ _ (
      line_round-Shrinks (left env c) round (read_line env c) (
        received-left c (read_line env c) (ap (λ v. v.is_tls) (read_line-Calm env c).same_view)
          (read_line-TookLine env c)))

  abbrev IsServed : Option (Conn S) → Type 0
  IsServed o = (d : Conn S) × (o ≡ some d)

  next_round-IsServed :
      (n : ℕ) (again : Conn S → Option (Conn S))
      → ((d : Conn S) → left env d < n → IsServed (again d))
      → (r : Round S) → Shrinks n r
      → IsServed (next_round env again r)
  unfolding next_round
  next_round-IsServed n again f (stops d) h = (close d, refl)
  next_round-IsServed n again f (goes_on d) h = f d h
  next_round-IsServed n again f unfinished h = absurd h

  serve_from-IsServed :
      (fuel round : ℕ) (c : Conn S) → left env c < fuel → IsServed (serve_from env fuel round c)
  unfolding serve_from
  serve_from-IsServed zero round c h = absurd (omega (arith, h))
  serve_from-IsServed (suc fuel) round c h =
      next_round-IsServed (left env c) (serve_from env fuel (suc round))
        (λ d less. serve_from-IsServed fuel (suc round) d (omega (arith, h, less)))
        (one_round env round c) (one_round-Shrinks round c)

  greeted-IsServed :
      (fuel : ℕ) (r : Bool × Conn S) → left env r.1 < fuel → IsServed (greeted env fuel r)
  unfolding greeted
  greeted-IsServed fuel (false, c) h = (close c, refl)
  greeted-IsServed fuel (true, c) h = serve_from-IsServed fuel 0 c h

  serve-IsServed :
      (fuel : ℕ) (c : Conn S) → left env c < fuel → (d : Conn S) × (serve env fuel c ≡ some d)
  unfolding serve
  serve-IsServed fuel c h =
      let run : Run env c (flush (send_greeting env c)).1 =
        quiet (flush-Calm _ behind send_greeting-Calm env c) in
      greeted-IsServed fuel (flush (send_greeting env c)) (omega (arith, h, run.less))

  -- Whatever a client sends, and whatever the session answers, serve comes to its end within one round
  -- for each byte that is left to read, the stream behind a TLS handshake included, and then: each
  -- method on scripts was called behind a successful authentication, and each authentication was
  -- permitted in the clear or made behind TLS. The connection is new: not authenticated, nothing done.
  pub serve-guarded :
      (fuel : ℕ) (c : Conn S)
      → left env c < fuel
      → c.authenticated ≡ false
      → c.trace ≡ []
      → (d : Conn S) × ((serve env fuel c ≡ some d)
          × ((guarded (calls d.trace) ≡ true)
              × (confidential env.options.insecure_auth c.is_tls (calls d.trace) ≡ true)))
  serve-guarded fuel c h auth new =
      let (d, ends) = serve-IsServed fuel c h in
      let run : Run env c d = subst (Ended env c) ends (serve-Ended env fuel c) in
      let sound =
        Steps-Sound env.options.insecure_auth c.is_tls run.steps
          (fresh-Sound env.options.insecure_auth (view c) auth (ap calls new)) in
      (d, (ends, (sound.all_guarded, sound.all_confidential)))
