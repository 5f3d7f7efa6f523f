-- ===== src/Server/Conn/Refinement.antt =====
-- The runs of the protocol that code makes: those between two connections, and how they join.
pub mod Auth
pub mod Upgrade
pub mod Scripts
pub mod Commands
pub mod Rounds
use go_managesieve.Common.{
  ℕ, ◌+◌, ◌≤◌, ◌<◌, ◌≡◌, refl, sym, ap, subst, arith, Bool, true, false, Option, none, some,
  if◌then◌else◌, length,
}
use go_managesieve.Server.Conn.State.{Conn, Env, Event}
use go_managesieve.Server.Reader.{Reader, flat}
use go_managesieve.Server.Conn.Quiet.{View, view, rest, Calm}
use go_managesieve.Server.Conn.Protocol.{Step, Steps, stays, later}

-- What is left to read, with the stream behind a TLS handshake that is still to come.
abbrev stream_length : Option Reader → ℕ
stream_length none = 0
stream_length (some rd) = length (flat rd)

abbrev behind_tls : {S : Type 0} → Env S → Bool → ℕ
behind_tls env true = 0
behind_tls env false = stream_length env.handshake

abbrev pub left : {S : Type 0} → Env S → Conn S → ℕ
left env c = rest c + behind_tls env c.is_tls

-- The second connection is the first behind code that runs in the protocol and only reads.
pub record Run {S : Type 0} (env : Env S) (c d : Conn S) : Type 0 where
  pub steps : Steps env.options.insecure_auth (view c) (view d)
  pub less : left env d ≤ left env c

joined :
    {S : Type 0} {insecure : Bool} {v w x : View S}
    → Steps insecure v w
    → Steps insecure w x
    → Steps insecure v x
joined r stays = r
joined r (later vs s) = later (joined r vs) s

module _ {S : Type 0} (env : Env S) where
  pub left-view : (c d : Conn S) → d.is_tls ≡ c.is_tls → rest d ≤ rest c → left env d ≤ left env c
  left-view c d p h = subst (λ b. rest d + behind_tls env b ≤ left env c) (sym p) (omega (arith, h))

  pub left-less : (c d : Conn S) → d.is_tls ≡ c.is_tls → rest d < rest c → left env d < left env c
  left-less c d p h = subst (λ b. rest d + behind_tls env b < left env c) (sym p) (omega (arith, h))

  -- The stream behind the handshake is counted before it is read.
  pub left-upgraded :
      (reader : Reader) (c : Conn S)
      → c.is_tls ≡ false
      → some reader ≡ env.handshake
      → length (flat reader) ≤ left env c
  left-upgraded reader c plain same =
      subst (λ b. length (flat reader) ≤ rest c + behind_tls env b) (sym plain)
        (subst (λ o. length (flat reader) ≤ rest c + stream_length o) same (omega arith))

module _ {S : Type 0} {env : Env S} where
  pub quiet : {c d : Conn S} → Calm c d → Run env c d
  quiet {c} {d} p = record {
    steps = subst (Steps env.options.insecure_auth (view c)) (sym p.same_view) stays;
    less = left-view env c d (ap (λ v. v.is_tls) p.same_view) p.no_more;
  }

  pub then-Run : {c d e : Conn S} → Run env c d → Run env d e → Run env c e
  then-Run r q = record { steps = joined r.steps q.steps; less = omega (arith, r.less, q.less) }

  pub then_quiet : {c d e : Conn S} → Run env c d → Calm d e → Run env c e
  then_quiet r p = then-Run r (quiet p)

  pub quiet_then : {c d e : Conn S} → Calm c d → Run env d e → Run env c e
  quiet_then p r = then-Run (quiet p) r

  -- One step, by code that does not read.
  pub one_step :
      {c d : Conn S}
      → Step env.options.insecure_auth (view c) (view d)
      → left env d ≤ left env c
      → Run env c d
  one_step s h = record { steps = later stays s; less = h }

  pub if-Run :
      {c : Conn S} (b : Bool) (x y : Conn S)
      → (b ≡ true → Run env c x)
      → (b ≡ false → Run env c y)
      → Run env c (if b then x else y)
  if-Run true x y f g = f refl
  if-Run false x y f g = g refl

  pub if_pair-Run :
      {A : Type 0} {c : Conn S} (b : Bool) (x y : A × Conn S)
      → (b ≡ true → Run env c x.1)
      → (b ≡ false → Run env c y.1)
      → Run env c (if b then x else y).1
  if_pair-Run true x y f g = f refl
  if_pair-Run false x y f g = g refl
