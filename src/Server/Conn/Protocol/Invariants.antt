-- ===== src/Server/Conn/Protocol/Invariants.antt =====
-- What every run of the protocol keeps.
use go_managesieve.Common.{
  ◌≡◌, false-ne-true, refl, sym, ◌∙◌, ap, arith, Bool, true, false, not, ◌&&◌, ◌||◌, List, [], ◌∷◌,
}
use go_managesieve.Server.Conn.State.{Event, called_auth, called_script, upgraded}
use go_managesieve.Server.Conn.Quiet.{View}
use go_managesieve.Server.Conn.Protocol.{
  Step, scripts, tries, upgrades, extension, Steps, stays, later,
}

-- Whether a trace, newest first, holds a successful authentication.
abbrev pub granted : List Event → Bool
granted [] = false
granted (called_auth success ∷ t) = success || granted t
granted (e ∷ t) = granted t

-- Whether each method on scripts was called behind a successful authentication.
abbrev pub guarded : List Event → Bool
guarded [] = true
guarded (called_script call ∷ t) = granted t && guarded t
guarded (e ∷ t) = guarded t

-- Whether the connection is encrypted, from what it was at first.
abbrev pub encrypted : Bool → List Event → Bool
encrypted tls [] = tls
encrypted tls (upgraded ∷ t) = true
encrypted tls (e ∷ t) = encrypted tls t

-- Whether each attempt to authenticate was permitted in the clear or made behind TLS.
abbrev pub confidential : Bool → Bool → List Event → Bool
confidential insecure tls [] = true
confidential insecure tls (called_auth success ∷ t) =
    (insecure || encrypted tls t) && confidential insecure tls t
confidential insecure tls (e ∷ t) = confidential insecure tls t

-- The invariant of a connection that was encrypted at first or not.
pub record Sound {S : Type 0} (insecure tls : Bool) (v : View S) : Type 0 where
  pub only_granted : v.authenticated ≡ true → granted v.calls ≡ true
  pub all_guarded : guarded v.calls ≡ true
  pub same_tls : encrypted tls v.calls ≡ v.is_tls
  pub all_confidential : confidential insecure tls v.calls ≡ true

and-true : {b c : Bool} → b ≡ true → c ≡ true → (b && c) ≡ true
and-true p q = ground (arith, p, q)

granted-head :
    (success hijacked : Bool) (rest : Bool)
    → (success && not hijacked) ≡ true
    → (success || rest) ≡ true
granted-head success hijacked rest p = ground (arith, p)

module _ {S : Type 0} (insecure tls : Bool) where
  Step-Sound : {v w : View S} → Step insecure v w → Sound insecure tls v → Sound insecure tls w
  Step-Sound (scripts call s auth) h = record {
    only_granted = h.only_granted;
    all_guarded = and-true (h.only_granted auth) h.all_guarded;
    same_tls = h.same_tls;
    all_confidential = h.all_confidential;
  }
  Step-Sound (tries s success hijacked auth allowed) h = record {
    only_granted = granted-head success hijacked _;
    all_guarded = h.all_guarded;
    same_tls = h.same_tls;
    all_confidential = and-true (ap (λ b. insecure || b) h.same_tls ∙ allowed) h.all_confidential;
  }
  Step-Sound (upgrades auth plain) h = record {
    only_granted = h.only_granted;
    all_guarded = h.all_guarded;
    same_tls = refl;
    all_confidential = h.all_confidential;
  }
  Step-Sound (extension s) h = record {
    only_granted = h.only_granted;
    all_guarded = h.all_guarded;
    same_tls = h.same_tls;
    all_confidential = h.all_confidential;
  }

  pub Steps-Sound :
      {v w : View S} → Steps insecure v w → Sound insecure tls v → Sound insecure tls w
  Steps-Sound stays h = h
  Steps-Sound (later vs s) h = Step-Sound s (Steps-Sound vs h)

pub fresh-Sound :
    {S : Type 0} (insecure : Bool) (v : View S)
    → v.authenticated ≡ false
    → v.calls ≡ []
    → Sound insecure v.is_tls v
fresh-Sound insecure v auth new = record {
  only_granted = λ h. absurd (false-ne-true (sym auth ∙ h));
  all_guarded = ap guarded new;
  same_tls = ap (encrypted v.is_tls) new;
  all_confidential = ap (confidential insecure v.is_tls) new;
}

module _ {S : Type 0} (insecure : Bool) where
  Step-authenticated :
      {v w : View S}
      → Step insecure v w
      → v.authenticated ≡ true
      → (w.authenticated ≡ true) × (w.is_tls ≡ v.is_tls)
  Step-authenticated (scripts call s auth) h = (h, refl)
  Step-authenticated (tries s success hijacked auth allowed) h =
      absurd (false-ne-true (sym auth ∙ h))
  Step-authenticated (upgrades auth plain) h = absurd (false-ne-true (sym auth ∙ h))
  Step-authenticated (extension s) h = (h, refl)

  -- An authenticated client stays one, on the same transport.
  pub Steps-authenticated :
      {v w : View S}
      → Steps insecure v w
      → v.authenticated ≡ true
      → (w.authenticated ≡ true) × (w.is_tls ≡ v.is_tls)
  Steps-authenticated stays h = (h, refl)
  Steps-authenticated (later vs s) h =
      let (auth, same) = Steps-authenticated vs h in
      let (auth', same') = Step-authenticated s auth in (auth', same' ∙ same)
