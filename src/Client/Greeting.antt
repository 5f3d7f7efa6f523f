-- ===== src/Client/Greeting.antt =====
-- The greeting of managesieveserver/conn.go as managesieveclient/client.go reads it.
pub mod Reading
pub mod Values
pub mod Connecting
use go_managesieve.Common.{
  ℕ, ◌≤◌, ◌≡◌, ◌≢◌, refl, sym, ◌∙◌, ap, subst, Bool, true, false, not, ◌&&◌, ◌||◌, List, [], ◌∷◌,
  ◌++◌, append_assoc, append-nil, arith, Bytes, codes, ltb, ◌==◌, if◌then◌else◌, length, All,
  All-append, All-map, Bool-cases, inl, inr,
}
use go_managesieve.Text.Decimal.{decimal, IsDigit, decimal-IsDigit}
use go_managesieve.Text.Search.{Lacks, join, replace_all}
use go_managesieve.Wire.{Capability, escape, quote}
use go_managesieve.Server.Parser.Quoting.{escape_byte, escape-cons, escape-nil}
use go_managesieve.Server.Conn.State.{Event, wrote, Conn, Env, emit, write, write_line}
use go_managesieve.Server.Conn.Capabilities.{
  start_tls_available, auth_allowed, write_if, write_extra, capability_line, send_capability_block,
  send_greeting,
}
use go_managesieve.Server.Conn.Responses.{sent_bytes}
use go_managesieve.Client.Blocks.{crlf, listing}

abbrev pub lines_of : List Capability → List Bytes
lines_of [] = []
lines_of (capa ∷ capas) = capability_line capa ∷ lines_of capas

-- The lines written one after the other.
abbrev pub written : List Bytes → List Event → List Event
written [] trace = trace
written (l ∷ lines) trace = written lines (wrote (l ++ crlf) ∷ trace)

abbrev pub plain_capability : Bytes → Bytes → Capability
plain_capability name value = record { name = name; value = value; has_value = true }

escape-fixed : (s : Bytes) → All (λ c. (c ≢ b'"') × (c ≢ b'\\')) s → escape s ≡ s
escape-fixed [] h = escape-nil
escape-fixed (c ∷ s) ((p, q), h) =
    let same : escape_byte c ≡ c ∷ [] = ground arith in
    rw (escape-cons c s, same, escape-fixed s h) refl

replace_all-decimal :
    (n : ℕ)
    → replace_all b'"' (b'\\' ∷ b'"' ∷ []) (replace_all b'\\' (b'\\' ∷ b'\\' ∷ []) (decimal n))
      ≡ decimal n
unfolding escape
replace_all-decimal n = escape-fixed (decimal n) (
    All-map IsDigit (λ c. (c ≢ b'"') × (c ≢ b'\\')) (λ c h. ground arith) (decimal n)
      (decimal-IsDigit n))

module _ {S : Type 0} (env : Env S) (c : Conn S) where
  open env use {options}

  abbrev pub max_capability : List Capability
  max_capability =
      if ltb 0 options.max_script_size
      then plain_capability (codes "MAXSCRIPTSIZE") (decimal options.max_script_size) ∷ []
      else []

  -- What the server advertises.
  abbrev pub advertised : List Capability
  advertised =
      plain_capability (codes "IMPLEMENTATION") options.implementation
      ∷ plain_capability (codes "VERSION") (codes "1.0")
      ∷ plain_capability (codes "SIEVE") (join (codes " ") options.sieve_extensions)
      ∷ ((if options.tls_config && not c.is_tls
            then record { name = codes "STARTTLS"; value = []; has_value = false } ∷ []
            else [])
          ++ plain_capability (codes "SASL")
              (if options.insecure_auth || c.is_tls then codes "PLAIN" else [])
            ∷ (max_capability ++ options.extra_capabilities))

  abbrev pub greeting_line : Bytes
  greeting_line =
      if options.greeting_start_tls_hint && (options.tls_config && not c.is_tls)
      then codes "OK (STARTTLS) " ++ options.greeting
      else codes "OK " ++ options.greeting

module _ {S : Type 0} where
  write_extra-written :
      (capas : List Capability) (c : Conn S)
      → write_extra capas c ≡ record c { trace = written (lines_of capas) c.trace }
  unfolding write_extra write_line write emit
  write_extra-written [] c = refl
  write_extra-written (capa ∷ capas) c =
      write_extra-written capas
        (record c { trace = wrote (capability_line capa ++ crlf) ∷ c.trace })

  -- The last lines of the block, from the MAXSCRIPTSIZE line on.
  max_script_size-written :
      (env : Env S) (c : Conn S)
      → write_extra env.options.extra_capabilities (
          write_if
            (ltb 0 env.options.max_script_size)
            (codes "\"MAXSCRIPTSIZE\" \"" ++ (decimal env.options.max_script_size ++ codes "\""))
            c)
        ≡ record c {
          trace =
              written (lines_of (max_capability env c ++ env.options.extra_capabilities)) c.trace;
        }
  unfolding write_if write_line write emit quote
  max_script_size-written env c = elim (Bool-cases (ltb 0 env.options.max_script_size)) [
    | inl r ↦
        rw (r, replace_all-decimal env.options.max_script_size)
          (write_extra-written env.options.extra_capabilities _)
    | inr r ↦ rw r (write_extra-written env.options.extra_capabilities c)
  ]

  send_capability_block-written :
      (env : Env S) (c : Conn S)
      → send_capability_block env c
        ≡ record c { trace = written (lines_of (advertised env c)) c.trace }
  unfolding send_capability_block start_tls_available auth_allowed write_line write emit quote
      write_if
  send_capability_block-written env c = elim (Bool-cases (env.options.tls_config && not c.is_tls)) [
    | inl p ↦ rw p (elim (Bool-cases (env.options.insecure_auth || c.is_tls)) [
      | inl q ↦ rw q (max_script_size-written env _)
      | inr q ↦ rw q (max_script_size-written env _)
    ])
    | inr p ↦ rw p (elim (Bool-cases (env.options.insecure_auth || c.is_tls)) [
      | inl q ↦ rw q (max_script_size-written env _)
      | inr q ↦ rw q (max_script_size-written env _)
    ])
  ]

  send_greeting-written :
      (env : Env S) (c : Conn S)
      → (send_greeting env c).trace
        ≡ wrote (greeting_line env c ++ crlf) ∷ written (lines_of (advertised env c)) c.trace
  unfolding send_greeting start_tls_available write_line write emit
  send_greeting-written env c =
      rw (send_capability_block-written env c)
        (elim (Bool-cases
          (env.options.greeting_start_tls_hint && (env.options.tls_config && not c.is_tls))) [
            | inl p ↦ rw p refl
            | inr p ↦ rw p refl
          ])

written-listing :
    (lines : List Bytes) (final rest : Bytes) (trace : List Event)
    → sent_bytes (written lines trace) ++ (final ++ (crlf ++ rest))
      ≡ sent_bytes trace ++ listing lines final rest
written-listing [] final rest trace = refl
written-listing (l ∷ lines) final rest trace =
    written-listing lines final rest (wrote (l ++ crlf) ∷ trace)
    ∙ append_assoc (sent_bytes trace) (l ++ crlf) (listing lines final rest)
    ∙ ap (λ t. sent_bytes trace ++ t) (append_assoc l crlf (listing lines final rest))

-- On a fresh connection the greeting is the listing of what the server advertises.
pub send_greeting-listing :
    {S : Type 0} (env : Env S) (c : Conn S) (rest : Bytes)
    → c.trace ≡ []
    → sent_bytes (send_greeting env c).trace ++ rest
      ≡ listing (lines_of (advertised env c)) (greeting_line env c) rest
send_greeting-listing env c rest fresh =
    ap (λ t. sent_bytes t ++ rest) (send_greeting-written env c)
    ∙ append_assoc (sent_bytes (written (lines_of (advertised env c)) c.trace))
        (greeting_line env c ++ crlf) rest
    ∙ ap (λ t. sent_bytes (written (lines_of (advertised env c)) c.trace) ++ t)
        (append_assoc (greeting_line env c) crlf rest)
    ∙ written-listing (lines_of (advertised env c)) (greeting_line env c) rest c.trace
    ∙ ap (λ t. sent_bytes t ++ listing (lines_of (advertised env c)) (greeting_line env c) rest)
        fresh
