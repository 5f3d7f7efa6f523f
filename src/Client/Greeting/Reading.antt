-- ===== src/Client/Greeting/Reading.antt =====
-- The server's greeting (managesieveserver/conn.go) read by the client
-- (managesieveclient/client.go).
use go_managesieve.Common.{
  ℕ, ◌≤◌, ◌<◌, ◌≡◌, refl, ◌∙◌, ap, subst, true, false, ◌&&◌, not, ◌||◌, List, [], ◌∷◌, ◌++◌, arith,
  Bytes, codes, if◌then◌else◌, length, All, Bool-cases, inl, inr,
}
use go_managesieve.Text.Search.{Lacks}
use go_managesieve.Wire.{Capability, quote}
use go_managesieve.Server.Reader.{flat}
use go_managesieve.Server.Conn.State.{Conn, Env}
use go_managesieve.Server.Conn.Capabilities.{capability_line, send_greeting}
use go_managesieve.Client.Responses.{is_status, is_ok}
use go_managesieve.Server.Conn.Responses.{sent_bytes}
use go_managesieve.Client.State.{Context, Client, add_capability, read_capability_block}
use go_managesieve.Client.Capabilities.{parse_capability_line-quote}
use go_managesieve.Client.Blocks.{IsListed, collected, BlockRead, read_capability_block-listing}
use go_managesieve.Client.Greeting.{lines_of, advertised, greeting_line, send_greeting-listing}

-- A capability line is no status line.
abbrev NoStatus : Bytes → Type 0
NoStatus l = (is_ok l ≡ false) × ((is_status l (codes "NO") || is_status l (codes "BYE")) ≡ false)

quote-NoStatus : (s : Bytes) → NoStatus (quote s)
unfolding quote is_ok
quote-NoStatus s = (refl, refl)

quote-NoStatus_append : (s t : Bytes) → NoStatus (quote s ++ t)
unfolding quote is_ok
quote-NoStatus_append s t = (refl, refl)

capability_line-NoStatus : (capa : Capability) → NoStatus (capability_line capa)
capability_line-NoStatus capa = elim (Bool-cases capa.has_value) [
  | inl h ↦ rw h (quote-NoStatus_append capa.name (b' ' ∷ quote capa.value))
  | inr h ↦ rw h (quote-NoStatus capa.name)
]

-- A capability whose line is within the limit and has no line break.
abbrev pub Fits : ℕ → Capability → Type 0
Fits max_line capa = Lacks b'\n' (capability_line capa) × (length (capability_line capa) ≤ max_line)

lines_of-IsListed :
    (max_line : ℕ) (capas : List Capability)
    → All (Fits max_line) capas
    → All (IsListed max_line) (lines_of capas)
lines_of-IsListed max_line [] h = tt
lines_of-IsListed max_line (capa ∷ capas) ((lacks, le), h) =
    let (p, q) = capability_line-NoStatus capa in
    ((lacks, le, p, q), lines_of-IsListed max_line capas h)

length-lines_of : (capas : List Capability) → length (lines_of capas) ≡ length capas
length-lines_of [] = refl
length-lines_of (capa ∷ capas) = omega (arith, length-lines_of capas)

module _ (upper_rune : ℕ → ℕ) where
  -- The map of the advertised capabilities, one after the other.
  abbrev pub known : List Capability → List (Bytes × Bytes) → List (Bytes × Bytes)
  known [] caps = caps
  known (capa ∷ capas) caps =
      known capas
        (add_capability upper_rune (capa.name, if capa.has_value then capa.value else []) caps)

  collected-known :
      (capas : List Capability) (caps : List (Bytes × Bytes))
      → collected upper_rune (lines_of capas) caps ≡ known capas caps
  collected-known [] caps = refl
  collected-known (capa ∷ capas) caps =
      ap (λ nv. collected upper_rune (lines_of capas) (add_capability upper_rune nv caps))
        (parse_capability_line-quote capa)
      ∙ collected-known capas _

greeting_line-is_ok : {S : Type 0} (env : Env S) (c : Conn S) → is_ok (greeting_line env c) ≡ true
unfolding is_ok
greeting_line-is_ok env c =
    elim (Bool-cases
      (env.options.greeting_start_tls_hint && (env.options.tls_config && not c.is_tls))) [
        | inl p ↦ rw p refl
        | inr p ↦ rw p refl
      ]

-- A client that reads the greeting of a fresh connection, of which no line is over its MaxLineLength or
-- has a line break in it and which is within its MaxCapabilityLines, ends without an error, knows
-- every advertised capability with its value and the text of the greeting, and leaves what the
-- server sends behind it in the stream.
pub send_greeting-BlockRead :
    {S : Type 0} (env : Env S) (c : Conn S) (upper_rune : ℕ → ℕ) (ctx : Context) (k : Client)
    (rest : Bytes)
    → c.trace ≡ []
    → length (advertised env c) < k.max_caps
    → All (Fits k.max_line) (advertised env c)
    → Lacks b'\n' (greeting_line env c)
    → length (greeting_line env c) ≤ k.max_line
    → flat k.reader ≡ sent_bytes (send_greeting env c).trace ++ rest
    → BlockRead upper_rune
        (known upper_rune (advertised env c) [])
        (greeting_line env c)
        rest
        (read_capability_block upper_rune ctx k)
send_greeting-BlockRead env c upper_rune ctx k rest fresh few fits lacks le e =
    subst
      (λ caps.
        BlockRead upper_rune caps (greeting_line env c) rest
          (read_capability_block upper_rune ctx k))
      (collected-known upper_rune (advertised env c) [])
      (read_capability_block-listing upper_rune ctx k (lines_of (advertised env c))
        (greeting_line env c) rest (omega (arith, length-lines_of (advertised env c)))
        (lines_of-IsListed k.max_line (advertised env c) fits)
        (lacks, le, greeting_line-is_ok env c) (e ∙ send_greeting-listing env c rest fresh))
