-- ===== src/Client/Greeting/Connecting.antt =====
-- NewClient of managesieveclient/client.go without TLS against the greeting of
-- managesieveserver/conn.go.
use go_managesieve.Common.{
  ℕ, ◌≤◌, ◌<◌, ◌≡◌, refl, sym, ◌∙◌, ap, subst, Bool, false, not, ◌&&◌, List, [], ◌++◌, Option, none,
  some, Bytes, if◌then◌else◌, length, All, fresh_deadlines,
}
use go_managesieve.Text.Search.{Lacks}
use go_managesieve.Wire.{Capability}
use go_managesieve.Server.Reader.{Reader, flat}
use go_managesieve.Server.Conn.State.{Conn, Env}
use go_managesieve.Server.Conn.Capabilities.{send_greeting}
use go_managesieve.Server.Conn.Responses.{sent_bytes}
use go_managesieve.Client.State.{Context, ClientError, Client, read_capability_block}
use go_managesieve.Client.Operations.{
  ClientOptions, limit_or, after_write, start_tls, or_close, connected, implicit_tls, fresh_client,
  new_client,
}
use go_managesieve.Client.Blocks.{BlockRead}
use go_managesieve.Client.Greeting.{advertised, greeting_line}
use go_managesieve.Client.Greeting.Values.{value_at, last_value, value_at-known}
use go_managesieve.Client.Greeting.Reading.{Fits, known, send_greeting-BlockRead}

-- The client that NewClient reads the greeting with.
abbrev pub greeted_client : ClientOptions → Reader → List Bool → Client
greeted_client options reader writes = fresh_client options reader false fresh_deadlines writes

module _ (upper_rune : ℕ → ℕ) (ctx : Context) (options : ClientOptions)
    (plain : options.tls_config ≡ false) where
  connected-none :
      (handshake : Option Reader) (c : Client) (r : Option ClientError × Client)
      → r.0 ≡ none
      → or_close upper_rune (
          after_write some
            (λ c'.
              if options.tls_config && options.start_tls
              then start_tls upper_rune ctx handshake c'
              else (none, c'))
            r)
        ≡ r
  unfolding or_close after_write
  connected-none handshake c r done = rw (plain, done) refl

  new_client-connected :
      (handshake : Option Reader) (reader : Reader) (writes : List Bool)
      → new_client upper_rune ctx options handshake reader writes
        ≡ connected upper_rune ctx options handshake (greeted_client options reader writes)
  unfolding new_client
  new_client-connected handshake reader writes =
      ap
        (λ b.
          if b && not options.start_tls
          then implicit_tls upper_rune ctx options handshake reader writes
          else connected upper_rune ctx options handshake (greeted_client options reader writes))
        plain

  new_client-plain :
      (handshake : Option Reader) (reader : Reader) (writes : List Bool)
      → (read_capability_block upper_rune ctx (greeted_client options reader writes)).0 ≡ none
      → new_client upper_rune ctx options handshake reader writes
        ≡ read_capability_block upper_rune ctx (greeted_client options reader writes)
  unfolding connected
  new_client-plain handshake reader writes done =
      new_client-connected handshake reader writes
      ∙ connected-none handshake (greeted_client options reader writes) _ done

-- The greeting was read: no error, under every key the value of the last capability of that name, the
-- text of the greeting, and the stream behind it.
abbrev pub GreetingRead :
    (ℕ → ℕ) → List Capability → Bytes → Bytes → Option ClientError × Client → Type 0
GreetingRead upper_rune capas final rest (e, k) =
    (e ≡ none)
    × ((key : Bytes) → value_at key k.caps ≡ last_value upper_rune key capas)
    × (k.greeting ≡ final)
    × (flat k.reader ≡ rest)

-- NewClient without TLS on a connection on which the server has just sent its greeting, of which no
-- line is over the client's limit (8192 bytes if the options set none) or has a line break in it and
-- which has fewer capabilities than its limit (64 if the options set none): it ends without an error,
-- knows under each upper-cased name the value of the last advertised capability of that name, and
-- nothing under any other key, knows the text of the greeting, and leaves what the server sends
-- behind it in the stream.
pub new_client-GreetingRead :
    {S : Type 0} (env : Env S) (c : Conn S) (upper_rune : ℕ → ℕ) (ctx : Context)
    (options : ClientOptions) (handshake : Option Reader) (reader : Reader) (writes : List Bool)
    (rest : Bytes)
    → options.tls_config ≡ false
    → c.trace ≡ []
    → length (advertised env c) < limit_or 64 options.max_capability_lines
    → All (Fits (limit_or 8192 options.max_line_length)) (advertised env c)
    → Lacks b'\n' (greeting_line env c)
    → length (greeting_line env c) ≤ limit_or 8192 options.max_line_length
    → flat reader ≡ sent_bytes (send_greeting env c).trace ++ rest
    → GreetingRead upper_rune
        (advertised env c)
        (greeting_line env c)
        rest
        (new_client upper_rune ctx options handshake reader writes)
new_client-GreetingRead env c upper_rune ctx options handshake reader writes rest plain fresh few
      fits lacks le e =
    let read =
      send_greeting-BlockRead env c upper_rune ctx (greeted_client options reader writes) rest fresh
        few fits lacks le e in
    let (done, caps, greeting, behind) =
      subst
        (BlockRead upper_rune (known upper_rune (advertised env c) []) (greeting_line env c) rest)
        (sym (new_client-plain upper_rune ctx options plain handshake reader writes read.0)) read in
    (
      done,
      λ key. ap (value_at key) caps ∙ value_at-known upper_rune key (advertised env c),
      greeting,
      behind,
    )
