-- ===== src/Examples/Client.antt =====
-- The client against streams and against the server's own greeting.
use go_managesieve.Common.{
  length, ◌<◌, ◌≤◌, ℕ, Bytes, ◌≡◌, ◌↔◌, ◌∙◌, ap, refl, arith, true, false, List, [], ◌∷◌, ◌++◌,
  none, some, codes, never, at, All, not, ◌&&◌,
}
use go_managesieve.Text.Search.{join}
use go_managesieve.Text.Decimal.{decimal}
use go_managesieve.Wire.{quote}
use go_managesieve.Server.Reader.{Reader, eof, flat, cut_line, read_slice, got}
use go_managesieve.Server.Reader.Lines.{seen}
use go_managesieve.Server.Parser.{tokens, command, parse_line}
use go_managesieve.Server.Parser.Requests.{quoted}
use go_managesieve.Server.Conn.Auth.{handle_authenticate, auth_called, hijack_if, authenticated_as}
use go_managesieve.Server.Conn.State.{Conn, emit, write_line, write}
use go_managesieve.Server.Conn.Capabilities.{send_greeting, auth_allowed}
use go_managesieve.Examples.Conn.{env, fresh, methods}
use go_managesieve.Client.Responses.{is_status, is_ok}
use go_managesieve.Client.Lines.{strip_line, read_response_line}
use go_managesieve.Client.Lines.Stream.{Reads, read_response_line-Reads}
use go_managesieve.Server.Conn.Responses.{sent_bytes}
use go_managesieve.Client.State.{Client, set_conn_deadline, next_write, read_capability_block}
use go_managesieve.Client.Operations.{
  plain_command, authenticate, start_tls, ClientOptions, limit_or, new_client,
}
use go_managesieve.Client.Login.{plain_arguments, plain_command-arrives}
use go_managesieve.Client.Dialogue.{authenticate-agrees}
use go_managesieve.Client.Blocks.Bounds.{Settled, read_capability_block-Settled}
use go_managesieve.Client.Greeting.{advertised, greeting_line}
use go_managesieve.Client.Greeting.Reading.{Fits}
use go_managesieve.Client.Greeting.Connecting.{GreetingRead, new_client-GreetingRead}
use go_managesieve.Client.Upgrade.{behind_handshake, start_tls-secure}
use go_managesieve.Client.Guard.{
  Guarded, GuardEvent, guards, pokes, arms_read, handshakes, is_done, poison, guard_step,
  guarded_run, stands,
}

-- A line whose '\r' and '\n' come in two segments.
abbrev segments : Reader
segments = record {
  buffered = codes "OK \"do";
  incoming = codes "ne\"\r" ∷ codes "\nNO\n" ∷ [];
  ending = eof;
}

abbrev pub connected_to : Reader → Client
connected_to reader = record {
  reader = reader;
  sent = [];
  writes = [];
  write_broken = false;
  max_line = 100;
  max_caps = 8;
  caps = (codes "OLD", codes "x") ∷ [];
  greeting = [];
  is_tls = false;
  closed = false;
  deadlines = record { poisoned = false; read = never; write = never };
}

status_ok : is_status (codes "OK (WARNINGS) \"x\"") (codes "OK") ≡ true
unfolding is_status
status_ok = refl

-- A capability whose name begins with those letters is no status.
notify_is_listed : is_status (codes "NOTIFY") (codes "NO") ≡ false
unfolding is_status
notify_is_listed = refl

read_split : seen (read_response_line 9 segments) ≡ (got (codes "OK \"done\""), codes "NO\n")
unfolding read_response_line read_slice
read_split = refl

cut_segments : cut_line (flat segments) ≡ some (codes "OK \"done\"\r\n", codes "NO\n")
unfolding cut_line
cut_segments = refl

read_response_line-Reads_example :
    Reads 9
      (strip_line (codes "OK \"done\"\r\n"))
      (codes "NO\n")
      (seen (read_response_line 9 segments))
read_response_line-Reads_example =
    read_response_line-Reads 9 segments (codes "OK \"done\"\r\n") (codes "NO\n") cut_segments

-- A server that sends a bare NO behind a capability.
abbrev refusing : Client
refusing =
    connected_to
      (record { buffered = codes "\"SIEVE\" \"a\"\r\nNO\r\n"; incoming = []; ending = eof })

read_capability_block-Settled_example :
    Settled 8 refusing (read_capability_block (λ r. r) none refusing)
read_capability_block-Settled_example = read_capability_block-Settled (λ r. r) none refusing

allowed : auth_allowed env (fresh []) ≡ true
unfolding auth_allowed
allowed = refl

abbrev pub answer : Bytes
answer = codes "OK \"Authenticated\"\r\n"

abbrev pub answered : Client
answered =
    connected_to (record { buffered = answer; incoming = codes "BYE\r\n" ∷ []; ending = eof })

abbrev arguments : List Bytes
arguments = quoted (plain_arguments [] (codes "u") (codes "p"))

called-writes :
    sent_bytes
      (auth_called env (methods.authenticate_plain [] (codes "u") (codes "p") 0) (fresh [])).trace
    ≡ answer
unfolding auth_called hijack_if authenticated_as emit write_line write
called-writes = refl

authentication-writes : sent_bytes (handle_authenticate env arguments (fresh [])).trace ≡ answer
authentication-writes =
    let (_, handled) =
      plain_command-arrives env (fresh []) [] (codes "u") (codes "p") refl allowed tt (ground arith)
        (ground arith) (ground arith) tt (ground arith) (ground arith) in
    ap (λ (d : Conn ℕ). sent_bytes d.trace) handled ∙ called-writes

pub next_write-answered : (not answered.write_broken && next_write answered.writes) ≡ true
unfolding next_write
next_write-answered = refl

authenticate-agrees_example :
    (parse_line env.upper_rune (plain_command [] (codes "u") (codes "p") ++ codes "\r\n")
      ≡ command (codes "AUTHENTICATE") (tokens arguments))
    × (handle_authenticate env arguments (fresh [])
        ≡ auth_called env (methods.authenticate_plain [] (codes "u") (codes "p") 0) (fresh []))
    × (((authenticate (some 5) [] (codes "u") (codes "p") answered).0 ≡ none)
        ↔ ((handle_authenticate env arguments (fresh [])).authenticated ≡ true))
authenticate-agrees_example =
    authenticate-agrees env (fresh []) (some 5) answered [] (codes "u") (codes "p") answer
      (codes "BYE\r\n") refl refl allowed refl tt (ground arith) (ground arith) (ground arith) tt
      (ground arith) (ground arith) next_write-answered (omega arith) authentication-writes refl

abbrev injecting : Client
injecting =
    connected_to
      (record { buffered = codes "OK\r\nOK \"injected\"\r\n"; incoming = []; ending = eof })

abbrev secure : Reader
secure = record { buffered = []; incoming = codes "OK \"secure\"\r\n" ∷ []; ending = eof }

writable : (not injecting.write_broken && next_write injecting.writes) ≡ true
unfolding next_write
writable = refl

ok_is_ok : is_ok (codes "OK") ≡ true
unfolding is_ok
ok_is_ok = refl

start_tls-secure_example :
    start_tls (λ r. r) (some 5) (some secure) injecting
    ≡ read_capability_block (λ r. r) (some 5) (behind_handshake (some 5) secure injecting)
start_tls-secure_example =
    start_tls-secure (λ r. r) (some 5) secure injecting (codes "OK") (codes "OK \"injected\"\r\n")
      writable (ground arith) (omega arith) ok_is_ok refl

abbrev defaults : ClientOptions
defaults = record {
  tls_config = false;
  start_tls = false;
  max_line_length = 0;
  max_capability_lines = 0;
}

abbrev greeting_stream : Reader
greeting_stream = record {
  buffered = [];
  incoming = sent_bytes (send_greeting env (fresh [])).trace ∷ [];
  ending = eof;
}

limits : (limit_or 64 0 ≡ 64) × (limit_or 8192 0 ≡ 8192)
unfolding limit_or
limits = (refl, refl)

few_capabilities : length (advertised env (fresh [])) < limit_or 64 0
unfolding limit_or
few_capabilities = omega arith

greeting-Fits : All (Fits (limit_or 8192 0)) (advertised env (fresh []))
unfolding quote join decimal limit_or
greeting-Fits = ground arith

greeting-short : length (greeting_line env (fresh [])) ≤ limit_or 8192 0
unfolding limit_or
greeting-short = omega arith

new_client-GreetingRead_example :
    GreetingRead
      (λ r. r)
      (advertised env (fresh []))
      (greeting_line env (fresh []))
      []
      (new_client (λ r. r) none defaults none greeting_stream [])
new_client-GreetingRead_example =
    new_client-GreetingRead env (fresh []) (λ r. r) none defaults none greeting_stream [] [] refl
      refl few_capabilities greeting-Fits (ground arith) greeting-short refl

-- A guard is set up, its context is cancelled, and a read arms its deadline.
abbrev guarded : Guarded
guarded = record { deadlines = record { poisoned = false; read = never; write = never }; done = [] }

abbrev cancelled_read : List GuardEvent
cancelled_read = guards ∷ pokes 0 ∷ arms_read (some 7) ∷ []

cancelled-stands : stands cancelled_read [] false ≡ true
unfolding is_done
cancelled-stands = refl

-- A handshake of startTLS behind the cancellation arms the deadline again.
resurrected :
    (guarded_run (guards ∷ pokes 0 ∷ handshakes (some 7) ∷ []) guarded).deadlines
    ≡ record { poisoned = true; read = at 7; write = at 7 }
unfolding guarded_run guard_step is_done poison set_conn_deadline
resurrected = refl
