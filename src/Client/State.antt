-- ===== src/Client/State.antt =====
-- The state of the client and its operations (type Client of managesieveclient/client.go).
use go_managesieve.Common.{
  ℕ, zero, suc, Bool, true, not, ◌&&◌, ◌||◌, List, [], ◌∷◌, ◌++◌, Option, none, some, Bytes, codes,
  bytes_eq, if◌then◌else◌, Deadline, Deadlines, at,
}
use go_managesieve.Text.Utf8.{to_upper}
use go_managesieve.Server.Reader.{ReadError, broken, Reader, LineResult, got, refused, out_of_fuel}
use go_managesieve.Client.Lines.{read_response_line}
use go_managesieve.Client.Responses.{is_status, is_ok, parse_capability_line}

-- The deadline of the context, if it has one.
abbrev pub Context : Type 0
Context = Option ℕ

unfoldable pub arm_read_deadline : Context → Deadlines → Deadlines
arm_read_deadline none d = d
arm_read_deadline (some t) d = if d.poisoned then d else record d { read = at t }

unfoldable pub arm_write_deadline : Context → Deadlines → Deadlines
arm_write_deadline none d = d
arm_write_deadline (some t) d = if d.poisoned then d else record d { write = at t }

-- SetDeadline on the connection, which startTLS calls before the handshake.
unfoldable pub set_conn_deadline : Context → Deadlines → Deadlines
set_conn_deadline none d = d
set_conn_deadline (some t) d = record d { read = at t; write = at t }

-- Client.SetDeadline.
unfoldable pub set_client_deadline : Deadline → Deadlines → Deadlines
set_client_deadline t d = record d { read = t; write = t }

-- The errors of the operations; ProtocolError carries the offending line.
pub data ClientError : Type 0 where
  read_failed : ReadError → ClientError
  write_failed : ClientError
  protocol_error : Bytes → ClientError
  block_too_long : ClientError
  handshake_failed : ClientError

pub record Client : Type 0 where
  pub reader : Reader
  -- the lines that were written, newest first
  pub sent : List Bytes
  -- how the coming writes end; past the end they succeed
  pub writes : List Bool
  -- the error of bufio.Writer, which stays
  pub write_broken : Bool
  pub max_line : ℕ
  pub max_caps : ℕ
  pub caps : List (Bytes × Bytes)
  pub greeting : Bytes
  pub is_tls : Bool
  pub closed : Bool
  pub deadlines : Deadlines

pub data LineReply : Type 0 where
  response : Bytes → LineReply
  no_response : ClientError → LineReply

-- The fuel of a read does not run out, so the last clause is not reached.
unfoldable pub response_of : LineResult → LineReply
response_of (got line) = response line
response_of (refused e) = no_response (read_failed e)
response_of out_of_fuel = no_response (read_failed broken)

unfoldable pub read_response : Context → Client → LineReply × Client
unfolding response_of
read_response ctx c =
    let (result, reader) = read_response_line c.max_line c.reader in
    (
      response_of result,
      record c { reader = reader; deadlines = arm_read_deadline ctx c.deadlines },
    )

unfoldable pub next_write : List Bool → Bool
next_write [] = true
next_write (b ∷ bs) = b

unfoldable pub later_writes : List Bool → List Bool
later_writes [] = []
later_writes (b ∷ bs) = bs

unfoldable pub write_cmd : Context → Bytes → Client → Option ClientError × Client
unfolding next_write later_writes
write_cmd ctx line c =
    let armed = record c { deadlines = arm_write_deadline ctx c.deadlines } in
    if not c.write_broken && next_write c.writes
    then (
      none,
      record armed { sent = (line ++ codes "\r\n") ∷ c.sent; writes = later_writes c.writes },
    )
    else (
      some write_failed,
      record armed {
        writes = if c.write_broken then c.writes else later_writes c.writes;
        write_broken = true;
      },
    )

-- `caps[name] = value`
unfoldable pub put_capability : Bytes → Bytes → List (Bytes × Bytes) → List (Bytes × Bytes)
put_capability name value [] = (name, value) ∷ []
put_capability name value ((n, v) ∷ caps) =
    let rest = put_capability name value caps in
    if bytes_eq n name then (n, value) ∷ caps else (n, v) ∷ rest

unfoldable pub add_capability :
    (ℕ → ℕ) → Bytes × Bytes → List (Bytes × Bytes) → List (Bytes × Bytes)
add_capability upper_rune ([], value) caps = caps
add_capability upper_rune (c ∷ name, value) caps =
    put_capability (to_upper upper_rune (c ∷ name)) value caps

module _ (upper_rune : ℕ → ℕ) where
  -- One round of the loop of readCapabilityBlock behind its read; `more` is the rest of the loop.
  unfoldable pub block_step :
      Context
      → (List (Bytes × Bytes) → Client → Option ClientError × Client)
      → List (Bytes × Bytes)
      → LineReply × Client
      → Option ClientError × Client
  block_step ctx more caps (no_response e, c) = (some e, c)
  block_step ctx more caps (response line, c) =
      let rest = more (add_capability upper_rune (parse_capability_line line) caps) c in
      if is_ok line
      then (none, record c { caps = caps; greeting = line })
      else if is_status line (codes "NO") || is_status line (codes "BYE")
      then (some (protocol_error line), c)
      else rest

  -- The loop with the lines that it may still read.
  unfoldable pub block_from :
      ℕ → Context → List (Bytes × Bytes) → Client → Option ClientError × Client
  unfolding block_step
  block_from zero ctx caps c = (some block_too_long, c)
  block_from (suc left) ctx caps c = block_step ctx (block_from left ctx) caps (read_response ctx c)

  unfoldable pub read_capability_block : Context → Client → Option ClientError × Client
  unfolding block_from
  read_capability_block ctx c = block_from c.max_caps ctx [] c
