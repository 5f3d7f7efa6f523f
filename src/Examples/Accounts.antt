-- ===== src/Examples/Accounts.antt =====
-- A login of the client in the in-memory store, through the server.
use go_managesieve.Common.{
  ◌≡◌, ◌↔◌, ◌∙◌, ap, refl, arith, true, false, List, [], none, some, Bytes, codes,
}
use go_managesieve.Server.Reader.{eof}
use go_managesieve.Server.Parser.Requests.{quoted}
use go_managesieve.Server.Conn.State.{Conn, Env, emit, write_line, write}
use go_managesieve.Server.Conn.Capabilities.{auth_allowed}
use go_managesieve.Server.Conn.Auth.{handle_authenticate, auth_called, hijack_if, authenticated_as}
use go_managesieve.Server.Conn.Responses.{sent_bytes}
use go_managesieve.Store.Memory.{
  MemSession, lookup, stored_password, is_missing, log_in_found, log_in, log_in_plain, mem_methods,
}
use go_managesieve.Store.Memory.Admission.{admits}
use go_managesieve.Client.Operations.{authenticate}
use go_managesieve.Client.Login.{plain_arguments, plain_command-arrives}
use go_managesieve.Client.Dialogue.Accounts.{authenticate-admits}
use go_managesieve.Examples.Conn.{options}
use go_managesieve.Examples.Store.{upper, digest, check, session}
use go_managesieve.Examples.Client.{answer, answered, next_write-answered}

abbrev server : Env MemSession
server = record {
  options = options;
  methods = mem_methods upper digest (some check);
  upper_rune = upper;
  handshake = none;
  cancelled_before = λ round. false;
  cancelled_after = λ round. false;
  absolute_passed = λ round. false;
}

-- A connection of an application that has served user u before.
abbrev waiting : Conn MemSession
waiting = record {
  reader = record { buffered = []; incoming = []; ending = eof };
  trace = [];
  flushes = [];
  write_failed = false;
  authenticated = false;
  error_count = 0;
  is_tls = false;
  hijacked = false;
  close_pending = false;
  last_err = none;
  session = session;
}

allowed : auth_allowed server waiting ≡ true
unfolding auth_allowed
allowed = refl

admitted : admits upper digest (some check) (codes "v") (codes "v") (codes "q") session ≡ true
unfolding lookup
admitted = refl

-- The password of another user, and another user's name, admit nobody.
refused : admits upper digest (some check) [] (codes "v") (codes "p") session ≡ false
unfolding lookup
refused = refl

impersonated : admits upper digest (some check) (codes "u") (codes "v") (codes "q") session ≡ false
impersonated = refl

abbrev arguments : List Bytes
arguments = quoted (plain_arguments (codes "v") (codes "v") (codes "q"))

called-writes :
    sent_bytes
      (auth_called server
        (log_in_plain upper digest (some check) (codes "v") (codes "v") (codes "q") session)
        waiting).trace
    ≡ answer
unfolding lookup log_in_plain log_in log_in_found stored_password is_missing auth_called hijack_if
    authenticated_as emit write_line write
called-writes = refl

login-writes : sent_bytes (handle_authenticate server arguments waiting).trace ≡ answer
login-writes =
    let (_, handled) =
      plain_command-arrives server waiting (codes "v") (codes "v") (codes "q") refl allowed
        (ground arith) (ground arith) (ground arith) (ground arith) (ground arith) (ground arith)
        (ground arith) in
    ap (λ (d : Conn MemSession). sent_bytes d.trace) handled ∙ called-writes

authenticate-admits_example :
    (((authenticate (some 5) (codes "v") (codes "v") (codes "q") answered).0 ≡ none)
      ↔ (admits upper digest (some check) (codes "v") (codes "v") (codes "q") session ≡ true))
    × ((authenticate (some 5) (codes "v") (codes "v") (codes "q") answered).0 ≡ none
        → (handle_authenticate server arguments waiting).session.username ≡ codes "v")
authenticate-admits_example =
    authenticate-admits upper digest (some check) server waiting (some 5) answered (codes "v")
      (codes "v") (codes "q") answer (codes "BYE\r\n") refl refl refl allowed (ground arith)
      (ground arith) (ground arith) (ground arith) (ground arith) (ground arith) (ground arith)
      next_write-answered (omega arith) login-writes refl
