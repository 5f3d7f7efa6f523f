-- ===== src/Examples/Conn.antt =====
-- A connection from its greeting to its end, with a session of one user and one script.
use go_managesieve.Common.{
  arith, ℕ, suc, ◌≡◌, refl, true, false, ◌&&◌, List, [], ◌∷◌, Option, none, some, Bytes, codes,
  bytes_eq, if◌then◌else◌,
}
use go_managesieve.Server.Conn.State.{
  next_flush, later_flushes, emit, write, write_line, no_line, ok_line, flush, apply_error_delay,
  count_error, client_error, max_errors_exceeded, read_line,
}
use go_managesieve.Server.Conn.Capabilities.{
  start_tls_available, auth_allowed, write_if, write_extra, send_capability_block, send_greeting,
}
use go_managesieve.Server.Conn.Literals.{
  split_last, resolve_last, resolve_from, resolve_literal_args,
}
use go_managesieve.Server.Conn.Auth.{
  hijack_if, authenticated_as, auth_called, plain_credentials, auth_decoded, auth_data,
  auth_argument, auth_response, auth_mechanism, handle_authenticate,
}
use go_managesieve.Server.Conn.Scripts.{called, write_scripts, answer_list, handle_list_scripts}
use go_managesieve.Server.Conn.Dispatch.{verb_of, if_authenticated, dispatch_verb, dispatch}
use go_managesieve.Server.Conn.Serve.{
  flushed_round, close, clear_error, finish_round, run_command, resolved_round, parsed_round,
  trimmed_round, line_round, one_round, next_round, serve_from, greeted, serve,
}
use go_managesieve.Server.Reader.{read_bounded_line}
use go_managesieve.Server.Parser.{parse_tokens, parse_line, unquote_string, literal_length}
use go_managesieve.Wire.{quote}
use go_managesieve.Text.Utf8.{is_ascii, map_bytes, to_upper}
use go_managesieve.Text.Search.{trim_prefix, split_once, split}
use go_managesieve.Text.Base64.{
  sextet, without_newlines, one_byte, three_bytes, decode_groups, decode_base64,
}
use go_managesieve.Server.Reader.{eof}
use go_managesieve.Server.Errors.{plain_failure}
use go_managesieve.Server.Options.{Options}
use go_managesieve.Server.Session.{Session, returns, fails, AuthReply}
use go_managesieve.Server.Conn.State.{Conn, Env, called_auth, called_script, list_scripts}
use go_managesieve.Server.Conn.Dispatch.{dispatch}
use go_managesieve.Server.Conn.Serve.{serve}
use go_managesieve.Server.Conn.Quiet.{view, calls}
use go_managesieve.Server.Conn.Protocol.Invariants.{Sound, guarded, confidential, fresh-Sound}
use go_managesieve.Server.Conn.Refinement.{Run}
use go_managesieve.Server.Conn.Refinement.Commands.{dispatch-Run}
use go_managesieve.Server.Conn.Guard.{dispatch-authenticated, dispatch-Sound}
use go_managesieve.Server.Conn.Enforcement.{Admitted, AdmittedRound, one_round-AdmittedRound}
use go_managesieve.Server.Conn.Responses.{WritesLine, responses-WritesLine}
use go_managesieve.Server.Conn.Limits.{Answered, read_script_argument-Answered}
use go_managesieve.Server.Parser.Numbers.{marker}
use go_managesieve.Server.Conn.Literals.{read_script_argument}
use go_managesieve.Server.Conn.State.{conn_closed}
use go_managesieve.Server.Conn.Accept.{new_conn, turn_away}
use go_managesieve.Server.Conn.Termination.Serving.{serve-guarded}

abbrev pub options : Options
options = record {
  tls_config = true;
  implementation = codes "Test";
  greeting = codes "\"Ready\"";
  greeting_start_tls_hint = false;
  sieve_extensions = codes "fileinto" ∷ [];
  extra_capabilities = [];
  max_script_size = 16;
  max_line_length = 8192;
  max_auth_literal = 4096;
  insecure_auth = true;
  max_errors = 3;
  auth_failures_exempt = false;
  error_delay = 0;
  max_error_delay = 0;
  strict_session_errors = false;
  absolute_session_timeout = false;
}

abbrev check_login : Bytes → Bytes → Bytes → ℕ → AuthReply × ℕ
check_login authz authn password s = (
  record {
    hijack = false;
    reply =
        if bytes_eq authn (codes "u") && bytes_eq password (codes "p")
        then returns _
        else fails (plain_failure (codes "\"no\""));
  },
  suc s,
)

-- The state counts the calls.
abbrev pub methods : Session ℕ
methods = record {
  authenticate_plain = check_login;
  login = none;
  list_scripts = λ s. (returns (record { name = codes "main"; active = true } ∷ []), suc s);
  get_script = λ name s. (returns (codes "keep;"), suc s);
  put_script = λ name content s. (returns false, suc s);
  put_script_warnings = none;
  check_script = λ content s. (returns [], suc s);
  set_active = λ name s. (returns _, suc s);
  delete_script = λ name s. (returns _, suc s);
  rename_script = λ old new s. (returns _, suc s);
  have_space = λ name size s. (returns _, suc s);
  unknown_command = none;
}

abbrev pub env : Env ℕ
env = record {
  options = options;
  methods = methods;
  upper_rune = λ r. r;
  handshake = none;
  cancelled_before = λ round. false;
  cancelled_after = λ round. false;
  absolute_passed = λ round. false;
}

abbrev pub fresh : List Bytes → Conn ℕ
fresh segments = record {
  reader = record { buffered = []; incoming = segments; ending = eof };
  trace = [];
  flushes = [];
  write_failed = false;
  authenticated = false;
  error_count = 0;
  is_tls = false;
  hijacked = false;
  close_pending = false;
  last_err = none;
  session = 0;
}

abbrev known : Conn ℕ
known = record (fresh []) { authenticated = true }

abbrev or_else : Conn ℕ → Option (Conn ℕ) → Conn ℕ
or_else c none = c
or_else c (some d) = d

abbrev requests : List Bytes
requests =
    codes "LISTSCRIPTS\r\nAUTHENTICATE \"PLA"
    ∷ codes "IN\" \"AHUAcA==\"\r\nLISTSCRIPTS\r\nLOGOUT\r\n"
    ∷ []

abbrev started : Conn ℕ
started = fresh requests

abbrev ended : Conn ℕ
ended = or_else started (serve env 10 started)

serve-started : serve env 10 started ≡ some ended
unfolding next_flush later_flushes emit write write_line no_line flush apply_error_delay count_error
    client_error max_errors_exceeded read_line start_tls_available auth_allowed write_if write_extra
    send_capability_block send_greeting split_last resolve_last resolve_from resolve_literal_args
    hijack_if authenticated_as auth_called plain_credentials auth_decoded auth_data auth_argument
    auth_response auth_mechanism handle_authenticate called write_scripts answer_list
    handle_list_scripts verb_of if_authenticated dispatch_verb dispatch flushed_round close
    clear_error finish_round run_command resolved_round parsed_round trimmed_round line_round
    one_round next_round serve_from greeted serve read_bounded_line parse_tokens parse_line
    unquote_string literal_length quote is_ascii map_bytes to_upper trim_prefix split_once split
    sextet without_newlines one_byte three_bytes decode_groups decode_base64
serve-started = refl

ended-calls : calls ended.trace ≡ called_script list_scripts ∷ called_auth true ∷ []
unfolding next_flush later_flushes emit write write_line no_line flush apply_error_delay count_error
    client_error max_errors_exceeded read_line start_tls_available auth_allowed write_if write_extra
    send_capability_block send_greeting split_last resolve_last resolve_from resolve_literal_args
    hijack_if authenticated_as auth_called plain_credentials auth_decoded auth_data auth_argument
    auth_response auth_mechanism handle_authenticate called write_scripts answer_list
    handle_list_scripts verb_of if_authenticated dispatch_verb dispatch flushed_round close
    clear_error finish_round run_command resolved_round parsed_round trimmed_round line_round
    one_round next_round serve_from greeted serve read_bounded_line parse_tokens parse_line
    unquote_string literal_length quote is_ascii map_bytes to_upper trim_prefix split_once split
    sextet without_newlines one_byte three_bytes decode_groups decode_base64
ended-calls = refl

serve-guarded_example :
    (d : Conn ℕ) × ((serve env 100 started ≡ some d)
      × ((guarded (calls d.trace) ≡ true) × (confidential true false (calls d.trace) ≡ true)))
serve-guarded_example = serve-guarded env 100 started (omega arith) refl refl

dispatch-Run_example : Run env started (dispatch env (codes "LISTSCRIPTS") [] started).1
dispatch-Run_example = dispatch-Run env (codes "LISTSCRIPTS") [] started

dispatch-authenticated_example :
    ((dispatch env (codes "STARTTLS") [] known).1.authenticated ≡ true)
    × ((dispatch env (codes "STARTTLS") [] known).1.is_tls ≡ false)
dispatch-authenticated_example = dispatch-authenticated env (codes "STARTTLS") [] known refl

dispatch-Sound_example : Sound true false (view (dispatch env (codes "LISTSCRIPTS") [] started).1)
dispatch-Sound_example =
    dispatch-Sound env false (codes "LISTSCRIPTS") [] started
      (fresh-Sound true (view started) refl refl)

started-Admitted : Admitted env started
unfolding Admitted max_errors_exceeded
started-Admitted = (refl, refl)

one_round-AdmittedRound_example : AdmittedRound env (one_round env 0 started)
one_round-AdmittedRound_example = one_round-AdmittedRound env 0 started started-Admitted

responses-WritesLine_example :
    WritesLine started (no_line (codes "a\r\nOK") started)
    × WritesLine started (ok_line (codes "a\r\nOK") started)
responses-WritesLine_example = responses-WritesLine (codes "a\r\nOK") started

read_script_argument-Answered_example :
    ((read_script_argument env (marker 17 true) started).0 ≡ none)
    × Answered true started (read_script_argument env (marker 17 true) started).1
read_script_argument-Answered_example =
    read_script_argument-Answered env 17 true started (omega arith) (omega arith) (omega arith)

silent-turn_away :
    (turn_away
      (λ r. r)
      (codes "\"Too many\"")
      (record { text = []; as_error = none; is_close = false; is_silent = true })
      (new_conn (record { buffered = []; incoming = []; ending = eof }) false [] _)).trace
    ≡ conn_closed ∷ []
unfolding turn_away emit
silent-turn_away = refl
