-- ===== src/Server/Conn/Accept.antt =====
-- handleConn of managesieveserver/server.go: a new connection, and what the application's NewSession
-- says to it.
use go_managesieve.Common.{ℕ, Bool, false, List, [], Option, none, some, Bytes, if◌then◌else◌}
use go_managesieve.Server.Errors.{Error, Failure, wire_message}
use go_managesieve.Server.Reader.{Reader}
use go_managesieve.Server.Session.{Reply, returns, fails}
use go_managesieve.Server.Conn.State.{conn_closed, Conn, Env, emit, no_line}
use go_managesieve.Server.Conn.Serve.{serve}
use go_managesieve.Server.Conn.State.{flush}

-- The connection that handleConn sets up; `is_tls` is what isTLSConn says of the network connection.
abbrev pub new_conn : {S : Type 0} → Reader → Bool → List Bool → S → Conn S
new_conn reader is_tls flushes session = record {
  reader = reader;
  trace = [];
  flushes = flushes;
  write_failed = false;
  authenticated = false;
  error_count = 0;
  is_tls = is_tls;
  hijacked = false;
  close_pending = false;
  last_err = none;
  session = session;
}

abbrev pub reject_text : (ℕ → ℕ) → Bytes → Option Error → Bytes
reject_text upper_rune reject_message none = reject_message
reject_text upper_rune reject_message (some merr) = wire_message upper_rune merr

-- The end of a connection that has no session.
unfoldable pub turn_away : (ℕ → ℕ) → Bytes → Failure → Conn (Unit {0}) → Conn (Unit {0})
turn_away upper_rune reject_message e c =
    if e.is_silent
    then emit conn_closed c
    else (let (done, c') = flush (no_line (reject_text upper_rune reject_message e.as_error) c) in
        emit conn_closed c')

pub data Handled (S : Type 0) : Type 0 where
  turned_away : Conn (Unit {0}) → Handled S
  served : Option (Conn S) → Handled S

module _ {S : Type 0} (env : Env S) (reject_message : Bytes) where
  -- With what NewSession returns, and the fuel of serve.
  unfoldable pub handle_conn : ℕ → Reader → Bool → List Bool → Reply S → Handled S
  handle_conn fuel reader is_tls flushes (fails e) =
      turned_away (turn_away env.upper_rune reject_message e (new_conn reader is_tls flushes _))
  handle_conn fuel reader is_tls flushes (returns session) =
      served (serve env fuel (new_conn reader is_tls flushes session))
