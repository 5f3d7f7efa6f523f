-- ===== src/Server/Conn/Guard.antt =====
-- What the protocol means for the commands and for a whole connection.
use go_managesieve.Common.{◌≡◌, Bool, true, List, Bytes}
use go_managesieve.Server.Conn.State.{Conn, Env}
use go_managesieve.Server.Conn.Dispatch.{dispatch}
use go_managesieve.Server.Conn.Quiet.{view}
use go_managesieve.Server.Conn.Protocol.Invariants.{Sound, Steps-Sound, Steps-authenticated}
use go_managesieve.Server.Conn.Refinement.Commands.{dispatch-Run}

module _ {S : Type 0} (env : Env S) where
  -- A command of an authenticated client leaves it authenticated, and leaves the transport as it is:
  -- neither a second authentication nor STARTTLS takes effect.
  pub dispatch-authenticated :
      (cmd : Bytes) (args : List Bytes) (c : Conn S)
      → c.authenticated ≡ true
      → ((dispatch env cmd args c).1.authenticated ≡ true)
        × ((dispatch env cmd args c).1.is_tls ≡ c.is_tls)
  dispatch-authenticated cmd args c auth =
      Steps-authenticated _ (dispatch-Run env cmd args c).steps auth

  -- Each command keeps the invariant of a connection, which was encrypted at first if `tls` says so: a
  -- client counts as authenticated only behind a successful authentication, every method on scripts
  -- was called behind one, the connection is encrypted if and only if it was at first or a handshake
  -- was made, and every authentication was permitted in the clear or made behind TLS.
  pub dispatch-Sound :
      (tls : Bool) (cmd : Bytes) (args : List Bytes) (c : Conn S)
      → Sound env.options.insecure_auth tls (view c)
      → Sound env.options.insecure_auth tls (view (dispatch env cmd args c).1)
  dispatch-Sound tls cmd args c h =
      Steps-Sound env.options.insecure_auth tls (dispatch-Run env cmd args c).steps h
