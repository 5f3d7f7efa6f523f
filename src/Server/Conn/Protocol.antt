-- ===== src/Server/Conn/Protocol.antt =====
-- The protocol that a connection promises, as a machine over what a client can change: the steps that
-- are allowed, and what every run of them keeps.
pub mod Invariants
use go_managesieve.Common.{◌≡◌, refl, Bool, true, false, not, ◌&&◌, ◌||◌, List, [], ◌∷◌}
use go_managesieve.Server.Conn.State.{
  ScriptCall, Event, called_auth, called_script, called_unknown, upgraded,
}
use go_managesieve.Server.Conn.Quiet.{View}

-- `insecure` permits authentication in the clear; `tls` and `login` say what the server can do.
pub data Step {S : Type 0} (insecure : Bool) (v : View S) : View S → Type 0 where
  -- a method on scripts, which only an authenticated client reaches
  scripts :
      (call : ScriptCall) (s : S)
      → v.authenticated ≡ true
      → Step insecure v (record {
        authenticated = v.authenticated;
        is_tls = v.is_tls;
        hijacked = v.hijacked;
        session = s;
        calls = called_script call ∷ v.calls;
      })
  -- an attempt to authenticate, which grants the access when it succeeds and the method has not taken
  -- the connection over
  tries :
      (s : S) (success hijacked : Bool)
      → v.authenticated ≡ false
      → (insecure || v.is_tls) ≡ true
      → Step insecure v (record {
        authenticated = success && not hijacked;
        is_tls = v.is_tls;
        hijacked = hijacked;
        session = s;
        calls = called_auth success ∷ v.calls;
      })
  -- the TLS handshake
  upgrades :
      v.authenticated ≡ false
      → v.is_tls ≡ false
      → Step insecure v (record {
        authenticated = v.authenticated;
        is_tls = true;
        hijacked = v.hijacked;
        session = v.session;
        calls = upgraded ∷ v.calls;
      })
  -- a command of the application's own
  extension :
      (s : S)
      → Step insecure v (record {
        authenticated = v.authenticated;
        is_tls = v.is_tls;
        hijacked = v.hijacked;
        session = s;
        calls = called_unknown ∷ v.calls;
      })

pub data Steps {S : Type 0} (insecure : Bool) (v : View S) : View S → Type 0 where
  stays : Steps insecure v v
  later : {w x : View S} → Steps insecure v w → Step insecure w x → Steps insecure v x
