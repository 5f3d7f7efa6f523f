-- ===== src/Examples/Shutdown.antt =====
-- The accept loop and the shutdown of a server.
use go_managesieve.Common.{
  ℕ, expired, fresh_deadlines, ◌≡◌, refl, true, false, List, [], ◌∷◌, All, never, at, ltb, codes,
}
use go_managesieve.Server.Conn.Deadlines.{Timeouts, next_read_deadline, arms_read, arms_both}
use go_managesieve.Server.Shutdown.{new_server, Server, connects, arms, ServerStep, Tracked}
use go_managesieve.Server.Reader.{timeout}
use go_managesieve.Server.Conn.State.{Conn, Env}
use go_managesieve.Examples.Conn.{env, fresh}
use go_managesieve.Server.Listener.{
  listener_closed, accept_failed, Accepted, connection, accept_error, serve_listener, waits,
  handles, any_ends, expected, handled, accepted_before, IsPaced, serve_listener-expected,
}

abbrev timeouts : Timeouts
timeouts = record {
  idle_timeout = 100;
  auth_idle_timeout = 30;
  absolute_session_timeout = 60;
  write_timeout = 10;
}

-- Before authentication the shorter timeout counts; later the absolute one is nearer.
read_before_auth : next_read_deadline timeouts false 1000 1010 ≡ at 1040
unfolding next_read_deadline
read_before_auth = refl

read_after_auth : next_read_deadline timeouts true 1000 1010 ≡ at 1060
unfolding next_read_deadline
read_after_auth = refl

abbrev up : Server
up = record new_server { listening = true }

-- The steps of the connections before, between and behind those of Close.
abbrev before : List ServerStep
before = connects 0 ∷ arms 0 (arms_read (at 30)) ∷ []

abbrev further : List ServerStep
further = arms 1 (arms_both never) ∷ []

abbrev behind : List ServerStep
behind = arms 0 (arms_read (at 90)) ∷ connects 2 ∷ []

abbrev waiting : Tracked
waiting = record {
  id = 0;
  done_from_start = false;
  deadlines = record { poisoned = true; read = expired; write = never };
}

abbrev accepted_late : List Tracked
accepted_late =
    record { id = 2; done_from_start = true; deadlines = fresh_deadlines }
    ∷ record {
      id = 1;
      done_from_start = true;
      deadlines = record { poisoned = true; read = expired; write = never };
    }
    ∷ []

-- A client whose first line has come with a part of a second one when the read is cut off.
abbrev busy : Conn ℕ
busy = record (fresh []) {
  reader = record { buffered = codes "NOOP\r\nLIST"; incoming = []; ending = timeout };
}

abbrev cancelled_env : Env ℕ
cancelled_env = record env {
  cancelled_before = λ round. ltb 3 round;
  cancelled_after = λ round. true;
}

abbrev accepts : List Accepted
accepts =
    accept_error accept_failed false false
    ∷ accept_error listener_closed false false
    ∷ connection 7
    ∷ accept_error accept_failed false true
    ∷ connection 8
    ∷ []

serve_accepts : serve_listener accepts ≡ (true, waits 5 ∷ waits 10 ∷ handles 7 ∷ waits 5 ∷ [])
unfolding serve_listener
serve_accepts = refl

serve_listener-expected_example :
    let result = serve_listener accepts in
    (result ≡ (any_ends accepts, expected 0 accepts))
    × (handled result.1 ≡ accepted_before accepts)
    × All IsPaced result.1
serve_listener-expected_example = serve_listener-expected accepts

-- A timeout that is disabled before authentication leaves the other one in force.
read_before_auth_disabled :
    next_read_deadline (record timeouts { auth_idle_timeout = 0 }) false 1000 1010 ≡ at 1060
unfolding next_read_deadline
read_before_auth_disabled = refl
