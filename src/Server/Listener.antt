-- ===== src/Server/Listener.antt =====
-- The accept loop of Serve, and isTLSConn (managesieveserver/server.go). Times are in milliseconds.
use go_managesieve.Common.{
  ℕ, ◌*◌, ◌≤◌, ◌≡◌, refl, ap, sym, ◌∙◌, min, zero, suc, subst, Bool, true, false, ◌||◌, List, [],
  ◌∷◌, arith, ltb, ◌==◌, if◌then◌else◌, All,
}

-- The errors of Accept, which Serve does not tell apart.
pub data AcceptError : Type 0 where
  listener_closed : AcceptError
  accept_failed : AcceptError

-- What one Accept gives: a connection, or an error, with whether the server's context is done when
-- the error is looked at, and whether it gets done while the loop waits.
pub data Accepted : Type 0 where
  connection : ℕ → Accepted
  accept_error : AcceptError → Bool → Bool → Accepted

abbrev pub max_backoff : ℕ
max_backoff = 1000

unfoldable pub next_backoff : ℕ → ℕ
next_backoff backoff =
    let longer = if backoff == 0 then 5 else backoff * 2 in
    if ltb max_backoff longer then max_backoff else longer

-- What Serve does: it starts a goroutine for a connection, or waits.
pub data Action : Type 0 where
  handles : ℕ → Action
  waits : ℕ → Action

-- The loop over what the calls of Accept give; the flag says that Serve has returned.
unfoldable pub accept_loop : ℕ → List Accepted → Bool × List Action
accept_loop backoff [] = (false, [])
accept_loop backoff (connection id ∷ rest) =
    let (returned, actions) = accept_loop 0 rest in (returned, handles id ∷ actions)
accept_loop backoff (accept_error e done_before done_meanwhile ∷ rest) =
    let delay = next_backoff backoff in
    let (returned, actions) = accept_loop delay rest in
    if done_before
    then (true, [])
    else if done_meanwhile
    then (true, waits delay ∷ [])
    else (returned, waits delay ∷ actions)

unfoldable pub serve_listener : List Accepted → Bool × List Action
unfolding accept_loop next_backoff
serve_listener = accept_loop 0

-- How a handler's goroutine ends, and what recoverConn does then: the OnPanic hook, if there is one,
-- and the closing of the connection.
pub data HandlerEnd : Type 0 where
  finished : HandlerEnd
  panicked : HandlerEnd

pub data Recovery : Type 0 where
  calls_hook : Recovery
  closes_conn : Recovery

unfoldable pub recover_conn : Bool → HandlerEnd → List Recovery
recover_conn has_hook finished = []
recover_conn has_hook panicked =
    if has_hook then calls_hook ∷ closes_conn ∷ [] else closes_conn ∷ []

-- The wrappers around a network connection, which Unwrap takes off one by one.
pub data NetConn : Type 0 where
  tls_conn : NetConn
  wrapper : NetConn → NetConn
  plain_conn : NetConn
  nil_conn : NetConn

unfoldable pub is_tls_conn : NetConn → Bool
is_tls_conn tls_conn = true
is_tls_conn (wrapper conn) = is_tls_conn conn
is_tls_conn plain_conn = false
is_tls_conn nil_conn = false

-- An error, of whatever kind, that finds the context done, before or while the loop waits.
abbrev pub ends_serve : Accepted → Bool
ends_serve (connection id) = false
ends_serve (accept_error e done_before done_meanwhile) = done_before || done_meanwhile

abbrev pub any_ends : List Accepted → Bool
any_ends [] = false
any_ends (a ∷ rest) = ends_serve a || any_ends rest

-- The connections up to the error that ends Serve.
abbrev pub accepted_before : List Accepted → List ℕ
accepted_before [] = []
accepted_before (connection id ∷ rest) = id ∷ accepted_before rest
accepted_before (accept_error e done_before done_meanwhile ∷ rest) =
    if done_before || done_meanwhile then [] else accepted_before rest

abbrev pub handled : List Action → List ℕ
handled [] = []
handled (handles id ∷ actions) = id ∷ handled actions
handled (waits delay ∷ actions) = handled actions

-- A wait is at least 5 milliseconds and at most a second.
abbrev pub IsPaced : Action → Type 0
IsPaced (handles id) = Unit
IsPaced (waits delay) = (5 ≤ delay) × (delay ≤ max_backoff)

-- 5 * 2 ^ k milliseconds.
abbrev pub doubled : ℕ → ℕ
doubled zero = 5
doubled (suc k) = doubled k * 2

-- The loop with the waits in closed form: behind `k` errors in a row, 5 * 2 ^ k milliseconds, a
-- second at most.
abbrev pub expected : ℕ → List Accepted → List Action
expected k [] = []
expected k (connection id ∷ rest) = handles id ∷ expected 0 rest
expected k (accept_error e done_before done_meanwhile ∷ rest) =
    let further = expected (suc k) rest in
    if done_before
    then []
    else waits (min max_backoff (doubled k)) ∷ (if done_meanwhile then [] else further)

-- The variable `backoff` behind `k` errors in a row.
abbrev backoff_after : ℕ → ℕ
backoff_after zero = 0
backoff_after (suc k) = min max_backoff (doubled k)

doubled-ge : (k : ℕ) → 5 ≤ doubled k
doubled-ge zero = omega arith
doubled-ge (suc k) = omega (arith, doubled-ge k)

next_backoff-min : (d : ℕ) → 5 ≤ d → next_backoff (min max_backoff d) ≡ min max_backoff (d * 2)
unfolding next_backoff
next_backoff-min d h = ground arith

next_backoff-after : (k : ℕ) → next_backoff (backoff_after k) ≡ min max_backoff (doubled k)
next_backoff-after zero = unfold next_backoff in refl
next_backoff-after (suc k) = next_backoff-min (doubled k) (doubled-ge k)

accept_loop-expected :
    (k : ℕ) (calls : List Accepted)
    → accept_loop (backoff_after k) calls ≡ (any_ends calls, expected k calls)
unfolding accept_loop
accept_loop-expected k [] = refl
accept_loop-expected k (connection id ∷ rest) = rw (accept_loop-expected zero rest) refl
accept_loop-expected k (accept_error e true done_meanwhile ∷ rest) = refl
accept_loop-expected k (accept_error e false true ∷ rest) = rw (next_backoff-after k) refl
accept_loop-expected k (accept_error e false false ∷ rest) =
    rw (next_backoff-after k, accept_loop-expected (suc k) rest) refl

expected-handled :
    (k : ℕ) (calls : List Accepted) → handled (expected k calls) ≡ accepted_before calls
expected-handled k [] = refl
expected-handled k (connection id ∷ rest) = ap (◌∷◌ id) (expected-handled 0 rest)
expected-handled k (accept_error e true m ∷ rest) = refl
expected-handled k (accept_error e false true ∷ rest) = refl
expected-handled k (accept_error e false false ∷ rest) = expected-handled (suc k) rest

expected-IsPaced : (k : ℕ) (calls : List Accepted) → All IsPaced (expected k calls)
expected-IsPaced k [] = tt
expected-IsPaced k (connection id ∷ rest) = (tt, expected-IsPaced 0 rest)
expected-IsPaced k (accept_error e true m ∷ rest) = tt
expected-IsPaced k (accept_error e false true ∷ rest) = (omega (arith, doubled-ge k), tt)
expected-IsPaced k (accept_error e false false ∷ rest) =
    (omega (arith, doubled-ge k), expected-IsPaced (suc k) rest)

-- Serve returns if and only if an error finds the context done, before or while it waits, whatever the
-- error is, that of a closed listener included; until then it starts a handler for every connection, in order, and waits behind the k-th error in a row for 5
-- milliseconds doubled k - 1 times, never less than 5 milliseconds nor more than a second.
pub serve_listener-expected :
    (calls : List Accepted)
    → let result = serve_listener calls in
      (result ≡ (any_ends calls, expected 0 calls))
      × (handled result.1 ≡ accepted_before calls)
      × All IsPaced result.1
unfolding serve_listener
serve_listener-expected calls =
    let loop = accept_loop-expected 0 calls in
    (
      loop,
      ap (λ (r : Bool × List Action). handled r.1) loop ∙ expected-handled 0 calls,
      subst (λ (r : Bool × List Action). All IsPaced r.1) (sym loop) (expected-IsPaced 0 calls),
    )
