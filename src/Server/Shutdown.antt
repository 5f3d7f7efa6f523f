-- ===== src/Server/Shutdown.antt =====
-- The connections that a server tracks, and Close (managesieveserver/server.go), with the connections'
-- own steps between the steps of Close.
pub mod Ending
use go_managesieve.Common.{
  ℕ, ◌≡◌, refl, ◌⊎◌, inl, inr, Bool, true, false, List, [], ◌∷◌, ◌++◌, append_assoc, subst, ◌==◌,
  if◌then◌else◌, fresh_deadlines, Deadlines, CutOff, All, Bool-cases,
}
use go_managesieve.Server.Conn.Deadlines.{
  Timeouts, Arming, armed, armed-CutOff, force_read_unblock, force_read_unblock-CutOff,
}

-- A connection of the map `conns`; its context derives from the server's, so that it is done from
-- the start if the server's is.
pub record Tracked : Type 0 where
  pub id : ℕ
  pub done_from_start : Bool
  pub deadlines : Deadlines

pub record Server : Type 0 where
  -- the server's context
  pub cancelled : Bool
  pub listening : Bool
  pub conns : List Tracked

-- New
abbrev pub new_server : Server
new_server = record { cancelled = false; listening = false; conns = [] }

unfoldable pub register_conn : ℕ → Server → Server
register_conn id s = record s {
  conns = record { id = id; done_from_start = s.cancelled; deadlines = fresh_deadlines } ∷ s.conns;
}

unfoldable pub without : ℕ → List Tracked → List Tracked
without id [] = []
without id (t ∷ ts) = let rest = without id ts in if t.id == id then rest else t ∷ rest

unfoldable pub unregister_conn : ℕ → Server → Server
unfolding without
unregister_conn id s = record s { conns = without id s.conns }

unfoldable pub arm_tracked : Timeouts → ℕ → Arming → List Tracked → List Tracked
arm_tracked opts id a [] = []
arm_tracked opts id a (t ∷ ts) =
    let rest = arm_tracked opts id a ts in
    (if t.id == id then record t { deadlines = armed opts a t.deadlines } else t) ∷ rest

-- The walk of Close over the tracked connections.
unfoldable pub kick_all : List Tracked → List Tracked
kick_all [] = []
kick_all (t ∷ ts) = record t { deadlines = force_read_unblock t.deadlines } ∷ kick_all ts

-- The steps under the locks: a connection is accepted, ends or is hijacked, and changes its
-- deadlines; Close cancels the context, closes the listener, and walks over the connections.
pub data ServerStep : Type 0 where
  connects : ℕ → ServerStep
  leaves : ℕ → ServerStep
  arms : ℕ → Arming → ServerStep
  cancels : ServerStep
  stops_listening : ServerStep
  kicks : ServerStep

unfoldable pub server_step : Timeouts → ServerStep → Server → Server
unfolding register_conn unregister_conn arm_tracked kick_all
server_step opts (connects id) s = register_conn id s
server_step opts (leaves id) s = unregister_conn id s
server_step opts (arms id a) s = record s { conns = arm_tracked opts id a s.conns }
server_step opts cancels s = record s { cancelled = true }
server_step opts stops_listening s = record s { listening = false }
server_step opts kicks s = record s { conns = kick_all s.conns }

unfoldable pub server_run : Timeouts → List ServerStep → Server → Server
unfolding server_step
server_run opts [] s = s
server_run opts (x ∷ xs) s = server_run opts xs (server_step opts x s)

-- The connection ends at its next look at its context, or its read is cut off so that it comes to
-- that look.
abbrev pub Doomed : Tracked → Type 0
Doomed t = (t.done_from_start ≡ true) ⊎ CutOff t.deadlines

kick_all-Doomed : (ts : List Tracked) → All Doomed (kick_all ts)
unfolding kick_all
kick_all-Doomed [] = tt
kick_all-Doomed (t ∷ ts) = (inr (force_read_unblock-CutOff t.deadlines), kick_all-Doomed ts)

without-Doomed : (id : ℕ) (ts : List Tracked) → All Doomed ts → All Doomed (without id ts)
unfolding without
without-Doomed id [] h = tt
without-Doomed id (t ∷ ts) (ht, h) = elim (Bool-cases (t.id == id)) [
  | inl p ↦ rw p (without-Doomed id ts h)
  | inr p ↦ rw p (ht, without-Doomed id ts h)
]

armed-Doomed :
    (opts : Timeouts) (a : Arming) (t : Tracked)
    → Doomed t
    → Doomed (record t { deadlines = armed opts a t.deadlines })
armed-Doomed opts a t (inl h) = inl h
armed-Doomed opts a t (inr h) = inr (armed-CutOff opts a t.deadlines h)

if-Doomed : (b : Bool) (t u : Tracked) → Doomed t → Doomed u → Doomed (if b then t else u)
if-Doomed true t u h k = h
if-Doomed false t u h k = k

arm_tracked-Doomed :
    (opts : Timeouts) (id : ℕ) (a : Arming) (ts : List Tracked)
    → All Doomed ts
    → All Doomed (arm_tracked opts id a ts)
unfolding arm_tracked
arm_tracked-Doomed opts id a [] h = tt
arm_tracked-Doomed opts id a (t ∷ ts) (ht, h) =
    (if-Doomed (t.id == id) _ t (armed-Doomed opts a t ht) ht, arm_tracked-Doomed opts id a ts h)

-- The server is shut down and every connection is doomed.
abbrev pub Down : Server → Type 0
Down s = (s.cancelled ≡ true) × All Doomed s.conns

server_step-Down :
    (opts : Timeouts) (x : ServerStep) (s : Server) → Down s → Down (server_step opts x s)
unfolding server_step register_conn unregister_conn
server_step-Down opts (connects id) s (c, h) = (c, (inl c, h))
server_step-Down opts (leaves id) s (c, h) = (c, without-Doomed id s.conns h)
server_step-Down opts (arms id a) s (c, h) = (c, arm_tracked-Doomed opts id a s.conns h)
server_step-Down opts cancels s (c, h) = (refl, h)
server_step-Down opts stops_listening s (c, h) = (c, h)
server_step-Down opts kicks s (c, h) = (c, kick_all-Doomed s.conns)

server_run-Down :
    (opts : Timeouts) (xs : List ServerStep) (s : Server) → Down s → Down (server_run opts xs s)
unfolding server_run
server_run-Down opts [] s h = h
server_run-Down opts (x ∷ xs) s h =
    server_run-Down opts xs (server_step opts x s) (server_step-Down opts x s h)

server_step-cancelled :
    (opts : Timeouts) (x : ServerStep) (s : Server)
    → s.cancelled ≡ true
    → (server_step opts x s).cancelled ≡ true
unfolding server_step register_conn unregister_conn
server_step-cancelled opts (connects id) s h = h
server_step-cancelled opts (leaves id) s h = h
server_step-cancelled opts (arms id a) s h = h
server_step-cancelled opts cancels s h = refl
server_step-cancelled opts stops_listening s h = h
server_step-cancelled opts kicks s h = h

-- Behind the cancelling, the walk dooms the connections that are there, with any steps in between.
kicks-Down :
    (opts : Timeouts) (xs ys : List ServerStep) (s : Server)
    → s.cancelled ≡ true
    → Down (server_run opts (xs ++ kicks ∷ ys) s)
unfolding server_run
kicks-Down opts [] ys s h =
    server_run-Down opts ys (server_step opts kicks s)
      (unfold server_step in (h, kick_all-Doomed s.conns))
kicks-Down opts (x ∷ xs) ys s h =
    kicks-Down opts xs ys (server_step opts x s) (server_step-cancelled opts x s h)

-- The steps of Close in their order, with any steps of the connections before them, between them and
-- behind them.
abbrev pub closing :
    List ServerStep → List ServerStep → List ServerStep → List ServerStep → List ServerStep
closing before between further behind =
    before ++ cancels ∷ (between ++ stops_listening ∷ (further ++ kicks ∷ behind))

-- Whatever the connections do before, during and behind the steps of Close, and whichever are
-- accepted or end meanwhile, then the context is cancelled and every connection that is tracked has
-- its read cut off, or has had a cancelled context from its start.
pub closing-Down :
    (opts : Timeouts) (before between further behind : List ServerStep) (s : Server)
    → Down (server_run opts (closing before between further behind) s)
unfolding server_run
closing-Down opts [] between further behind s =
    subst (λ steps. Down (server_run opts steps (server_step opts cancels s)))
      (append_assoc between (stops_listening ∷ further) (kicks ∷ behind))
      (kicks-Down opts (between ++ stops_listening ∷ further) behind (server_step opts cancels s)
        (unfold server_step in refl))
closing-Down opts (x ∷ xs) between further behind s =
    closing-Down opts xs between further behind (server_step opts x s)
