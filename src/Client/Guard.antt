-- ===== src/Client/Guard.antt =====
-- guard of managesieveclient/client.go: the cancellation of a context against the arming of deadlines,
-- as an interleaving of the sections under deadlineMu.
use go_managesieve.Common.{
  ℕ, zero, suc, ◌≡◌, Bool, true, false, not, ◌||◌, List, [], ◌∷◌, ◌++◌, none, some, if◌then◌else◌,
  expired, Deadline, Deadlines,
}
use go_managesieve.Client.State.{
  Context, arm_read_deadline, arm_write_deadline, set_conn_deadline, set_client_deadline,
}

-- The deadlines of the connection, and for every guard, in their order, whether its operation has
-- completed (its channel `done` is closed).
pub record Guarded : Type 0 where
  pub deadlines : Deadlines
  pub done : List Bool

-- A guard that is not there does nothing.
unfoldable pub is_done : ℕ → List Bool → Bool
is_done n [] = true
is_done zero (b ∷ bs) = b
is_done (suc n) (b ∷ bs) = is_done n bs

unfoldable pub set_done : ℕ → List Bool → List Bool
set_done n [] = []
set_done zero (b ∷ bs) = true ∷ bs
set_done (suc n) (b ∷ bs) = b ∷ set_done n bs

-- The expired deadline on reads and writes.
unfoldable pub poison : Deadlines → Deadlines
poison d = record d { poisoned = true; read = expired; write = expired }

-- A guard is set up; its context is cancelled; its operation completes; a read or a write arms the
-- deadline of its context; startTLS sets it in front of the handshake, and the caller sets one by
-- SetDeadline, both without deadlineMu and without a look at poisoned.
pub data GuardEvent : Type 0 where
  guards : GuardEvent
  pokes : ℕ → GuardEvent
  stops : ℕ → GuardEvent
  arms_read : Context → GuardEvent
  arms_write : Context → GuardEvent
  handshakes : Context → GuardEvent
  sets_deadline : Deadline → GuardEvent

unfoldable pub guard_step : GuardEvent → Guarded → Guarded
unfolding is_done set_done poison
guard_step guards g = record g { done = g.done ++ false ∷ [] }
guard_step (pokes n) g = if is_done n g.done then g else record g { deadlines = poison g.deadlines }
guard_step (stops n) g = record g { done = set_done n g.done }
guard_step (arms_read ctx) g = record g { deadlines = arm_read_deadline ctx g.deadlines }
guard_step (arms_write ctx) g = record g { deadlines = arm_write_deadline ctx g.deadlines }
guard_step (handshakes ctx) g = record g { deadlines = set_conn_deadline ctx g.deadlines }
guard_step (sets_deadline t) g = record g { deadlines = set_client_deadline t g.deadlines }

unfoldable pub guarded_run : List GuardEvent → Guarded → Guarded
unfolding guard_step
guarded_run [] g = g
guarded_run (x ∷ xs) g = guarded_run xs (guard_step x g)

-- Whether a context is cancelled while its operation is in flight.
abbrev pub hits : List GuardEvent → List Bool → Bool
hits [] done = false
hits (guards ∷ xs) done = hits xs (done ++ false ∷ [])
hits (pokes n ∷ xs) done = not (is_done n done) || hits xs done
hits (stops n ∷ xs) done = hits xs (set_done n done)
hits (arms_read ctx ∷ xs) done = hits xs done
hits (arms_write ctx ∷ xs) done = hits xs done
hits (handshakes ctx ∷ xs) done = hits xs done
hits (sets_deadline t ∷ xs) done = hits xs done

-- Whether a cancellation in flight comes behind every SetDeadline; the flag says so of what came before.
abbrev pub stands : List GuardEvent → List Bool → Bool → Bool
stands [] done b = b
stands (guards ∷ xs) done b = stands xs (done ++ false ∷ []) b
stands (pokes n ∷ xs) done b = stands xs done (if is_done n done then b else true)
stands (stops n ∷ xs) done b = stands xs (set_done n done) b
stands (arms_read ctx ∷ xs) done b = stands xs done b
stands (arms_write ctx ∷ xs) done b = stands xs done b
stands (handshakes none ∷ xs) done b = stands xs done b
stands (handshakes (some t) ∷ xs) done b = stands xs done false
stands (sets_deadline t ∷ xs) done b = stands xs done false

-- The deadlines are poisoned and have passed.
abbrev pub Expired : Deadlines → Type 0
Expired d = (d.poisoned ≡ true) × (d.read ≡ expired) × (d.write ≡ expired)

-- The poke, when the guard has seen whether its operation is done.
abbrev poked : Bool → Guarded → Guarded
poked b g = if b then g else record g { deadlines = poison g.deadlines }
