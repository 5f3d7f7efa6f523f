-- ===== src/Server/Conn/Deadlines.antt =====
-- The deadlines of a connection: nextReadDeadline, setReadDeadline, setDeadline and forceReadUnblock of
-- managesieveserver/conn.go, and the write deadline of managesieveserver/server.go.
use go_managesieve.Common.{
  ℕ, ◌+◌, ◌≤◌, ◌≡◌, refl, Bool, true, not, ◌&&◌, arith, ltb, if◌then◌else◌, Deadline, never, at,
  expired, Deadlines, CutOff, Bool-cases, inl, inr,
}

-- The timeouts of the options; 0 stands for one that is not set or that is disabled.
pub record Timeouts : Type 0 where
  pub idle_timeout : ℕ
  pub auth_idle_timeout : ℕ
  pub absolute_session_timeout : ℕ
  pub write_timeout : ℕ

unfoldable pub idle_of : Timeouts → Bool → ℕ
idle_of opts authenticated =
    if not authenticated && ltb 0 opts.auth_idle_timeout
    then opts.auth_idle_timeout
    else opts.idle_timeout

unfoldable pub cap_deadline : Deadline → ℕ → Deadline
cap_deadline never absolute = at absolute
cap_deadline (at t) absolute = if ltb absolute t then at absolute else at t
cap_deadline expired absolute = expired

-- With the time at which the connection was set up, and the time now.
unfoldable pub next_read_deadline : Timeouts → Bool → ℕ → ℕ → Deadline
unfolding idle_of cap_deadline
next_read_deadline opts authenticated start now =
    let idle = idle_of opts authenticated in
    let deadline = if ltb 0 idle then at (now + idle) else never in
    if ltb 0 opts.absolute_session_timeout
    then cap_deadline deadline (start + opts.absolute_session_timeout)
    else deadline

unfoldable pub set_read_deadline : Deadline → Deadlines → Deadlines
set_read_deadline t d = if d.poisoned then d else record d { read = t }

unfoldable pub set_deadline : Deadline → Deadlines → Deadlines
set_deadline t d = if d.poisoned then d else record d { read = t; write = t }

unfoldable pub force_read_unblock : Deadlines → Deadlines
force_read_unblock d = record d { poisoned = true; read = expired }

-- Write of writeDeadlineConn.
unfoldable pub arm_write : Timeouts → ℕ → Deadlines → Deadlines
arm_write opts now d =
    if ltb 0 opts.write_timeout then record d { write = at (now + opts.write_timeout) } else d

-- A connection's own changes of its deadlines, under its mutex.
pub data Arming : Type 0 where
  arms_read : Deadline → Arming
  arms_both : Deadline → Arming
  arms_write : ℕ → Arming

unfoldable pub armed : Timeouts → Arming → Deadlines → Deadlines
armed opts (arms_read t) d = set_read_deadline t d
armed opts (arms_both t) d = set_deadline t d
armed opts (arms_write now) d = arm_write opts now d

pub force_read_unblock-CutOff : (d : Deadlines) → CutOff (force_read_unblock d)
unfolding force_read_unblock
force_read_unblock-CutOff d = (refl, refl)

-- Nothing that the connection does re-arms a read that is cut off.
pub armed-CutOff :
    (opts : Timeouts) (a : Arming) (d : Deadlines) → CutOff d → CutOff (armed opts a d)
unfolding armed set_read_deadline set_deadline arm_write
armed-CutOff opts (arms_read t) d (p, r) = rw p (refl, r)
armed-CutOff opts (arms_both t) d (p, r) = rw p (refl, r)
armed-CutOff opts (arms_write now) d h = elim (Bool-cases (ltb 0 opts.write_timeout)) [
  | inl p ↦ rw p h
  | inr p ↦ rw p h
]

-- No later than `t`.
abbrev pub By : ℕ → Deadline → Type 0
By t never = ⊥
By t (at u) = u ≤ t
By t expired = Unit

cap_deadline-By : (d : Deadline) (absolute : ℕ) → By absolute (cap_deadline d absolute)
unfolding cap_deadline
cap_deadline-By never absolute = omega arith
cap_deadline-By (at t) absolute = ground arith
cap_deadline-By expired absolute = tt

-- With an absolute limit a read never waits beyond it.
pub next_read_deadline-By :
    (opts : Timeouts) (authenticated : Bool) (start now : ℕ)
    → ltb 0 opts.absolute_session_timeout ≡ true
    → By (start + opts.absolute_session_timeout) (next_read_deadline opts authenticated start now)
unfolding next_read_deadline
next_read_deadline-By opts authenticated start now h =
    rw h (cap_deadline-By _ (start + opts.absolute_session_timeout))
