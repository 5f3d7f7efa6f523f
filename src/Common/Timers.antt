-- ===== src/Common/Timers.antt =====
-- The deadlines of a network connection, as net.Conn keeps them, with the flag `poisoned` that both
-- managesieveserver/conn.go and managesieveclient/client.go keep under their deadlineMu.
use Prim.Native.Nat.{ℕ}
use mathlib.Core.Path.{◌≡◌}
use mathlib.Core.Bool.{Bool, true, false}

-- The zero Time, a time, or a time that has passed.
pub data Deadline : Type 0 where
  never : Deadline
  at : ℕ → Deadline
  expired : Deadline

pub record Deadlines : Type 0 where
  pub poisoned : Bool
  pub read : Deadline
  pub write : Deadline

abbrev pub fresh_deadlines : Deadlines
fresh_deadlines = record { poisoned = false; read = never; write = never }

-- A blocked read ends at once, and so does every later one.
abbrev pub CutOff : Deadlines → Type 0
CutOff d = (d.poisoned ≡ true) × (d.read ≡ expired)
