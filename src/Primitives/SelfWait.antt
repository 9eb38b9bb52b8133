-- ===== src/Primitives/SelfWait.antt =====
-- A process that enters the mutex of src/fastipc/_primitives/_primitives.c a second time.
use pyfastipc.Base.{ℕ, ◌≢◌}
use pyfastipc.Memory.{Mem, load}
use pyfastipc.Primitives.Mutex.{state_at}
use pyfastipc.Primitives.Timed.{Spin, timed_out, Wait}

module _ (base pid now : ℕ) where
  -- The mutex is taken.
  abbrev pub Taken : Mem → Type 0
  Taken m = load 4 (state_at base) m ≢ 0

  -- What others do leaves it taken.
  abbrev pub Leaving : (Mem → Mem) → Type 0
  Leaving f = (m : Mem) → Taken m → Taken (f m)

  abbrev pub LeavingSpin : Spin → Type 0
  LeavingSpin s = Leaving s.before × Leaving s.between

  -- A futex call without a time limit does not time out.
  abbrev pub LeavingWait : Wait → Type 0
  LeavingWait w = Leaving w.meanwhile × (w.wake ≢ timed_out)
