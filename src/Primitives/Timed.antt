-- ===== src/Primitives/Timed.antt =====
-- `FutexMutex_acquire_ns` of src/fastipc/_primitives/_primitives.c: try, spin, then wait for a time.
-- The exchange that takes the mutex and the stores of the owner and the time behind it are one step here;
-- `Primitives/Interleaved` has them apart.
use pyfastipc.Base.{
  ℕ, ◌&&◌, not, Bool, true, false, List, [], ◌∷◌, Option, none, some, ◌==◌, if◌then◌else◌,
}
use pyfastipc.Memory.{Mem, load, store}
use pyfastipc.Primitives.Mutex.{state_at, own}

-- `timeout_ns` is 0, above 0 or below 0.
pub data Timeout : Type 0 where
  at_once within forever : Timeout

-- One turn of the spinning loop: what others do before the load, and between the load and the weak
-- exchange, which can fail for no reason.
pub record Spin : Type 0 where
  pub before : Mem → Mem
  pub between : Mem → Mem
  pub fails : Bool

-- One wait on the futex: what others do meanwhile, and how it ends.
pub data Wake : Type 0 where
  woken timed_out interrupted : Wake

pub record Wait : Type 0 where
  pub meanwhile : Mem → Mem
  pub wake : Wake

module _ (base : ℕ) where
  -- the memory when the lock was taken, or when the turns are over
  pub data Spun : Type 0 where
    taken over : Mem → Spun

  unfoldable pub spin_loop : ℕ → ℕ → List Spin → Mem → Spun
  spin_loop pid now [] m = over m
  spin_loop pid now (s ∷ spins) m =
      let m₁ = s.before m in
      let m₂ = s.between m₁ in
      let skip = spin_loop pid now spins m₁ in
      let missed = spin_loop pid now spins m₂ in
      if load 4 (state_at base) m₁ == 0
      then if load 4 (state_at base) m₂ == 0 && not s.fails
        then taken (own base pid now (store 4 (state_at base) 1 m₂))
        else missed
      else skip

  -- what follows the futex call that did not get the lock
  abbrev pub after_wait : Timeout → Wake → Mem → Option (Bool × Mem) → Option (Bool × Mem)
  after_wait timeout timed_out m again = some (false, m)
  after_wait within interrupted m again = some (false, m)
  after_wait timeout interrupted m again = again
  after_wait timeout woken m again = again

  unfoldable pub wait_loop : ℕ → ℕ → Timeout → List Wait → Mem → Option (Bool × Mem)
  wait_loop pid now timeout [] m =
      if load 4 (state_at base) m == 0
      then some (true, own base pid now (store 4 (state_at base) 2 m))
      else none
  wait_loop pid now timeout (w ∷ waits) m =
      let m₁ = w.meanwhile (store 4 (state_at base) 2 m) in
      let again = wait_loop pid now timeout waits m₁ in
      if load 4 (state_at base) m == 0
      then some (true, own base pid now (store 4 (state_at base) 2 m))
      else after_wait timeout w.wake m₁ again

  abbrev pub after_spin : ℕ → ℕ → Timeout → List Wait → Spun → Option (Bool × Mem)
  after_spin pid now timeout waits (taken m) = some (true, m)
  after_spin pid now at_once waits (over m) = some (false, m)
  after_spin pid now within waits (over m) = wait_loop pid now within waits m
  after_spin pid now forever waits (over m) = wait_loop pid now forever waits m

  -- `spins` has as many turns as the argument `spin`.
  unfoldable pub acquire_ns : ℕ → ℕ → Timeout → List Spin → List Wait → Mem → Option (Bool × Mem)
  acquire_ns pid now timeout spins waits m =
      if load 4 (state_at base) m == 0
      then some (true, own base pid now (store 4 (state_at base) 1 m))
      else after_spin pid now timeout waits (spin_loop pid now spins m)

  -- `FutexMutex_enter`, whose `spins` has 16 turns: the same code without a time limit
  unfoldable pub enter : ℕ → ℕ → List Spin → List Wait → Mem → Option (Bool × Mem)
  unfolding acquire_ns
  enter pid now spins waits m = acquire_ns pid now forever spins waits m
