-- ===== src/Primitives/Mutex.antt =====
-- The mutex of src/fastipc/_primitives/_primitives.c on its 64 bytes of shared memory, which begin
-- at `base`: the magic number at 0, the state at 8 (0 unlocked, 1 locked, 2 contended), the owner at
-- 12 and the time of the last acquisition at 16.
use pyfastipc.Base.{
  ℕ, ◌+◌, ◌%◌, ◌||◌, not, Bool, true, false, List, [], ◌∷◌, Option, none, some, Result, ok, err,
  runtime_error, value_error, ltb, ◌==◌, if◌then◌else◌,
}
use pyfastipc.Memory.{Mem, load, store}

module _ (base : ℕ) where
  abbrev pub state_at : ℕ
  state_at = base + 8

  abbrev pub owner_at : ℕ
  owner_at = base + 12

  abbrev pub last_at : ℕ
  last_at = base + 16

  -- `FutexMutex_init` on a view of `len` bytes, whose mapping begins at a multiple of 4
  unfoldable pub init_mutex : ℕ → Mem → Result (Unit {0}) × Mem
  init_mutex len m =
      if ltb len 64 || not (base % 4 == 0)
      then (err value_error, m)
      else (ok tt, store 4 base 1297437784 m)

  -- the two stores behind every way to the lock
  unfoldable pub own : ℕ → ℕ → Mem → Mem
  own pid now m = store 8 last_at now (store 4 owner_at pid m)

  -- The loop of `FutexMutex_acquire_fast`. Each wait ends when another process wakes this one or for
  -- no reason; `turns` says what happened to the memory meanwhile. There is no result where the
  -- process still waits when the turns are over.
  unfoldable pub acquire_loop : ℕ → ℕ → List (Mem → Mem) → Mem → Option (Result Bool × Mem)
  acquire_loop pid now [] m =
      if load 4 state_at m == 0 then some (ok true, own pid now (store 4 state_at 2 m)) else none
  acquire_loop pid now (turn ∷ turns) m =
      let rest = acquire_loop pid now turns (turn (store 4 state_at 2 m)) in
      if load 4 state_at m == 0 then some (ok true, own pid now (store 4 state_at 2 m)) else rest

  -- `FutexMutex_acquire_fast`, which is `acquire` in Python
  unfoldable pub acquire_fast : ℕ → ℕ → List (Mem → Mem) → Mem → Option (Result Bool × Mem)
  acquire_fast pid now turns m =
      if load 4 owner_at m == pid
      then some (err runtime_error, m)
      else if load 4 state_at m == 0
      then some (ok true, own pid now (store 4 state_at 1 m))
      else acquire_loop pid now turns m

  -- `FutexMutex_try_acquire`
  unfoldable pub try_acquire : ℕ → ℕ → Mem → Bool × Mem
  try_acquire pid now m =
      if load 4 state_at m == 0 then (true, own pid now (store 4 state_at 1 m)) else (false, m)

  -- `FutexMutex_release`; the last component says whether it wakes a waiter
  unfoldable pub release : ℕ → Mem → Result (Unit {0}) × (Mem × Bool)
  release pid m =
      if not (load 4 owner_at m == pid)
      then (err runtime_error, (m, false))
      else (ok tt, (store 4 owner_at 0 (store 4 state_at 0 m), load 4 state_at m == 2))

  -- `FutexMutex_force_release`
  unfoldable pub force_release : Mem → Mem × Bool
  force_release m = (store 4 owner_at 0 (store 4 state_at 0 m), load 4 state_at m == 2)

  -- `FutexMutex_owner_pid`, `FutexMutex_last_acquired_ns`
  abbrev pub owner_pid : Mem → ℕ
  owner_pid m = load 4 owner_at m

  abbrev pub last_acquired_ns : Mem → ℕ
  last_acquired_ns m = load 8 last_at m
