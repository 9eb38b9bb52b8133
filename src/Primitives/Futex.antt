-- ===== src/Primitives/Futex.antt =====
-- The futex word of src/fastipc/_primitives/_primitives.c, four bytes at `base` of a mapping.
use pyfastipc.Base.{
  ℕ, ◌%◌, ◌||◌, not, Bool, true, false, List, [], ◌∷◌, Option, none, some, Result, ok, err,
  value_error, os_error, ltb, ◌==◌, if◌then◌else◌,
}
use pyfastipc.Memory.{Mem, load, store}

-- How a sleep in `FUTEX_WAIT` ends: by a wake, by the timeout, by a signal, by another error.
pub data Ended : Type 0 where
  roused expired signalled broken : Ended

-- One call of `FUTEX_WAIT` that falls asleep, with what others do meanwhile.
pub record Nap : Type 0 where
  pub meanwhile : Mem → Mem
  pub ended : Ended

module _ (base : ℕ) where
  -- `FutexWord_init` on a view of `len` bytes, whose mapping begins at a multiple of 4
  unfoldable pub init_word : ℕ → Result (Unit {0})
  init_word len = if ltb len 4 || not (base % 4 == 0) then err value_error else ok tt

  abbrev pub load_acquire : Mem → ℕ
  load_acquire m = load 4 base m

  abbrev pub store_release : ℕ → Mem → Mem
  store_release v m = store 4 base v m

  -- what the loop of `FutexWord_wait` does with the end of a sleep; `timed` says that there is a
  -- timeout
  abbrev pub after_nap :
      Bool → Ended → Mem → Option (Result Bool × Mem) → Option (Result Bool × Mem)
  after_nap timed roused m again = some (ok true, m)
  after_nap timed expired m again = some (ok false, m)
  after_nap true signalled m again = some (ok false, m)
  after_nap false signalled m again = again
  after_nap timed broken m again = some (err os_error, m)

  -- `FutexWord_wait`; the kernel compares the word with `expected` before it sleeps. There is no
  -- result where the process still sleeps when the naps are over.
  unfoldable pub wait_word : ℕ → Bool → List Nap → Mem → Option (Result Bool × Mem)
  wait_word expected timed [] m = if load_acquire m == expected then none else some (ok false, m)
  wait_word expected timed (n ∷ naps) m =
      let m₁ = n.meanwhile m in
      let again = wait_word expected timed naps m₁ in
      if load_acquire m == expected then after_nap timed n.ended m₁ again else some (ok false, m)

-- `FutexWord_wake`: of `sleepers` processes the kernel wakes `n` at most; it returns how many, or
-- fails.
unfoldable pub wake_word : ℕ → ℕ → Bool → Result ℕ
wake_word n sleepers fault =
    if fault then err os_error else ok (if ltb n sleepers then n else sleepers)
