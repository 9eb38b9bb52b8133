-- ===== src/Primitives/Semaphore.antt =====
-- The semaphore of src/fastipc/_primitives/_primitives.c on its 64 bytes of shared memory, which begin
-- at `base`: the magic number at 0, the count at 8, the process that took a token last at 12 and the
-- time at which it did at 16.
use pyfastipc.Base.{
  ℕ, ◌+◌, ◌-◌, ◌%◌, ◌&&◌, ◌||◌, not, Bool, true, false, List, [], ◌∷◌, Option, none, some, Result,
  ok, err, value_error, overflow_error, ltb, ◌==◌, if◌then◌else◌,
}
use pyfastipc.Memory.{Mem, load, store}
use pyfastipc.Primitives.Mutex.{own}
use pyfastipc.Primitives.Timed.{Spin, Wake, woken, timed_out, interrupted, Wait, Spun, taken, over}

abbrev pub uint32_max : ℕ
uint32_max = 4294967295

abbrev pub int_max : ℕ
int_max = 2147483647

-- One turn of the loop of `semaphore_add_tokens`: what others do between the load and the weak
-- exchange, which can fail for no reason.
pub record Race : Type 0 where
  pub between : Mem → Mem
  pub fails : Bool

-- One turn of the loop of `FutexSemaphore_wait`: its spins, and its wait on the futex.
pub record Round : Type 0 where
  pub spins : List Spin
  pub wait : Wait

-- `semaphore_wake_waiters`: how many waiters the kernel is asked to wake
unfoldable pub wake_waiters : ℕ → ℕ → ℕ
wake_waiters prev add =
    if add == 0 || not (prev == 0) then 0 else if ltb int_max add then int_max else add

module _ (base : ℕ) where
  abbrev pub count_at : ℕ
  count_at = base + 8

  -- `FutexSemaphore_value`
  abbrev pub value : Mem → ℕ
  value m = load 4 count_at m

  abbrev pub last_pid : Mem → ℕ
  last_pid m = load 4 (base + 12) m

  abbrev pub last_taken_ns : Mem → ℕ
  last_taken_ns m = load 8 (base + 16) m

  -- what `FutexSemaphore_init` does with `initial`, once the magic number is stored
  abbrev pub set_initial : Option ℕ → Mem → Result (Unit {0}) × Mem
  set_initial none m = (ok tt, m)
  set_initial (some n) m =
      if ltb uint32_max n then (err overflow_error, m) else (ok tt, store 4 count_at n m)

  -- `FutexSemaphore_init` on a view of `len` bytes, whose mapping begins at a multiple of 4
  unfoldable pub init_semaphore : ℕ → Option ℕ → Mem → Result (Unit {0}) × Mem
  init_semaphore len initial m =
      if ltb len 64 || not (base % 4 == 0)
      then (err value_error, m)
      else set_initial initial (store 4 base 1397050689 m)

  -- The loop of `semaphore_add_tokens`; when the races are over, nobody interferes.
  unfoldable pub add_loop : ℕ → List Race → Mem → Result ℕ × Mem
  add_loop add [] m =
      if ltb (uint32_max - add) (value m)
      then (err overflow_error, m)
      else (ok (value m), store 4 count_at (value m + add) m)
  add_loop add (r ∷ races) m =
      let m₁ = r.between m in
      let again = add_loop add races m₁ in
      if ltb (uint32_max - add) (value m)
      then (err overflow_error, m)
      else if value m₁ == value m && not r.fails
      then (ok (value m), store 4 count_at (value m + add) m₁)
      else again

  unfoldable pub add_tokens : ℕ → List Race → Mem → Result ℕ × Mem
  add_tokens add races m = if add == 0 then (ok (value m), m) else add_loop add races m

  abbrev pub posted : ℕ → Result ℕ × Mem → Result (Unit {0}) × (Mem × ℕ)
  posted add (ok prev, m) = (ok tt, (m, wake_waiters prev add))
  posted add (err e, m) = (err e, (m, 0))

  -- `FutexSemaphore_post`, where `n` is what the format `K` makes of the argument; the last component
  -- counts the waiters to wake
  unfoldable pub post : ℕ → List Race → Mem → Result (Unit {0}) × (Mem × ℕ)
  post n races m =
      if ltb uint32_max n then (err overflow_error, (m, 0)) else posted n (add_tokens n races m)

  -- `FutexSemaphore_post1`
  unfoldable pub post1 : List Race → Mem → Result (Unit {0}) × (Mem × ℕ)
  post1 races m = posted 1 (add_tokens 1 races m)

  -- the spins of one turn; the stores of the process and the time are those of the mutex
  unfoldable pub take_loop : ℕ → ℕ → List Spin → Mem → Spun base
  take_loop pid now [] m = over m
  take_loop pid now (s ∷ spins) m =
      let m₁ = s.before m in
      let m₂ = s.between m₁ in
      let skip = take_loop pid now spins m₁ in
      let missed = take_loop pid now spins m₂ in
      if ltb 0 (value m₁)
      then if value m₂ == value m₁ && not s.fails
        then taken (own base pid now (store 4 count_at (value m₁ - 1) m₂))
        else missed
      else skip

  abbrev pub after_futex : Wake → Mem → Option (Bool × Mem) → Option (Bool × Mem)
  after_futex timed_out m again = some (false, m)
  after_futex interrupted m again = again
  after_futex woken m again = again

  -- what follows the spins of a turn
  abbrev pub after_take :
      Bool → Wait → (Mem → Option (Bool × Mem)) → Spun base → Option (Bool × Mem)
  after_take blocking w onward (taken m) = some (true, m)
  after_take false w onward (over m) = some (false, m)
  after_take true w onward (over m) = after_futex w.wake (w.meanwhile m) (onward (w.meanwhile m))

  -- `FutexSemaphore_wait`; there is no result where it still runs when the rounds are over
  unfoldable pub wait : ℕ → ℕ → Bool → List Round → Mem → Option (Bool × Mem)
  wait pid now blocking [] m = none
  wait pid now blocking (r ∷ rounds) m =
      after_take blocking r.wait (wait pid now blocking rounds) (take_loop pid now r.spins m)
