-- ===== src/Sync/NamedSemaphore.antt =====
-- src/fastipc/sync/named_semaphore.py: a semaphore in a segment of its own, which begins at 0 of the
-- mapping.
use pyfastipc.Base.{ℕ, Bool, List, Option, none, Result, if◌then◌else◌}
use pyfastipc.Memory.{Mem}
use pyfastipc.Primitives.Atomics.{ℤ, as_unsigned}
use pyfastipc.Primitives.Semaphore.{
  Race, Round, init_semaphore, post, post1, wait, value, last_pid, last_taken_ns,
}

-- `__init__` on the mapping of a segment of `size` bytes; `created` says whether the constructor of
-- the segment made it
unfoldable pub init_named_semaphore : Bool → Option ℕ → ℕ → Mem → Result (Unit {0}) × Mem
init_named_semaphore created initial size m =
    init_semaphore 0 size (if created then initial else none) m

unfoldable pub post_named : ℤ → List Race → Mem → Result (Unit {0}) × (Mem × ℕ)
post_named n races m = post 0 (as_unsigned n) races m

unfoldable pub post1_named : List Race → Mem → Result (Unit {0}) × (Mem × ℕ)
post1_named races m = post1 0 races m

-- `wait_ns`
unfoldable pub wait_ns : ℕ → ℕ → Bool → List Round → Mem → Option (Bool × Mem)
wait_ns pid now blocking rounds m = wait 0 pid now blocking rounds m

-- `wait`: the timeout in seconds becomes one in nanoseconds, which shows in how the calls of futex
-- end; all else is `wait_ns`
unfoldable pub wait_named : ℕ → ℕ → Bool → List Round → Mem → Option (Bool × Mem)
unfolding wait_ns
wait_named pid now blocking rounds m = wait_ns pid now blocking rounds m

abbrev pub value_named : Mem → ℕ
value_named m = value 0 m

abbrev pub last_pid_named : Mem → ℕ
last_pid_named m = last_pid 0 m

abbrev pub last_taken_ns_named : Mem → ℕ
last_taken_ns_named m = last_taken_ns 0 m
