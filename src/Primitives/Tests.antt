-- ===== src/Primitives/Tests.antt =====
-- Runs of the mutex of src/fastipc/_primitives/_primitives.c, and its theorems at small memories.
use pyfastipc.Base.{◌≡◌, refl, Bool, true, false, [], ◌∷◌, some, ok, err, value_error}
use mathlib.Core.Option.{Option, none, some}
use pyfastipc.Memory.{Mem, get, put, to_bytes, of_bytes, store}
use pyfastipc.Primitives.Mutex.{
  own, acquire_loop, acquire_fast, force_release, owner_pid, last_acquired_ns, init_mutex,
}
use pyfastipc.Primitives.Timed.{
  within, Spin, woken, timed_out, Wait, spin_loop, wait_loop, acquire_ns, enter,
}
use pyfastipc.Primitives.Semaphore.{
  Round, value, add_loop, add_tokens, wake_waiters, post1, take_loop, wait,
}
use pyfastipc.Primitives.Tokens.{Refuses, wait-Refuses}

-- Two tokens are there.
abbrev two_tokens : Mem
two_tokens = store 4 8 2 (λ _. 0)

-- the result of a call, without the memory
abbrev answer : Option (Bool × Mem) → Option Bool
answer none = none
answer (some (b, m)) = some b

-- Process 5 holds the mutex, until `unlock`.
abbrev busy : Mem
busy = store 4 12 5 (store 4 8 1 (λ _. 0))

abbrev unlock : Mem → Mem
unlock m = store 4 12 0 (store 4 8 0 m)

abbrev acquired : Mem
acquired = own 0 9 77 (store 4 8 2 (unlock (store 4 8 2 busy)))

waits : acquire_fast 0 9 77 (unlock ∷ []) busy ≡ some (ok true, acquired)
unfolding acquire_fast acquire_loop own get put to_bytes of_bytes
waits = refl

owner_after : owner_pid 0 acquired ≡ 9
unfolding own get put to_bytes of_bytes
owner_after = refl

time_after : last_acquired_ns 0 acquired ≡ 77
unfolding own get put to_bytes of_bytes
time_after = refl

forced : (force_release 0 acquired).1 ≡ true
unfolding force_release own get put to_bytes of_bytes
forced = refl

misplaced : (init_mutex 2 64 busy).0 ≡ err value_error
unfolding init_mutex
misplaced = refl

abbrev missed_spin : Spin
missed_spin = record { before = unlock; between = λ m. m; fails = true }

abbrev relock : Wait
relock = record { meanwhile = λ m. store 4 12 6 (store 4 8 1 m); wake = woken }

abbrev give_up : Wait
give_up = record { meanwhile = λ m. m; wake = timed_out }

gives_up : answer (acquire_ns 0 9 77 within [] (relock ∷ give_up ∷ []) busy) ≡ some false
unfolding acquire_ns spin_loop wait_loop own get put to_bytes of_bytes
gives_up = refl

enters : answer (enter 0 9 77 (missed_spin ∷ missed_spin ∷ []) [] busy) ≡ some true
unfolding enter acquire_ns spin_loop wait_loop own get put to_bytes of_bytes
enters = refl

abbrev quiet_spin : Spin
quiet_spin = record { before = λ m. m; between = λ m. m; fails = false }

abbrev round : Round
round = record { spins = quiet_spin ∷ []; wait = give_up }

abbrev idle_round : Round
idle_round = record { spins = []; wait = give_up }

takes : answer (wait 0 9 77 true (round ∷ []) two_tokens) ≡ some true
unfolding wait take_loop get put to_bytes of_bytes
takes = refl

posts : (post1 0 (record { between = λ m. m; fails = true } ∷ []) two_tokens).1.1 ≡ 0
unfolding post1 add_tokens add_loop wake_waiters get put to_bytes of_bytes
posts = refl

two_value : value 0 two_tokens ≡ 2
unfolding get put to_bytes of_bytes
two_value = refl

wait-Refuses_example : Refuses 0 (wait 0 9 77 true (idle_round ∷ idle_round ∷ []) two_tokens)
wait-Refuses_example =
    wait-Refuses 0 9 77 true (idle_round ∷ idle_round ∷ []) two_tokens (refl, (refl, tt))

-- Process 5 enters the mutex that it holds, and is woken once.
abbrev own_mutex : Mem
own_mutex = own 0 5 100 (store 4 8 1 (λ _. 0))
