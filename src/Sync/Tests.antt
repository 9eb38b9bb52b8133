-- ===== src/Sync/Tests.antt =====
-- A named mutex of src/fastipc/sync/named_mutex.py between the processes 5 and 9.
use pyfastipc.Base.{Option, ℕ, ◌≡◌, refl, Result, Bool, true, false, [], ◌∷◌, some, ok, arith}
use pyfastipc.Memory.{Mem, get, to_bytes, of_bytes}
use pyfastipc.Primitives.Cycle.{Free, Held, SameOutside}
use pyfastipc.Sync.NamedMutex.{
  init_named, acquire_named, try_acquire_named, release_named, try_release, with_named,
}
use pyfastipc.Sync.MutexCycle.{named_cycle}
use pyfastipc.Sync.WithMutex.{with_named-Holds, with_named-Free}
use pyfastipc.Primitives.Atomics.{pos}
use pyfastipc.Sync.NamedSemaphore.{init_named_semaphore, post_named, value_named}
use pyfastipc.Primitives.Futex.{roused, wait_word}
use pyfastipc.Sync.NamedEvent.{init_event, set_event, clear_event, wait_event, is_set}
use pyfastipc.Sync.EventCycle.{event_cycle}
use pyfastipc.Sync.SemaphoreStart.{semaphore_start}

abbrev dirty : Mem
dirty i = i

named_cycle_example :
    (m₀ : Mem) × (init_named true 64 dirty ≡ (ok tt, m₀))
    × ((m₁ : Mem) × (acquire_named 5 100 [] m₀ ≡ some (ok true, m₁))
        × (try_acquire_named 9 200 m₁ ≡ (false, m₁))
        × (try_release 9 m₁ ≡ (ok false, (m₁, false)))
        × ((m₂ : Mem) × (woken : Bool) × (release_named 5 m₁ ≡ (ok tt, (m₂, woken)))
            × ((m₃ : Mem) × (acquire_named 9 200 [] m₂ ≡ some (ok true, m₃)) × Held 0 9 m₃)))
named_cycle_example =
    named_cycle 64 5 9 100 200 [] dirty (omega arith) (omega arith) (omega arith) (omega arith)
      (omega arith) (omega arith)

-- A semaphore that is created with 3 tokens is given 4 more.
semaphore_start_example :
    (m₁ : Mem) × (init_named_semaphore true (some 3) 64 dirty ≡ (ok tt, m₁))
    × (value_named m₁ ≡ 3)
    × ((m₂ : Mem) × (wakes : ℕ) × (post_named (pos 4) [] m₁ ≡ (ok tt, (m₂, wakes)))
        × (value_named m₂ ≡ 7))
semaphore_start_example =
    semaphore_start true 3 4 64 dirty (omega arith) (omega arith) (omega arith)

-- A process that waits at a clear event is woken.
waits_at_clear :
    (wait_event false (record { meanwhile = λ m. m; ended = roused } ∷ []) (λ _. 0))
    ≡ some (ok true, λ _. 0)
unfolding wait_event wait_word get to_bytes of_bytes
waits_at_clear = refl

event_cycle_example :
    (m₀ : Mem) × (init_event true 4 dirty ≡ (ok tt, m₀))
    × (is_set m₀ ≡ false)
    × ((r : Result ℕ) × (m₁ : Mem) × (set_event 2 false m₀ ≡ (r, m₁))
        × (is_set m₁ ≡ true)
        × (wait_event true [] m₁ ≡ some (ok false, m₁))
        × (is_set (clear_event m₁) ≡ false))
event_cycle_example = event_cycle 4 2 false true [] dirty (omega arith)

abbrev zeros : Mem
zeros _ = 0

-- Process 5 enters a `with` block inside its own one on the same mutex.
abbrev inner_block : Mem → Option (Result ℕ × Mem)
inner_block = with_named 5 200 [] (λ m. some (ok 3, m))

with_named-Free_example :
    (m₁ : Mem) × Held 0 5 m₁
    × SameOutside 0 zeros m₁
    × ((r : Result ℕ) × (m₂ : Mem) × (inner_block m₁ ≡ some (r, m₂))
        × ((m₃ : Mem) × (with_named 5 100 [] inner_block zeros ≡ some (r, m₃))
            × Free 0 m₃
            × SameOutside 0 m₂ m₃))
unfolding get of_bytes
with_named-Free_example =
    with_named-Free ℕ 5 100 [] inner_block zeros (omega arith) (omega arith)
      (with_named-Holds ℕ 5 200 [] (λ m. some (ok 3, m)))
      (record { unlocked = refl; unowned = refl })
