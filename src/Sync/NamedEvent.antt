-- ===== src/Sync/NamedEvent.antt =====
-- src/fastipc/sync/named_event.py: an event that is set or clear, in a segment of its own. Its word
-- begins at 0 of the mapping.
use pyfastipc.Base.{ℕ, Bool, not, List, Option, Result, ok, err, ◌==◌, if◌then◌else◌}
use pyfastipc.Memory.{Mem}
use pyfastipc.Primitives.Futex.{Nap, init_word, load_acquire, store_release, wait_word, wake_word}

-- `__init__` on the mapping of a segment of `size` bytes; `created` says whether the constructor of
-- the segment made it
abbrev pub clear_new : Bool → Result (Unit {0}) → Mem → Result (Unit {0}) × Mem
clear_new created (err e) m = (err e, m)
clear_new created (ok _) m = (ok tt, if created then store_release 0 0 m else m)

unfoldable pub init_event : Bool → ℕ → Mem → Result (Unit {0}) × Mem
init_event created size m = clear_new created (init_word 0 size) m

-- `set`: the word is stored before the call of futex, which wakes `sleepers` processes or fails
unfoldable pub set_event : ℕ → Bool → Mem → Result ℕ × Mem
set_event sleepers fault m = (wake_word 2147483647 sleepers fault, store_release 0 1 m)

-- `clear`
unfoldable pub clear_event : Mem → Mem
clear_event m = store_release 0 0 m

-- `wait`
unfoldable pub wait_event : Bool → List Nap → Mem → Option (Result Bool × Mem)
wait_event timed naps m = wait_word 0 0 timed naps m

-- `is_set`
abbrev pub is_set : Mem → Bool
is_set m = not (load_acquire 0 m == 0)
