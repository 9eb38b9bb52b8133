-- ===== src/History/Accesses.antt =====
-- The stores of `publish` in src/fastipc/data/named_history_buffer.py, one by one in their order, with
-- those of the mutex calls around them.
use pyfastipc.Base.{ℕ, ◌+◌, ◌%◌, List, [], ◌∷◌, ◌++◌, length}
use pyfastipc.Memory.{to_bytes, Write}
use pyfastipc.History.Buffer.{Writer}
use pyfastipc.History.Publish.{slot_at}

-- a field of `width` bytes
abbrev pub field_write : ℕ → ℕ → ℕ → Write
field_write width offset v = record { place = offset; bytes = to_bytes width v }

-- `acquire` of a free mutex, and `release`
abbrev pub lock_writes : Writer → List Write
lock_writes writer =
    field_write 4 72 1 ∷ field_write 4 76 writer.pid ∷ field_write 8 80 writer.realtime ∷ []

abbrev pub unlock_writes : List Write
unlock_writes = field_write 4 72 0 ∷ field_write 4 76 0 ∷ []

-- the slot at `s`
abbrev pub slot_writes : Writer → List ℕ → ℕ → List Write
slot_writes writer payload s =
    field_write 8 s (length payload)
      ∷ field_write 8 (s + 8) writer.started
      ∷ writer.copy.stores (s + 64) payload
    ++ field_write 8 (s + 16) writer.ended ∷ []

abbrev pub count_write : ℕ → Write
count_write id = field_write 8 32 (id + 1)

-- `publish` of the message `id` in a buffer of `n` slots of `k` bytes
abbrev pub publish_writes : ℕ → ℕ → ℕ → Writer → List ℕ → List Write
publish_writes n k id writer payload =
    lock_writes writer
    ++ slot_writes writer payload (slot_at k (id % n))
    ++ count_write id ∷ unlock_writes

-- calls of `publish` one after the other, from the message `id` on
unfoldable pub all_writes : ℕ → ℕ → ℕ → List (Writer × List ℕ) → List Write
all_writes n k id [] = []
all_writes n k id ((writer, payload) ∷ calls) =
    publish_writes n k id writer payload ++ all_writes n k (id + 1) calls
