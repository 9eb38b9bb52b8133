-- ===== src/Queue/Header.antt =====
-- The header of a queue in src/fastipc/data/named_queue.py, `create` and `__init__`.
use pyfastipc.Base.{
  ℕ, ◌+◌, ◌*◌, Bool, Result, ok, err, type_error, file_exists_error, if◌then◌else◌, Text, List,
  length,
}
use pyfastipc.Memory.{Mem, load, store}
use pyfastipc.Primitives.Mutex.{init_mutex}
use pyfastipc.Queue.Modes.{from_str}

-- `sizeof(NamedQueueHeader)`, and of `SlotHeader`
abbrev pub queue_header_size : ℕ
queue_header_size = 128

abbrev pub queue_slot_header_size : ℕ
queue_slot_header_size = 64

abbrev pub queue_magic : ℕ
queue_magic = 1346784849

-- the fields
abbrev pub queue_meta_size : Mem → ℕ
queue_meta_size m = load 8 8 m

abbrev pub queue_num_slots : Mem → ℕ
queue_num_slots m = load 8 16 m

abbrev pub queue_slot_size : Mem → ℕ
queue_slot_size m = load 8 24 m

abbrev pub head : Mem → ℕ
head m = load 8 32 m

abbrev pub tail : Mem → ℕ
tail m = load 8 40 m

abbrev pub mode : Mem → ℕ
mode m = load 8 48 m

abbrev pub writer_mutex_at : ℕ
writer_mutex_at = 64

-- `total_size` in `create`
unfoldable pub queue_size : ℕ → ℕ → ℕ → ℕ
queue_size num_slots slot_size meta_size =
    queue_header_size + num_slots * (queue_slot_header_size + slot_size) + meta_size

-- `_total_size`
unfoldable pub total_size : Mem → ℕ
unfolding queue_size
total_size m = queue_size (queue_num_slots m) (queue_slot_size m) (queue_meta_size m)

-- the fields before the mode
abbrev pub first_fields : ℕ → ℕ → ℕ → Mem → Mem
first_fields num_slots slot_size meta_size m =
    store 8 24 slot_size (store 8 16 num_slots (store 8 8 meta_size (store 8 0 queue_magic m)))

-- the mode and what follows it
abbrev pub last_fields : Result ℕ → Mem → Result (Unit {0}) × Mem
last_fields (err e) m = (err e, m)
last_fields (ok v) m = init_mutex writer_mutex_at 64 (store 8 40 0 (store 8 32 0 (store 8 48 v m)))

-- `create` from the segment on, of `queue_size` bytes or more; `created` says whether its constructor
-- made it. The bytes of the metadata are not stored.
unfoldable pub create_queue : Bool → ℕ → ℕ → List ℕ → Text → Mem → Result (Unit {0}) × Mem
create_queue created num_slots slot_size meta_encoded mode_str m =
    if created
    then last_fields (from_str mode_str) (first_fields num_slots slot_size (length meta_encoded) m)
    else (err file_exists_error, m)

-- `__init__` calls `GuardedSharedMemory` with an argument that it does not take.
abbrev pub init_queue : Mem → Result (Unit {0}) × Mem
init_queue m = (err type_error, m)
