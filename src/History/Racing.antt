-- ===== src/History/Racing.antt =====
-- `get_latest` of src/fastipc/data/named_history_buffer.py while others write: each access of the
-- reader sees a memory of its own.
use pyfastipc.Base.{
  ℕ, zero, suc, ◌+◌, ◌-◌, List, [], ◌∷◌, Result, ok, value_error, ◌>>=◌, ◌>>◌, raise_if, ltb, ◌==◌,
  if◌then◌else◌, take,
}
use pyfastipc.Memory.{Mem, load, Write, replay}
use pyfastipc.History.Header.{slot_header_size, num_slots, msg_idx_bits, calc_slot_offset, slot_of}
use pyfastipc.History.Buffer.{get_slot_header}

-- The bytes of a copy, byte `i` of them from the memory `mems i`.
unfoldable pub get_racing : ℕ → ℕ → (ℕ → Mem) → List ℕ
get_racing offset zero mems = []
get_racing offset (suc n) mems = mems 0 offset ∷ get_racing (suc offset) n (λ i. mems (suc i))

abbrev pub view_racing : ℕ → ℕ → ℕ → (ℕ → Mem) → List ℕ
view_racing size offset n mems =
    if ltb size (offset + n)
    then get_racing offset (size - offset) mems
    else get_racing offset n mems

-- `get_latest` with its copy: `mems i` is the memory at the access `i` of the reader, of the counter,
-- of the number of slots, twice of their size, of the length of the message and of its bytes.
unfoldable pub get_latest_racing : ℕ → (ℕ → Mem) → Result (List ℕ)
get_latest_racing size mems = do
  raise_if (msg_idx_bits (mems 0) == 0) value_error
  slot_index ← slot_of (msg_idx_bits (mems 0)) 1 (num_slots (mems 1))
  offset ← get_slot_header size slot_index (mems 2)
  ok (
      view_racing size (calc_slot_offset slot_index (mems 3) + slot_header_size)
        (load 8 offset (mems 4)) (λ i. mems (5 + i)))

-- A reader whose first access meets `m`, and whose others come after some of the stores `ws`.
abbrev pub seen : Mem → List Write → (ℕ → ℕ) → ℕ → Mem
seen m ws when zero = m
seen m ws when (suc i) = replay (take (when i) ws) m
