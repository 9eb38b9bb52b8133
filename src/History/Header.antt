-- ===== src/History/Header.antt =====
-- The two structures of src/fastipc/data/named_history_buffer.py and the places they compute.
use pyfastipc.Base.{
  ℕ, ◌+◌, ◌-◌, ◌*◌, ◌/◌, ◌%◌, ◌^◌, Result, ok, err, value_error, zero_division_error, ltb, ◌==◌,
  if◌then◌else◌, not, raise_if,
}
use pyfastipc.Memory.{Mem, load}

-- `sizeof(NamedHistoryBufferHeader)` and `sizeof(SlotHeader)`
abbrev pub header_size : ℕ
header_size = 128

abbrev pub slot_header_size : ℕ
slot_header_size = 64

abbrev pub history_magic : ℕ
history_magic = 1346783298

-- the fields of `NamedHistoryBufferHeader`; `msg_idx` is signed, and `mutex_at` is the place of the
-- mutex
abbrev pub magic : Mem → ℕ
magic m = load 8 0 m

abbrev pub meta_size : Mem → ℕ
meta_size m = load 8 8 m

abbrev pub num_slots : Mem → ℕ
num_slots m = load 8 16 m

abbrev pub slot_size : Mem → ℕ
slot_size m = load 8 24 m

abbrev pub msg_idx_bits : Mem → ℕ
msg_idx_bits m = load 8 32 m

abbrev pub mutex_at : ℕ
mutex_at = 64

unfoldable pub meta_space : ℕ → ℕ
meta_space size = (size / 64 + 1) * 64

unfoldable pub calc_total_size : Mem → ℕ
unfolding meta_space
calc_total_size m =
    header_size + num_slots m * (slot_header_size + slot_size m) + meta_space (meta_size m)

abbrev pub calc_meta_offset : ℕ
calc_meta_offset = header_size

unfoldable pub calc_slot_offset : ℕ → Mem → ℕ
calc_slot_offset slot_index m = header_size + slot_index * (slot_header_size + slot_size m)

unfoldable pub validate_magic : Mem → Result (Unit {0})
validate_magic m = raise_if (not (magic m == history_magic)) value_error

-- `(i - back) % n` for a signed `i` of 64 bits, given by its bits; Python's remainder has the sign of
-- the divisor.
unfoldable pub slot_of : ℕ → ℕ → ℕ → Result ℕ
slot_of bits back n =
    if n == 0
    then err zero_division_error
    else if ltb bits (2 ^ 63)
    then if ltb bits back then ok ((n - (back - bits) % n) % n) else ok ((bits - back) % n)
    else ok ((n - (2 ^ 64 - bits + back) % n) % n)
