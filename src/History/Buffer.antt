-- ===== src/History/Buffer.antt =====
-- The operations of `NamedHistoryBuffer` in src/fastipc/data/named_history_buffer.py on a mapping of
-- `size` bytes.
use pyfastipc.Base.{
  ℕ, ◌+◌, ◌-◌, ◌*◌, Bool, ◌&&◌, not, List, Option, none, some, Result, ok, err, value_error,
  runtime_error, no_shm_found_error, ◌>>=◌, ◌>>◌, raise_if, ltb, ◌==◌, if◌then◌else◌, length,
  replicate,
}
use pyfastipc.Memory.{Copy, Mem, get, put, load, store}
use pyfastipc.Primitives.Mutex.{init_mutex, acquire_fast, release, force_release}
use pyfastipc.History.Header.{
  header_size, slot_header_size, history_magic, magic, meta_size, num_slots, slot_size,
  msg_idx_bits, mutex_at, meta_space, calc_meta_offset, calc_slot_offset, calc_total_size, slot_of,
}

-- What a call of `publish` meets: the process, the clocks, what other processes do while it waits for
-- the mutex, and how its payload is copied.
pub record Writer : Type 0 where
  pub pid : ℕ
  pub realtime : ℕ
  pub started : ℕ
  pub ended : ℕ
  pub turns : List (Mem → Mem)
  pub copy : Copy

-- `self._header.msg_idx += 1`
abbrev pub advance : Mem → Mem
advance m = store 8 32 (msg_idx_bits m + 1) m

-- the fields that `create` sets
abbrev pub write_header : ℕ → ℕ → ℕ → Mem → Mem
write_header meta_len slots slot_len m =
    store 8 32 0
      (store 8 24 slot_len (store 8 16 slots (store 8 8 meta_len (store 8 0 history_magic m))))

module _ (size : ℕ) where
  -- `SlotHeader.from_buffer(buf, offset)`, which needs the whole structure inside the mapping
  abbrev pub slot_header : ℕ → Result ℕ
  slot_header offset = if ltb size (offset + slot_header_size) then err value_error else ok offset

  abbrev pub get_slot_header : ℕ → Mem → Result ℕ
  get_slot_header slot_index m = slot_header (calc_slot_offset slot_index m)

  -- `buf[offset : offset + len(data)] = data`, which needs room for all of the bytes
  unfoldable pub assign : ℕ → List ℕ → Mem → Result (Unit {0}) × Mem
  assign offset payload m =
      if ltb size (offset + length payload) && not (length payload == 0)
      then (err value_error, m)
      else (ok tt, put offset payload m)

  -- what follows the payload
  abbrev pub end_slot : Writer → ℕ → Result (Unit {0}) × Mem → Result (Unit {0}) × Mem
  end_slot writer offset (err e, m) = (err e, m)
  end_slot writer offset (ok _, m) = (ok tt, advance (store 8 (offset + 16) writer.ended m))

  -- the slot, once its place is known
  unfoldable pub write_slot : Writer → List ℕ → ℕ → Mem → Result (Unit {0}) × Mem
  write_slot writer payload offset m = end_slot writer offset (
      assign (offset + slot_header_size) payload
        (store 8 (offset + 8) writer.started (store 8 offset (length payload) m)))

  abbrev pub write_at : Writer → List ℕ → Result ℕ → Mem → Result (Unit {0}) × Mem
  write_at writer payload (err e) m = (err e, m)
  write_at writer payload (ok offset) m = write_slot writer payload offset m

  -- the body of the `try` in `publish`
  unfoldable pub write_next : Writer → List ℕ → Mem → Result (Unit {0}) × Mem
  write_next writer payload m =
      write_at writer payload
        (do slot_index ← slot_of (msg_idx_bits m) 0 (num_slots m); get_slot_header slot_index m) m

  -- its `finally`: an exception of `release` replaces that of the body
  abbrev pub finally :
      Result (Unit {0}) → Result (Unit {0}) × (Mem × Bool) → Result (Unit {0}) × Mem
  finally r (ok _, (m, woken)) = (r, m)
  finally r (err e, (m, woken)) = (err e, m)

  abbrev pub finish_publish : ℕ → Result (Unit {0}) × Mem → Result (Unit {0}) × Mem
  finish_publish pid (r, m) = finally r (release mutex_at pid m)

  abbrev pub with_mutex :
      Writer → List ℕ → Option (Result Bool × Mem) → Option (Result (Unit {0}) × Mem)
  with_mutex writer payload none = none
  with_mutex writer payload (some (err e, m)) = some (err e, m)
  with_mutex writer payload (some (ok _, m)) =
      some (finish_publish writer.pid (write_next writer payload m))

  -- `publish`; there is no result where the writer still waits for the mutex after its turns
  unfoldable pub publish : Writer → List ℕ → Mem → Option (Result (Unit {0}) × Mem)
  publish writer payload m =
      if ltb (slot_size m) (length payload)
      then some (err value_error, m)
      else with_mutex writer payload
          (acquire_fast mutex_at writer.pid writer.realtime writer.turns m)

  -- `buf[offset : offset + n]`, cut off at the end of the mapping
  abbrev pub view : ℕ → ℕ → Mem → List ℕ
  view offset n m = if ltb size (offset + n) then get offset (size - offset) m else get offset n m

  -- `get_latest`; the two ways to call it differ in whether the bytes are copied
  unfoldable pub get_latest : Mem → Result (List ℕ)
  get_latest m = do
    raise_if (msg_idx_bits m == 0) value_error
    slot_index ← slot_of (msg_idx_bits m) 1 (num_slots m)
    offset ← get_slot_header slot_index m
    ok (view (calc_slot_offset slot_index m + slot_header_size) (load 8 offset m) m)

  -- the bytes of `get_meta`
  unfoldable pub get_meta : Mem → List ℕ
  get_meta m = view calc_meta_offset (meta_size m) m

  abbrev pub write_meta : List ℕ → Result (Unit {0}) × Mem → Result (Unit {0}) × Mem
  write_meta meta_encoded (err e, m) = (err e, m)
  write_meta meta_encoded (ok _, m) =
      assign calc_meta_offset meta_encoded (force_release mutex_at m).0

  -- `create` on its mapping, from the magic number to the metadata
  unfoldable pub fill : ℕ → ℕ → List ℕ → Mem → Result (Unit {0}) × Mem
  fill slots slot_len meta_encoded m = write_meta meta_encoded (
      init_mutex mutex_at 64
        (put mutex_at (replicate 64 0) (write_header (length meta_encoded) slots slot_len m)))

-- `_attach`: the magic number and the mutex
abbrev pub attach : Mem → Result (Unit {0}) × Mem
attach m = if not (magic m == history_magic) then (err value_error, m) else init_mutex mutex_at 64 m

-- `__init__` by name: `segment` is the size and the bytes of the segment that the name stands for. The
-- first attachment asks for the header, the second one for all of the buffer; one that asks for more
-- than there is raises `RuntimeError`, one without a segment `NoShmFoundError`.
unfoldable pub open_existing : Option (ℕ × Mem) → Result (Unit {0}) × Option (ℕ × Mem)
open_existing none = (err no_shm_found_error, none)
open_existing (some (size, m)) =
    if ltb size header_size
    then (err runtime_error, some (size, m))
    else if not (magic m == history_magic)
    then (err value_error, some (size, m))
    else if ltb size (calc_total_size m)
    then (err runtime_error, some (size, m))
    else let (r, m') = attach m in (r, some (size, m'))

-- The size that `create` asks for.
unfoldable pub shm_size : ℕ → ℕ → List ℕ → ℕ
unfolding meta_space
shm_size slots slot_len meta_encoded =
    header_size + slots * (slot_header_size + slot_len) + meta_space (length meta_encoded)

-- `create` from the mapping on, which `_attach` ends
abbrev pub attached : Result (Unit {0}) × Mem → Result (Unit {0}) × Mem
attached (err e, m) = (err e, m)
attached (ok _, m) = attach m

unfoldable pub create : ℕ → ℕ → List ℕ → ℕ → Mem → Result (Unit {0}) × Mem
create slots slot_len meta_encoded size m = attached (fill size slots slot_len meta_encoded m)
