-- ===== src/Primitives/Atomics.antt =====
-- `AtomicU32` and `AtomicU64` of src/fastipc/_primitives/_primitives.c, on the words of a mapping that
-- begins at a multiple of 8, and the numbers that Python hands to C code.
use pyfastipc.Base.{
  ℕ, ◌-◌, ◌%◌, ◌^◌, ◌&&◌, ◌||◌, not, Bool, true, false, Result, ok, err, value_error,
  overflow_error, ltb, ◌==◌, if◌then◌else◌,
}
use pyfastipc.Memory.{Mem, load, store}

-- an integer of Python
pub data ℤ : Type 0 where
  pos : ℕ → ℤ
  -- - (n + 1)
  negsuc : ℕ → ℤ

-- The formats `k` and `K` of `PyArg_ParseTuple` keep an integer modulo 2 ^ 64, without a check.
unfoldable pub as_unsigned : ℤ → ℕ
as_unsigned (pos n) = n % 2 ^ 64
as_unsigned (negsuc n) = 2 ^ 64 - 1 - n % 2 ^ 64

-- a view of `len` bytes that begins at `base`
abbrev pub check_aligned : ℕ → ℕ → ℕ → ℕ → Bool
check_aligned base len sz align = not (ltb len sz) && base % align == 0

-- `__atomic_compare_exchange_n`, the strong one
abbrev pub compare_exchange : ℕ → ℕ → ℕ → ℕ → Mem → Bool × Mem
compare_exchange width base expected desired m =
    if load width base m == expected then (true, store width base desired m) else (false, m)

abbrev pub answered : Bool × Mem → Result Bool × Mem
answered (swapped, m) = (ok swapped, m)

module _ (base : ℕ) where
  unfoldable pub init_u32 : ℕ → Result (Unit {0})
  init_u32 len = if check_aligned base len 4 4 then ok tt else err value_error

  abbrev pub load_u32 : Mem → ℕ
  load_u32 m = load 4 base m

  unfoldable pub store_u32 : ℤ → Mem → Result (Unit {0}) × Mem
  unfolding as_unsigned
  store_u32 v m =
      if ltb 4294967295 (as_unsigned v)
      then (err overflow_error, m)
      else (ok tt, store 4 base (as_unsigned v) m)

  unfoldable pub cas_u32 : ℤ → ℤ → Mem → Result Bool × Mem
  cas_u32 expected new m =
      if ltb 4294967295 (as_unsigned expected) || ltb 4294967295 (as_unsigned new)
      then (err overflow_error, m)
      else answered (compare_exchange 4 base (as_unsigned expected) (as_unsigned new) m)

  unfoldable pub init_u64 : ℕ → Result (Unit {0})
  init_u64 len = if check_aligned base len 8 8 then ok tt else err value_error

  abbrev pub load_u64 : Mem → ℕ
  load_u64 m = load 8 base m

  unfoldable pub store_u64 : ℤ → Mem → Result (Unit {0}) × Mem
  store_u64 v m = (ok tt, store 8 base (as_unsigned v) m)

  unfoldable pub cas_u64 : ℤ → ℤ → Mem → Result Bool × Mem
  cas_u64 expected new m =
      answered (compare_exchange 8 base (as_unsigned expected) (as_unsigned new) m)
