-- ===== src/Primitives/WordTests.antt =====
-- Words of `AtomicU32` and `AtomicU64` of src/fastipc/_primitives/_primitives.c.
use pyfastipc.Base.{
  ◌^◌, ◌≤◌, ◌<◌, ◌≡◌, refl, ◌⊎◌, true, false, [], ◌∷◌, ok, err, overflow_error, arith,
}
use pyfastipc.Memory.{Mem, get, of_bytes, load}
use pyfastipc.Primitives.Atomics.{
  pos, negsuc, as_unsigned, store_u32, store_u64, load_u32, load_u64,
}
use pyfastipc.Primitives.AtomicWords.{SameBut, cas_all, store-load, cas_first}

abbrev zeros : Mem
zeros _ = 0

-- The number 2 ^ 64 is stored as 0, and -1 as the greatest of 64 bits.
wraps : (store_u32 8 (pos (2 ^ 64)) zeros).0 ≡ ok tt
unfolding store_u32 as_unsigned
wraps = refl

minus_one : as_unsigned (negsuc 0) ≡ 18446744073709551615
unfolding as_unsigned
minus_one = refl

store-load_example :
    ((m' : Mem) × (store_u64 8 (negsuc 0) zeros ≡ (ok tt, m'))
      × (load_u64 8 m' ≡ as_unsigned (negsuc 0))
      × SameBut 8 8 zeros m')
    × (((as_unsigned (negsuc 0) < 2 ^ 32)
          × ((m' : Mem) × (store_u32 8 (negsuc 0) zeros ≡ (ok tt, m'))
              × (load_u32 8 m' ≡ as_unsigned (negsuc 0))
              × SameBut 8 4 zeros m'))
        ⊎ ((2 ^ 32 ≤ as_unsigned (negsuc 0))
            × (store_u32 8 (negsuc 0) zeros ≡ (err overflow_error, zeros))))
store-load_example = store-load 8 (negsuc 0) zeros

cas_first_example :
    (m' : Mem) × (cas_all false 8 (pos 0) (pos 5 ∷ pos 6 ∷ pos 7 ∷ []) zeros
      ≡ (ok true ∷ ok false ∷ ok false ∷ [], m'))
    × (load 4 8 m' ≡ 5)
    × SameBut 8 4 zeros m'
unfolding as_unsigned get of_bytes
cas_first_example =
    cas_first false 8 (pos 0) (omega arith) (pos 5) (pos 6 ∷ pos 7 ∷ []) zeros
      (omega arith, (omega arith, (omega arith, tt))) refl (λ e. omega arith)
