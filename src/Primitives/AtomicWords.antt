-- ===== src/Primitives/AtomicWords.antt =====
-- What `AtomicU32` and `AtomicU64` of src/fastipc/_primitives/_primitives.c do to their words.
use native.Mathlib.Nat.{mod-lt}
use pyfastipc.Base.{
  ℕ, ◌+◌, ◌%◌, ◌^◌, ◌≤◌, ◌<◌, ◌≡◌, ◌≢◌, refl, sym, ◌∙◌, ◌⊎◌, inl, inr, Bool, true, false,
  Bool-cases, List, [], ◌∷◌, Result, ok, err, overflow_error, ltb, ◌==◌, All, arith,
}
use pyfastipc.Memory.{Mem, get, Apart, load, store, load-store, get-store-Apart}
use pyfastipc.Primitives.Atomics.{
  ℤ, pos, negsuc, as_unsigned, load_u32, store_u32, cas_u32, load_u64, store_u64, init_u32,
  init_u64, cas_u64, compare_exchange, answered,
}

as_unsigned_lt : (v : ℤ) → as_unsigned v < 2 ^ 64
unfolding as_unsigned
as_unsigned_lt (pos n) = mod-lt n (omega arith)
as_unsigned_lt (negsuc n) = omega arith

-- All but the word is as it was.
abbrev pub SameBut : ℕ → ℕ → Mem → Mem → Type 0
SameBut base width m m' =
    (offset c : ℕ) → Apart offset c base width → get offset c m' ≡ get offset c m

-- What `store` is given, modulo 2 ^ 64, `load` returns, and nothing else changes; but where that is more than
-- 32 bits `AtomicU32.store` raises `OverflowError`, and nothing changes.
pub store-load :
    (base : ℕ) (v : ℤ) (m : Mem)
    → ((m' : Mem) × (store_u64 base v m ≡ (ok tt, m'))
        × (load_u64 base m' ≡ as_unsigned v)
        × SameBut base 8 m m')
      × (((as_unsigned v < 2 ^ 32)
            × ((m' : Mem) × (store_u32 base v m ≡ (ok tt, m'))
                × (load_u32 base m' ≡ as_unsigned v)
                × SameBut base 4 m m'))
          ⊎ ((2 ^ 32 ≤ as_unsigned v) × (store_u32 base v m ≡ (err overflow_error, m))))
unfolding store_u64 store_u32
store-load base v m = (
  (
    store 8 base (as_unsigned v) m,
    refl,
    load-store 8 base (as_unsigned v) m (omega (arith, as_unsigned_lt v)),
    λ offset c apart. get-store-Apart offset c 8 base (as_unsigned v) m apart,
  ),
  elim (Bool-cases (ltb 4294967295 (as_unsigned v))) [
    | inl e ↦ inr (ground arith, rw e refl)
    | inr e ↦
        let small : as_unsigned v < 2 ^ 32 = ground arith in
        inl (
          small,
          (
            store 4 base (as_unsigned v) m,
            rw e refl,
            load-store 4 base (as_unsigned v) m (omega arith),
            λ offset c apart. get-store-Apart offset c 4 base (as_unsigned v) m apart,
          ),
        )
  ],
)

-- `AtomicU64` or `AtomicU32`: the bytes of the word, and `cas`
abbrev pub width_of : Bool → ℕ
width_of true = 8
width_of false = 4

abbrev pub cas_of : Bool → ℕ → ℤ → ℤ → Mem → Result Bool × Mem
cas_of true = cas_u64
cas_of false = cas_u32

-- Calls of `cas` one after the other, all of which expect `expected`.
abbrev pub cas_all : Bool → ℕ → ℤ → List ℤ → Mem → List (Result Bool) × Mem
cas_all wide base expected [] m = ([], m)
cas_all wide base expected (new ∷ news) m =
    let (r, m₁) = cas_of wide base expected new m in
    let (rs, m₂) = cas_all wide base expected news m₁ in (r ∷ rs, m₂)

abbrev pub all_lost : List ℤ → List (Result Bool)
all_lost [] = []
all_lost (new ∷ news) = ok false ∷ all_lost news

-- The word can hold the number.
abbrev pub InRange : Bool → ℤ → Type 0
InRange wide v = as_unsigned v < 256 ^ width_of wide

cas_of-InRange :
    (wide : Bool) (base : ℕ) (expected new : ℤ) (m : Mem)
    → InRange wide expected
    → InRange wide new
    → cas_of wide base expected new m
      ≡ answered (compare_exchange (width_of wide) base (as_unsigned expected) (as_unsigned new) m)
unfolding cas_u64 cas_u32
cas_of-InRange true base expected new m e n = refl
cas_of-InRange false base expected new m e n =
    let e' : ltb 4294967295 (as_unsigned expected) ≡ false = ground arith in
    let n' : ltb 4294967295 (as_unsigned new) ≡ false = ground arith in rw (e', n') refl

module _ (wide : Bool) (base : ℕ) (expected : ℤ) (expected_fits : InRange wide expected) where
  cas_lost :
      (new : ℤ) (m : Mem)
      → InRange wide new
      → load (width_of wide) base m ≢ as_unsigned expected
      → cas_of wide base expected new m ≡ (ok false, m)
  cas_lost new m fits ne =
      let differs : (load (width_of wide) base m == as_unsigned expected) ≡ false = ground arith in
      cas_of-InRange wide base expected new m expected_fits fits ∙ rw differs refl

  cas_all_lost :
      (news : List ℤ) (m : Mem)
      → All (InRange wide) news
      → load (width_of wide) base m ≢ as_unsigned expected
      → cas_all wide base expected news m ≡ (all_lost news, m)
  cas_all_lost [] m fit ne = refl
  cas_all_lost (new ∷ news) m (fits, fit) ne =
      rw (cas_lost new m fits ne, cas_all_lost news m fit ne) refl

  -- Of calls of `cas` that all expect the value that the word has, with numbers that it can hold, the
  -- first returns True and the others return False, if the first changes the value: the word holds
  -- what the first gave it, and all other bytes are as they were.
  pub cas_first :
      (new : ℤ) (news : List ℤ) (m : Mem)
      → All (InRange wide) (new ∷ news)
      → load (width_of wide) base m ≡ as_unsigned expected
      → as_unsigned new ≢ as_unsigned expected
      → (m' : Mem) × (cas_all wide base expected (new ∷ news) m ≡ (ok true ∷ all_lost news, m'))
        × (load (width_of wide) base m' ≡ as_unsigned new)
        × SameBut base (width_of wide) m m'
  cas_first new news m (fits, fit) at ne =
      let same : (load (width_of wide) base m == as_unsigned expected) ≡ true = ground arith in
      let m' = store (width_of wide) base (as_unsigned new) m in
      let now : load (width_of wide) base m' ≡ as_unsigned new =
        load-store (width_of wide) base (as_unsigned new) m fits in
      let won : cas_of wide base expected new m ≡ (ok true, m') =
        cas_of-InRange wide base expected new m expected_fits fits ∙ rw same refl in
      (
        m',
        rw (won, cas_all_lost news m' fit (λ e. ne (sym now ∙ e))) refl,
        now,
        λ offset c apart. get-store-Apart offset c (width_of wide) base (as_unsigned new) m apart,
      )

abbrev pub init_of : Bool → ℕ → ℕ → Result (Unit {0})
init_of true = init_u64
init_of false = init_u32

init_of-aligned :
    (wide : Bool) (base len : ℕ)
    → init_of wide base len ≡ ok tt
    → (width_of wide ≤ len) × (base % width_of wide ≡ 0)
unfolding init_u64 init_u32
init_of-aligned true base len e = ground arith
init_of-aligned false base len e = ground arith

-- Two words on one mapping that both constructors accept are apart, or one lies inside the other, at a
-- multiple of its own size: no access of one word meets only a part of the other's access.
pub words_nest :
    (first second : Bool) (a b len len' : ℕ)
    → init_of first a len ≡ ok tt
    → init_of second b len' ≡ ok tt
    → Apart a (width_of first) b (width_of second)
      ⊎ ((a ≤ b) × (b + width_of second ≤ a + width_of first))
      ⊎ ((b ≤ a) × (a + width_of first ≤ b + width_of second))
words_nest true true a b len len' e f =
    let (u, x) = init_of-aligned true a len e in
    let (v, y) = init_of-aligned true b len' f in ground arith
words_nest true false a b len len' e f =
    let (u, x) = init_of-aligned true a len e in
    let (v, y) = init_of-aligned false b len' f in ground arith
words_nest false true a b len len' e f =
    let (u, x) = init_of-aligned false a len e in
    let (v, y) = init_of-aligned true b len' f in ground arith
words_nest false false a b len len' e f =
    let (u, x) = init_of-aligned false a len e in
    let (v, y) = init_of-aligned false b len' f in ground arith
