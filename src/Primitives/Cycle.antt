-- ===== src/Primitives/Cycle.antt =====
-- One process at the mutex of src/fastipc/_primitives/_primitives.c: acquire and release.
use pyfastipc.Base.{
  ℕ, ◌^◌, ◌<◌, ◌≡◌, ◌≢◌, ◌∙◌, ◌⊎◌, inl, inr, Bool, true, false, Bool-cases, List, [], ◌∷◌, Option,
  some, Result, ok, err, runtime_error, ◌==◌, arith,
}
use pyfastipc.Memory.{load-store-Apart, Mem, get, load, store, load-store, get-store-Apart, Apart}
use pyfastipc.Primitives.Mutex.{
  state_at, owner_at, last_at, own, acquire_loop, acquire_fast, try_acquire, release,
}

-- Nobody holds the mutex; the process `pid` holds it.
pub record Free (base : ℕ) (m : Mem) : Type 0 where
  pub unlocked : load 4 (state_at base) m ≡ 0
  pub unowned : load 4 (owner_at base) m ≡ 0

pub record Held (base pid : ℕ) (m : Mem) : Type 0 where
  pub locked : load 4 (state_at base) m ≢ 0
  pub owned : load 4 (owner_at base) m ≡ pid

-- The memory is the same outside the 24 bytes that the mutex uses.
abbrev pub SameOutside : ℕ → Mem → Mem → Type 0
SameOutside base before after =
    (offset n : ℕ) → Apart offset n base 24 → get offset n after ≡ get offset n before

module _ (base : ℕ) where
  pub own-Held :
      (pid now s : ℕ) (m : Mem)
      → 0 < s
      → s < 3
      → pid < 2 ^ 32
      → Held base pid (own base pid now (store 4 (state_at base) s m))
  unfolding own
  own-Held pid now s m pos small p =
      let m₁ = store 4 (state_at base) s m in
      let m₂ = store 4 (owner_at base) pid m₁ in
      let e : load 4 (state_at base) (store 8 (last_at base) now m₂) ≡ s =
        load-store-Apart 4 (state_at base) 8 (last_at base) now m₂ (inl (omega arith))
        ∙ load-store-Apart 4 (state_at base) 4 (owner_at base) pid m₁ (inl (omega arith))
        ∙ load-store 4 (state_at base) s m (omega arith) in
      record {
        locked = λ z. omega arith;
        owned =
            load-store-Apart 4 (owner_at base) 8 (last_at base) now m₂ (inl (omega arith))
            ∙ load-store 4 (owner_at base) pid m₁ (omega arith);
      }

  pub own-SameOutside :
      (pid now s : ℕ) (m : Mem)
      → SameOutside base m (own base pid now (store 4 (state_at base) s m))
  unfolding own
  own-SameOutside pid now s m offset n h =
      get-store-Apart offset n 8 (last_at base) now _ (ground arith)
      ∙ get-store-Apart offset n 4 (owner_at base) pid _ (ground arith)
      ∙ get-store-Apart offset n 4 (state_at base) s m (ground arith)

  -- A mutex that nobody holds is taken at once.
  pub acquire-Held :
      (pid now : ℕ) (turns : List (Mem → Mem)) (m : Mem)
      → 0 < pid
      → pid < 2 ^ 32
      → Free base m
      → (m' : Mem) × (acquire_fast base pid now turns m ≡ some (ok true, m'))
        × Held base pid m'
        × SameOutside base m m'
  unfolding acquire_fast
  acquire-Held pid now turns m pos small free =
      let other : (load 4 (owner_at base) m == pid) ≡ false = ground (arith, free.unowned) in
      (
        own base pid now (store 4 (state_at base) 1 m),
        rw (other, free.unlocked),
        own-Held pid now 1 m (omega arith) (omega arith) small,
        own-SameOutside pid now 1 m,
      )

  -- The holder's release succeeds and leaves the mutex to the others.
  pub release-Free :
      (pid : ℕ) (m : Mem)
      → Held base pid m
      → (m' : Mem) × (woken : Bool) × (release base pid m ≡ (ok tt, (m', woken)))
        × Free base m'
        × SameOutside base m m'
  unfolding release
  release-Free pid m held =
      let m₁ = store 4 (state_at base) 0 m in
      (
        store 4 (owner_at base) 0 m₁,
        load 4 (state_at base) m == 2,
        ground (arith, held.owned),
        record {
          unlocked =
              load-store-Apart 4 (state_at base) 4 (owner_at base) 0 m₁ (inl (omega arith))
              ∙ load-store 4 (state_at base) 0 m (omega arith);
          unowned = load-store 4 (owner_at base) 0 m₁ (omega arith);
        },
        λ offset n h.
            get-store-Apart offset n 4 (owner_at base) 0 m₁ (ground arith)
            ∙ get-store-Apart offset n 4 (state_at base) 0 m (ground arith),
      )

  -- While a process holds the mutex, no `try_acquire` succeeds and no other process can release it,
  -- and neither call changes the memory.
  pub Held-excludes :
      (pid other now : ℕ) (m : Mem)
      → Held base pid m
      → other ≢ pid
      → (try_acquire base other now m ≡ (false, m))
        × (release base other m ≡ (err runtime_error, (m, false)))
  unfolding try_acquire release
  Held-excludes pid other now m held ne = (ground (arith, held.locked), ground (arith, held.owned))

  took-Held :
      (pid : ℕ) (a m' : Mem) (r : Result Bool)
      → Held base pid a
      → ◌≡◌ {A = Option (Result Bool × Mem)} (some (ok true, a)) (some (r, m'))
      → (r ≡ ok true) × Held base pid m'
  took-Held pid a m' r held q = let e : a ≡ m' = cc in (cc, rw (← e) held)

  acquire_loop-Held :
      (pid now : ℕ) (turns : List (Mem → Mem)) (m m' : Mem) (r : Result Bool)
      → pid < 2 ^ 32
      → acquire_loop base pid now turns m ≡ some (r, m')
      → (r ≡ ok true) × Held base pid m'
  unfolding acquire_loop
  acquire_loop-Held pid now [] m m' r small e = elim (Bool-cases (load 4 (state_at base) m == 0)) [
    | inl free ↦
        took-Held pid (own base pid now (store 4 (state_at base) 2 m)) m' r
          (own-Held pid now 2 m (omega arith) (omega arith) small) (ground arith)
    | inr busy ↦ absurd (ground arith)
  ]
  acquire_loop-Held pid now (turn ∷ turns) m m' r small e =
      elim (Bool-cases (load 4 (state_at base) m == 0)) [
        | inl free ↦
            took-Held pid (own base pid now (store 4 (state_at base) 2 m)) m' r
              (own-Held pid now 2 m (omega arith) (omega arith) small) (ground arith)
        | inr busy ↦
            acquire_loop-Held pid now turns (turn (store 4 (state_at base) 2 m)) m' r small
              (ground arith)
      ]

  -- An `acquire` that returns leaves the process as the holder of the mutex, whatever happened to
  -- the memory while it waited; otherwise it has raised `RuntimeError`, because the process was the
  -- owner before, and changed nothing. The number of the process has 32 bits.
  pub acquire_fast-Held :
      (pid now : ℕ) (turns : List (Mem → Mem)) (m m' : Mem) (r : Result Bool)
      → pid < 2 ^ 32
      → acquire_fast base pid now turns m ≡ some (r, m')
      → ((r ≡ ok true) × Held base pid m')
        ⊎ ((r ≡ err runtime_error) × (load 4 (owner_at base) m ≡ pid) × (m' ≡ m))
  unfolding acquire_fast
  acquire_fast-Held pid now turns m m' r small e =
      elim (Bool-cases (load 4 (owner_at base) m == pid)) [
        | inl mine ↦
            let q : ◌≡◌ {A = Option (Result Bool × Mem)} (some (err runtime_error, m))
                (some (r, m')) =
              ground arith in
            inr (cc, ground arith, cc)
        | inr other ↦ elim (Bool-cases (load 4 (state_at base) m == 0)) [
          | inl free ↦ inl (
              took-Held pid (own base pid now (store 4 (state_at base) 1 m)) m' r
                (own-Held pid now 1 m (omega arith) (omega arith) small) (ground arith))
          | inr busy ↦ inl (acquire_loop-Held pid now turns m m' r small (ground arith))
        ]
      ]
