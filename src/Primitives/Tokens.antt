-- ===== src/Primitives/Tokens.antt =====
-- The tokens of the semaphore in src/fastipc/_primitives/_primitives.c: what `post` and `wait` do to
-- the count.
use pyfastipc.Base.{
  ℕ, ◌+◌, ◌-◌, ◌^◌, ◌≤◌, ◌<◌, ◌≡◌, ap, ◌∙◌, ◌⊎◌, inl, inr, ◌&&◌, not, Bool, true, false, Bool-cases,
  List, [], ◌∷◌, Option, none, some, ok, err, overflow_error, ltb, ◌==◌, All, arith,
}
use pyfastipc.Memory.{Mem, of_bytes, store, load-store, get-store-Apart}
use pyfastipc.Primitives.Mutex.{own}
use pyfastipc.Primitives.Timed.{Spin, Wake, woken, timed_out, interrupted, Wait, Spun, taken, over}
use pyfastipc.Primitives.Semaphore.{
  Round, value, count_at, uint32_max, add_loop, add_tokens, wake_waiters, post, take_loop,
  after_futex, after_take, wait,
}

module _ (base : ℕ) where
  -- Without interference `post` adds `n` tokens to a count of 32 bits if the sum fits 32 bits, and
  -- otherwise raises `OverflowError` and changes nothing.
  pub post-value :
      (n : ℕ) (m : Mem)
      → value base m ≤ uint32_max
      → ((value base m + n ≤ uint32_max)
          × ((m' : Mem) × (wakes : ℕ) × (post base n [] m ≡ (ok tt, (m', wakes)))
              × (value base m' ≡ value base m + n)))
        ⊎ ((uint32_max < value base m + n) × (post base n [] m ≡ (err overflow_error, (m, 0))))
  unfolding post add_tokens add_loop
  post-value n m h = elim (Bool-cases (ltb uint32_max n)) [
    | inl big ↦ inr (ground arith, rw big)
    | inr fine ↦ elim (Bool-cases (n == 0)) [
      | inl nothing ↦
          inl (ground arith, (m, wake_waiters (value base m) n, rw (fine, nothing), ground arith))
      | inr more ↦ elim (Bool-cases (ltb (uint32_max - n) (value base m))) [
        | inl full ↦ inr (ground arith, rw (fine, more, full))
        | inr room ↦
            let sum : value base m + n < 2 ^ 32 = ground arith in
            inl (
              ground arith,
              (
                store 4 (count_at base) (value base m + n) m,
                wake_waiters (value base m) n,
                rw (fine, more, room),
                load-store 4 (count_at base) (value base m + n) m sum,
              ),
            )
      ]
    ]
  ]

  -- Others leave the count alone.
  abbrev pub Calm : (Mem → Mem) → Type 0
  Calm f = (m : Mem) → value base (f m) ≡ value base m

  abbrev pub CalmSpin : Spin → Type 0
  CalmSpin s = Calm s.before × Calm s.between

  abbrev pub CalmRound : Round → Type 0
  CalmRound r = All CalmSpin r.spins × Calm r.wait.meanwhile

  value-own :
      (pid now v : ℕ) (m : Mem)
      → v < 2 ^ 32
      → value base (own base pid now (store 4 (count_at base) v m)) ≡ v
  unfolding own
  value-own pid now v m h =
      ap of_bytes (get-store-Apart (count_at base) 4 8 (base + 16) now _ (inl (omega arith)))
      ∙ ap of_bytes (get-store-Apart (count_at base) 4 4 (base + 12) pid _ (inl (omega arith)))
      ∙ load-store 4 (count_at base) v m h

  -- The count after the spins, if it was `c` before.
  abbrev SpunCount : ℕ → Spun base → Type 0
  SpunCount c (taken m) = value base m + 1 ≡ c
  SpunCount c (over m) = value base m ≡ c

  take_loop-SpunCount :
      (pid now c : ℕ) (spins : List Spin) (m : Mem)
      → All CalmSpin spins
      → value base m ≡ c
      → c < 2 ^ 32
      → SpunCount c (take_loop base pid now spins m)
  unfolding take_loop
  take_loop-SpunCount pid now c [] m calm e small = e
  take_loop-SpunCount pid now c (s ∷ spins) m ((before, between), calm) e small =
      let m₁ = s.before m in
      let m₂ = s.between m₁ in
      let e₁ : value base m₁ ≡ c = before m ∙ e in
      let e₂ : value base m₂ ≡ c = between m₁ ∙ e₁ in
      elim (Bool-cases (ltb 0 (value base m₁))) [
        | inr zero_left ↦ rw zero_left (take_loop-SpunCount pid now c spins m₁ calm e₁ small)
        | inl some_left ↦ elim (Bool-cases (value base m₂ == value base m₁ && not s.fails)) [
          | inr missed ↦
              rw (some_left, missed) (take_loop-SpunCount pid now c spins m₂ calm e₂ small)
          | inl got ↦
              let v : value base (own base pid now (store 4 (count_at base) (value base m₁ - 1) m₂))
                  ≡ value base m₁ - 1 =
                value-own pid now (value base m₁ - 1) m₂ (omega arith) in
              rw (some_left, got) (ground arith)
        ]
      ]

  -- What the call returns tells how the count changed.
  abbrev pub Counted : ℕ → Option (Bool × Mem) → Type 0
  Counted c none = Unit
  Counted c (some (true, m)) = value base m + 1 ≡ c
  Counted c (some (false, m)) = value base m ≡ c

  after_take-Counted :
      (blocking : Bool) (w : Wait) (onward : Mem → Option (Bool × Mem)) (c : ℕ) (s : Spun base)
      → Calm w.meanwhile
      → SpunCount c s
      → ((m : Mem) → value base m ≡ c → Counted c (onward m))
      → Counted c (after_take base blocking w onward s)
  after_take-Counted blocking w onward c (taken m) calm h next = h
  after_take-Counted false w onward c (over m) calm h next = h
  after_take-Counted true w onward c (over m) calm h next =
      after w.wake (calm m ∙ h) (next (w.meanwhile m) (calm m ∙ h))
    where
      after :
          (wake : Wake)
          → value base (w.meanwhile m) ≡ c
          → Counted c (onward (w.meanwhile m))
          → Counted c (after_futex base wake (w.meanwhile m) (onward (w.meanwhile m)))
      after timed_out e f = e
      after interrupted e f = f
      after woken e f = f

  -- While others leave the count, of 32 bits, alone, a `wait` that returns True has taken one token,
  -- and one that returns False has taken none.
  pub wait-Counted :
      (pid now c : ℕ) (blocking : Bool) (rounds : List Round) (m : Mem)
      → All CalmRound rounds
      → value base m ≡ c
      → c < 2 ^ 32
      → Counted c (wait base pid now blocking rounds m)
  unfolding wait
  wait-Counted pid now c blocking [] m calm e small = tt
  wait-Counted pid now c blocking (r ∷ rounds) m ((spins, meanwhile), calm) e small =
      after_take-Counted blocking r.wait (wait base pid now blocking rounds) c
        (take_loop base pid now r.spins m) meanwhile
        (take_loop-SpunCount pid now c r.spins m spins e small)
        (λ m₁ e₁. wait-Counted pid now c blocking rounds m₁ calm e₁ small)

  abbrev pub Spinless : Round → Type 0
  Spinless r = r.spins ≡ []

  -- The call did not return True.
  abbrev pub Refuses : Option (Bool × Mem) → Type 0
  Refuses none = Unit
  Refuses (some (true, m)) = ⊥
  Refuses (some (false, m)) = Unit

  after_take-Refuses :
      (blocking : Bool) (w : Wait) (onward : Mem → Option (Bool × Mem)) (m : Mem)
      → Refuses (onward (w.meanwhile m))
      → Refuses (after_take base blocking w onward (over m))
  after_take-Refuses false w onward m h = tt
  after_take-Refuses true w onward m h = after w.wake h
    where
      after :
          (wake : Wake)
          → Refuses (onward (w.meanwhile m))
          → Refuses (after_futex base wake (w.meanwhile m) (onward (w.meanwhile m)))
      after timed_out f = tt
      after interrupted f = f
      after woken f = f

  -- With `spin` 0 no `wait` returns True, however many tokens there are and whatever others do.
  pub wait-Refuses :
      (pid now : ℕ) (blocking : Bool) (rounds : List Round) (m : Mem)
      → All Spinless rounds
      → Refuses (wait base pid now blocking rounds m)
  unfolding wait take_loop
  wait-Refuses pid now blocking [] m h = tt
  wait-Refuses pid now blocking (r ∷ rounds) m (none_here, h) = rw none_here (
      after_take-Refuses blocking r.wait (wait base pid now blocking rounds) m
        (wait-Refuses pid now blocking rounds (r.wait.meanwhile m) h))
