-- ===== src/Sync/SemaphoreStart.antt =====
-- The count of a named semaphore of src/fastipc/sync/named_semaphore.py from its creation on.
use pyfastipc.Base.{
  ℕ, ◌+◌, ◌%◌, ◌^◌, ◌≤◌, ◌≡◌, ap, ◌∙◌, inl, inr, Bool, true, false, [], some, ok, ltb,
  if◌then◌else◌, arith,
}
use pyfastipc.Memory.{Mem, of_bytes, store, load-store, get-store-Apart}
use pyfastipc.Primitives.Atomics.{pos, as_unsigned}
use pyfastipc.Primitives.Semaphore.{init_semaphore, uint32_max}
use pyfastipc.Primitives.Tokens.{post-value}
use pyfastipc.Sync.NamedSemaphore.{init_named_semaphore, post_named, value_named}

post_fits :
    (n c : ℕ) (m : Mem)
    → value_named m ≡ c
    → c + n ≤ uint32_max
    → (m' : Mem) × (wakes : ℕ) × (post_named (pos n) [] m ≡ (ok tt, (m', wakes)))
      × (value_named m' ≡ c + n)
unfolding post_named as_unsigned
post_fits n c m e fits =
    let same : n % 2 ^ 64 ≡ n = omega arith in
    elim (post-value 0 n m (omega arith)) [
      | inl (le, (m', wakes, r, v)) ↦ (m', wakes, rw same r, v ∙ ap (λ x. x + n) e)
      | inr (lt, r) ↦ absurd (omega arith)
    ]

-- A process that creates the semaphore sets the count to its initial value; one that attaches keeps
-- the count, whatever value it asks for. Then `post` adds its tokens to the count, if all fit 32
-- bits.
pub semaphore_start :
    (created : Bool) (initial n size : ℕ) (m : Mem)
    → 64 ≤ size
    → initial ≤ uint32_max
    → (if created then initial else value_named m) + n ≤ uint32_max
    → let count = if created then initial else value_named m in
      (m₁ : Mem) × (init_named_semaphore created (some initial) size m ≡ (ok tt, m₁))
      × (value_named m₁ ≡ count)
      × ((m₂ : Mem) × (wakes : ℕ) × (post_named (pos n) [] m₁ ≡ (ok tt, (m₂, wakes)))
          × (value_named m₂ ≡ count + n))
unfolding init_named_semaphore init_semaphore
semaphore_start true initial n size m h small fits =
    let long : ltb size 64 ≡ false = ground arith in
    let room : ltb uint32_max initial ≡ false = ground arith in
    let m₁ = store 4 8 initial (store 4 0 1397050689 m) in
    let start : value_named m₁ ≡ initial = load-store 4 8 initial _ (omega arith) in
    (m₁, rw (long, room), start, post_fits n initial m₁ start fits)
semaphore_start false initial n size m h small fits =
    let long : ltb size 64 ≡ false = ground arith in
    let m₁ = store 4 0 1397050689 m in
    let start : value_named m₁ ≡ value_named m =
      ap of_bytes (get-store-Apart 8 4 4 0 1397050689 m (inr (omega arith))) in
    (m₁, rw long, start, post_fits n (value_named m) m₁ start fits)
