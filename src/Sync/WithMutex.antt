-- ===== src/Sync/WithMutex.antt =====
-- `with` blocks on a named mutex of src/fastipc/sync/named_mutex.py.
use pyfastipc.Base.{
  ℕ, ◌^◌, ◌<◌, ◌≡◌, true, List, Option, some, Result, err, runtime_error, arith, ◌==◌, refl,
}
use pyfastipc.Memory.{Mem, load}
use pyfastipc.Primitives.Mutex.{acquire_fast}
use pyfastipc.Primitives.Cycle.{Free, Held, SameOutside, acquire-Held, release-Free}
use pyfastipc.Sync.NamedMutex.{acquire_named, release_named, with_named}

module _ (A : Type 0) (pid now : ℕ) (turns : List (Mem → Mem)) where
  -- A body that holds the mutex at its end, however it ends.
  abbrev pub Holds : (Mem → Option (Result A × Mem)) → Type 0
  Holds body =
      (m : Mem)
      → Held 0 pid m
      → (r : Result A) × (m' : Mem) × (body m ≡ some (r, m')) × Held 0 pid m'

  -- A `with` block inside another one on the same mutex raises, and leaves the mutex to the other.
  pub with_named-Holds :
      (body : Mem → Option (Result A × Mem)) → Holds (with_named pid now turns body)
  unfolding with_named acquire_named acquire_fast
  with_named-Holds body m held =
      let mine : (load 4 12 m == pid) ≡ true = ground (arith, held.owned) in
      (err runtime_error, m, rw mine refl, held)

  -- On a free mutex a `with` block, whose body holds the mutex at its end, runs the body once, with the
  -- mutex, and ends as the body does, with a result or by its exception: the mutex is free again, and what
  -- the body did to the memory beyond the mutex stays. The number of the process has 32 bits and is not 0.
  pub with_named-Free :
      (body : Mem → Option (Result A × Mem)) (m : Mem)
      → 0 < pid
      → pid < 2 ^ 32
      → Holds body
      → Free 0 m
      → (m₁ : Mem) × Held 0 pid m₁
        × SameOutside 0 m m₁
        × ((r : Result A) × (m₂ : Mem) × (body m₁ ≡ some (r, m₂))
            × ((m₃ : Mem) × (with_named pid now turns body m ≡ some (r, m₃))
                × Free 0 m₃
                × SameOutside 0 m₂ m₃))
  unfolding with_named acquire_named release_named
  with_named-Free body m pos small holds free =
      let (m₁, e₁, held, same₁) = acquire-Held 0 pid now turns m pos small free in
      let (r, m₂, e₂, held₂) = holds m₁ held in
      let (m₃, woken, e₃, free₃, same₃) = release-Free 0 pid m₂ held₂ in
      (m₁, held, same₁, (r, m₂, e₂, (m₃, rw (e₁, e₂, e₃) refl, free₃, same₃)))
