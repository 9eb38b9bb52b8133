-- ===== src/Sync/MutexCycle.antt =====
-- The life of a named mutex of src/fastipc/sync/named_mutex.py between two processes.
use pyfastipc.Base.{
  ℕ, ◌^◌, ◌≤◌, ◌<◌, ◌≡◌, ◌≢◌, refl, Bool, true, false, List, some, ok, ltb, replicate, arith,
}
use pyfastipc.Memory.{Mem, get, put, of_bytes, store}
use pyfastipc.Primitives.Mutex.{init_mutex, force_release}
use pyfastipc.Primitives.Cycle.{Free, Held, acquire-Held, release-Free, Held-excludes}
use pyfastipc.Sync.NamedMutex.{
  init_named, acquire_named, try_acquire_named, release_named, try_release,
}

-- The mutex of a segment that the constructor made is free, whatever the segment held.
init_named-Free :
    (size : ℕ) (m : Mem)
    → 64 ≤ size
    → (m' : Mem) × (init_named true size m ≡ (ok tt, m')) × Free 0 m'
unfolding init_named init_mutex force_release
init_named-Free size m h =
    let long : ltb size 64 ≡ false = ground arith in
    (
      put 0 (replicate 64 0) (store 4 12 0 (store 4 8 0 (store 4 0 1297437784 m))),
      rw long,
      unfold get put of_bytes in record { unlocked = refl; unowned = refl },
    )

module _ (size pid other now later : ℕ) (turns : List (Mem → Mem)) (m : Mem) (room : 64 ≤ size)
    (pid_some : 0 < pid) (pid_small : pid < 2 ^ 32) (other_some : 0 < other)
    (other_small : other < 2 ^ 32) (two : other ≢ pid) where
  -- A created named mutex is taken by one process at once. Until that process releases it, another
  -- one neither gets it nor releases it, and its attempts change nothing. After the release it is
  -- the other one's for the asking. The two numbers have 32 bits, differ and are not 0.
  pub named_cycle :
      (m₀ : Mem) × (init_named true size m ≡ (ok tt, m₀))
      × ((m₁ : Mem) × (acquire_named pid now turns m₀ ≡ some (ok true, m₁))
          × (try_acquire_named other later m₁ ≡ (false, m₁))
          × (try_release other m₁ ≡ (ok false, (m₁, false)))
          × ((m₂ : Mem) × (woken : Bool) × (release_named pid m₁ ≡ (ok tt, (m₂, woken)))
              × ((m₃ : Mem) × (acquire_named other later turns m₂ ≡ some (ok true, m₃))
                  × Held 0 other m₃)))
  unfolding acquire_named try_acquire_named try_release release_named
  named_cycle =
      let (m₀, e₀, free) = init_named-Free size m room in
      let (m₁, e₁, held, _) = acquire-Held 0 pid now turns m₀ pid_some pid_small free in
      let (fails, refused) = Held-excludes 0 pid other later m₁ held two in
      let (m₂, woken, e₂, free₂, _) = release-Free 0 pid m₁ held in
      let (m₃, e₃, held₃, _) = acquire-Held 0 other later turns m₂ other_some other_small free₂ in
      (m₀, e₀, (m₁, e₁, fails, rw refused, (m₂, woken, e₂, (m₃, e₃, held₃))))
