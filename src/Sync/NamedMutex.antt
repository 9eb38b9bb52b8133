-- ===== src/Sync/NamedMutex.antt =====
-- src/fastipc/sync/named_mutex.py: a mutex in a segment of its own, which begins at 0 of the mapping.
use pyfastipc.Base.{
  ℕ, Bool, true, false, List, Option, none, some, Result, ok, err, runtime_error, replicate,
  if◌then◌else◌,
}
use pyfastipc.Memory.{Mem, put}
use pyfastipc.Primitives.Mutex.{
  init_mutex, acquire_fast, try_acquire, release, force_release, owner_pid, last_acquired_ns,
}
use pyfastipc.Primitives.Timed.{Timeout, Spin, Wait, acquire_ns}

-- `__init__` on the mapping of a segment of `size` bytes; `created` says whether the constructor of
-- the segment made it
abbrev pub clear_header : Bool → Result (Unit {0}) × Mem → Result (Unit {0}) × Mem
clear_header created (err e, m) = (err e, m)
clear_header created (ok _, m) =
    (ok tt, if created then put 0 (replicate 64 0) (force_release 0 m).0 else m)

unfoldable pub init_named : Bool → ℕ → Mem → Result (Unit {0}) × Mem
init_named created size m = clear_header created (init_mutex 0 size m)

-- `acquire` and `__enter__`
unfoldable pub acquire_named : ℕ → ℕ → List (Mem → Mem) → Mem → Option (Result Bool × Mem)
acquire_named pid now turns m = acquire_fast 0 pid now turns m

-- `acquire_ns`
unfoldable pub acquire_ns_named :
    ℕ → ℕ → Timeout → List Spin → List Wait → Mem → Option (Bool × Mem)
acquire_ns_named pid now timeout spins waits m = acquire_ns 0 pid now timeout spins waits m

unfoldable pub try_acquire_named : ℕ → ℕ → Mem → Bool × Mem
try_acquire_named pid now m = try_acquire 0 pid now m

-- `release` and `__exit__`; the last component says whether a waiter is woken
unfoldable pub release_named : ℕ → Mem → Result (Unit {0}) × (Mem × Bool)
release_named pid m = release 0 pid m

-- `try_release`, which catches the `RuntimeError` of `release`
abbrev pub caught : Result (Unit {0}) × (Mem × Bool) → Result Bool × (Mem × Bool)
caught (ok _, w) = (ok true, w)
caught (err runtime_error, w) = (ok false, w)
caught (err e, w) = (err e, w)

unfoldable pub try_release : ℕ → Mem → Result Bool × (Mem × Bool)
unfolding release_named
try_release pid m = caught (release_named pid m)

unfoldable pub force_release_named : Mem → Mem × Bool
force_release_named m = force_release 0 m

abbrev pub owner_pid_named : Mem → ℕ
owner_pid_named m = owner_pid 0 m

abbrev pub last_acquired_ns_named : Mem → ℕ
last_acquired_ns_named m = last_acquired_ns 0 m

-- `with mutex: body`: `__exit__` is called whichever way the body ends, and its exception replaces that
-- of the body; it is not called where `__enter__` raises.
module _ {A : Type 0} where
  abbrev pub exited : Result A → Result (Unit {0}) × (Mem × Bool) → Result A × Mem
  exited r (ok _, (m, woken)) = (r, m)
  exited r (err e, (m, woken)) = (err e, m)

  abbrev pub after_body : ℕ → Option (Result A × Mem) → Option (Result A × Mem)
  after_body pid none = none
  after_body pid (some (r, m)) = some (exited r (release_named pid m))

  abbrev pub entered :
      ℕ → (Mem → Option (Result A × Mem)) → Option (Result Bool × Mem) → Option (Result A × Mem)
  entered pid body none = none
  entered pid body (some (err e, m)) = some (err e, m)
  entered pid body (some (ok _, m)) = after_body pid (body m)

  unfoldable pub with_named :
      ℕ → ℕ → List (Mem → Mem) → (Mem → Option (Result A × Mem)) → Mem → Option (Result A × Mem)
  with_named pid now turns body m = entered pid body (acquire_named pid now turns m)
