-- ===== src/Shm/Refusals.antt =====
-- `GuardedSharedMemory.__init__` of src/fastipc/guarded_shared_memory.py when nobody else acts and no call
-- fails for a reason of its own, but the segment is too small, or is not there and may not be created.
use pyfastipc.Base.{
  ℕ, zero, suc, ◌+◌, ◌-◌, ◌<◌, ◌≡◌, ◌⊎◌, Error, refl, ap, Bool, true, false, inl, inr, ◌∷◌, none,
  some, err, runtime_error, no_shm_found_error, Text, length, replicate, arith,
}
use pyfastipc.Shm.World.{World, makedirs, close_fd}
use pyfastipc.Shm.Open.{quiet, discard, find_segment, bad_arguments, init}
use pyfastipc.Shm.Quiet.{attempt_too_small, attempt_missing}

open_close : (w : World) → close_fd (record w { open_fds = w.open_fds + 1 }) ≡ w
open_close w =
    let e : w.open_fds + 1 - 1 ≡ w.open_fds = omega arith in ap (λ n. record w { open_fds = n }) e

pub find_too_small :
    (attempts : ℕ) (attach_only : Bool) (name : Text) (size s : ℕ) (w : World)
    → w.shm name ≡ some s
    → length (w.segment s) < size
    → find_segment (replicate attempts quiet) attach_only name size w ≡ (err runtime_error, w)
unfolding find_segment discard
find_too_small zero attach_only name size s w e lt = refl
find_too_small (suc n) attach_only name size s w e lt =
    rw (attempt_too_small attach_only name size w s e lt, open_close w)
      (find_too_small n attach_only name size s w e lt)

-- The two refusals leave the segments, their names and the descriptors as they were. A caller that
-- asked to attach only gets `NoShmFoundError` if the name stands for nothing. A segment that is
-- smaller than the requested size is refused with `RuntimeError` after all attempts.
init_refuses :
    (attempts pid : ℕ) (path : Text) (attach_only cleanup : Bool) (name : Text) (size : ℕ)
    (w : World)
    → bad_arguments name size ≡ false
    → ((w.shm name ≡ none) × (attach_only ≡ true))
      ⊎ ((s : ℕ) × (w.shm name ≡ some s) × (length (w.segment s) < size))
    → (e : Error) × (init
          (quiet ∷ replicate attempts quiet)
          pid
          path
          attach_only
          cleanup
          name
          size
          w
        ≡ (err e, makedirs path w))
      × (e ≡ elim (w.shm name) [ none ↦ no_shm_found_error | some _ ↦ runtime_error ])
unfolding init find_segment makedirs
init_refuses attempts pid path attach_only cleanup name size w good (inl (missing, a)) = (
  no_shm_found_error,
  rw (good, attempt_missing attach_only name size (makedirs path w) missing a, a),
  rw missing,
)
init_refuses attempts pid path attach_only cleanup name size w good (inr (s, e, lt)) = (
  runtime_error,
  rw (good, find_too_small (suc attempts) attach_only name size s (makedirs path w) e lt),
  rw e,
)
