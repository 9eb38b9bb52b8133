-- ===== src/Shm/Refused.antt =====
-- What src/fastipc/guarded_shared_memory.py does to a segment that a constructor could not use.
use pyfastipc.Base.{
  text_eq_refl, ℕ, ◌<◌, ◌≡◌, ◌≢◌, refl, ap, ◌∙◌, Bool, true, false, none, some, err, runtime_error,
  Text, length, replicate, arith,
}
use pyfastipc.Shm.World.{World, listdir, has_pid, makedirs}
use pyfastipc.Shm.Open.{Guarded, quiet, bad_arguments}
use pyfastipc.Shm.Close.{Killed, alive, close, del, abandoned, construct}
use pyfastipc.Shm.Refusals.{find_too_small}
use pyfastipc.Shm.LastLeave.{close_removes}

listdir-makedirs : (path : Text) (w : World) → listdir path (makedirs path w) ≡ listdir path w
unfolding makedirs
listdir-makedirs path w = ground (arith, text_eq_refl path)

del-shm :
    (kill : ℕ → Killed) (g : Guarded) (w : World)
    → g.try_cleanup_on_exit ≡ true
    → (del kill false g w).1 ≡ (close kill false g w).1
unfolding del
del-shm kill g w e = simp e

-- A call of the class, with clean-up on exit, that asks for more bytes than the segment of the name has
-- raises `RuntimeError`, if its arguments pass, nobody else acts and no call fails for a reason of its own;
-- and if no other process that is registered for the segment is alive, then the `__del__` of the object
-- that was refused takes the name away from the segment.
pub construct_removes :
    (kill : ℕ → Killed) (attempts pid : ℕ) (path : Text) (attach_only : Bool) (name : Text)
    (size s : ℕ) (w : World)
    → bad_arguments name size ≡ false
    → w.shm name ≡ some s
    → length (w.segment s) < size
    → ((n : ℕ) → n ≢ pid → has_pid n (listdir path w) ≡ true → alive (kill n) ≡ false)
    → let (r, w') =
        construct kill false (replicate attempts quiet) pid path attach_only true name size w in
      (r ≡ err runtime_error) × (w'.shm name ≡ none)
unfolding construct makedirs
construct_removes kill attempts pid path attach_only name size s w good e lt alone =
    let g = abandoned name pid path true size in
    let w₁ = makedirs path w in
    let found = find_too_small attempts attach_only name size s w₁ e lt in
    let removed =
      close_removes kill g w₁ refl refl (λ n ne h. alone n ne (rw (← listdir-makedirs path w) h)) in
    simp (good, found) (refl, ap (λ t. t.shm name) (del-shm kill g w₁ refl) ∙ removed.0)
