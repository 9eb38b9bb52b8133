-- ===== src/Shm/LastLeave.antt =====
-- The last process to leave: `close` of src/fastipc/guarded_shared_memory.py removes the name of the
-- segment and the pid directory.
use pyfastipc.Base.{
  text_eq, text_eq_refl, ℕ, ◌≡◌, ◌≢◌, ◌⊎◌, ◌==◌, refl, ap, ◌∙◌, Bool, true, false, Bool-cases, inl,
  inr, List, [], ◌∷◌, none, if◌then◌else◌, Text, arith,
}
use pyfastipc.Shm.World.{
  World, Entry, pid_file, other_file, update, listdir, has_pid, remove_pid, unlink_pid, rmdir,
}
use pyfastipc.Shm.Open.{Guarded}
use pyfastipc.Shm.Close.{
  Killed, alive, remove_dead, cleanup_dead_pids, has_other_alive_pids, remove_pid_file, unlink,
  finish, leave, close,
}
use pyfastipc.Shm.Leave.{
  after_cleanup, has_pid-after_cleanup, shm-after_cleanup, listdir-unlink_pid, none_alive, IsLeft,
  finish-IsLeft, finish-shm, finish-dirs, left_world, unlinked_world, close-leave, leave_if_none,
}

-- Some file of the listing is not named by a number.
abbrev pub HasOther : List Entry → Type 0
HasOther [] = ⊥
HasOther (pid_file _ ∷ fs) = HasOther fs
HasOther (other_file _ ∷ fs) = Unit

HasOther-remove_pid : (p : ℕ) (fs : List Entry) → HasOther (remove_pid p fs) → HasOther fs
unfolding remove_pid
HasOther-remove_pid p [] h = h
HasOther-remove_pid p (pid_file n ∷ fs) h = elim (Bool-cases (n == p)) [
  | inl e ↦ HasOther-remove_pid p fs (rw e at h)
  | inr e ↦ HasOther-remove_pid p fs (rw e at h)
]
HasOther-remove_pid p (other_file t ∷ fs) h = tt

HasOther-remove_dead :
    (kill : ℕ → Killed) (fs : List Entry) (path : Text) (w : World)
    → HasOther (listdir path (remove_dead kill fs path w))
    → HasOther (listdir path w)
unfolding remove_dead
HasOther-remove_dead kill [] path w h = h
HasOther-remove_dead kill (other_file t ∷ fs) path w h = HasOther-remove_dead kill fs path w h
HasOther-remove_dead kill (pid_file n ∷ fs) path w h =
    let w₁ = if alive (kill n) then w else unlink_pid path n w in
    let h₁ : HasOther (listdir path w₁) = HasOther-remove_dead kill fs path w₁ h in
    elim (Bool-cases (alive (kill n))) [
      | inl a ↦ rw a at h₁
      | inr a ↦ HasOther-remove_pid n (listdir path w) (rw (a, listdir-unlink_pid path n w) at h₁)
    ]

-- Without pid files a listing is empty, or has another file.
nil_or_other : (fs : List Entry) → ((n : ℕ) → has_pid n fs ≡ true → ⊥) → HasOther fs ⊎ (fs ≡ [])
unfolding has_pid
nil_or_other [] e = inr refl
nil_or_other (pid_file n ∷ fs) e = absurd (e n (ground arith))
nil_or_other (other_file t ∷ fs) e = inl tt

rmdir_empty : (path : Text) (w : World) → listdir path w ≡ [] → (rmdir path w).dirs path ≡ none
unfolding rmdir
rmdir_empty path w e = ground (arith, text_eq_refl path)

rmdir-shm : (path : Text) (w : World) → (rmdir path w).shm ≡ w.shm
unfolding rmdir
rmdir-shm path w = ground arith

module _ (kill : ℕ → Killed) (g : Guarded) (w : World) (open_still : g.closed ≡ false)
    (not_unlinked : g.unlinked ≡ false)
    (alone : (n : ℕ)
      → n ≢ g.pid
      → has_pid n (listdir g.pid_dir w) ≡ true
      → alive (kill n) ≡ false) where
  no_pid_left : (n : ℕ) → has_pid n (listdir g.pid_dir (after_cleanup kill g w)) ≡ true → ⊥
  no_pid_left n h = ground (arith, has_pid-after_cleanup kill g n w, alone n)

  nobody : has_other_alive_pids kill g (after_cleanup kill g w) ≡ false
  unfolding has_other_alive_pids
  nobody = none_alive kill g.pid (listdir g.pid_dir (after_cleanup kill g w)) no_pid_left

  abbrev gone : World
  gone = unlinked_world kill false g w open_still

  gone_dirs : HasOther (listdir g.pid_dir w) ⊎ (gone.dirs g.pid_dir ≡ none)
  unfolding remove_pid_file cleanup_dead_pids
  gone_dirs = elim (nil_or_other (listdir g.pid_dir (after_cleanup kill g w)) no_pid_left) [
    | inl other ↦ inl (
        HasOther-remove_dead kill (listdir g.pid_dir w) g.pid_dir w (
          HasOther-remove_pid g.pid (listdir g.pid_dir (cleanup_dead_pids kill g w))
            (rw (listdir-unlink_pid g.pid_dir g.pid (cleanup_dead_pids kill g w)) at other)))
    | inr empty ↦ inr (rmdir_empty g.pid_dir _ empty)
  ]

  gone_shm : gone.shm ≡ update g.name none w.shm
  gone_shm = rmdir-shm g.pid_dir _ ∙ ap (update g.name none) (shm-after_cleanup kill g w)

  close-finish : close kill false g w ≡ finish (record g { unlinked = true }, gone)
  close-finish =
      close-leave kill false g w open_still
      ∙ leave_if_none kill false g w open_still nobody not_unlinked refl

  -- If no other process that is registered for the segment is alive, and `shm_unlink` does not fail,
  -- `close` of an object that is open, and that has not unlinked the name, takes the name away from the
  -- segment and leaves all other names alone. The object is closed with nothing mapped, and the pid
  -- directory is gone, if it does not hold a file that is no pid file.
  pub close_removes :
      let (g', w') = close kill false g w in
      (w'.shm g.name ≡ none)
      × ((t : Text) → text_eq t g.name ≡ false → w'.shm t ≡ w.shm t)
      × (HasOther (listdir g.pid_dir w) ⊎ (w'.dirs g.pid_dir ≡ none))
      × IsLeft g g'
  close_removes =
      let g₁ = record g { unlinked = true } in
      let left = finish-IsLeft g₁ gone in
      let shm = finish-shm g₁ gone ∙ gone_shm in
      rw close-finish (
        ap (λ t. t g.name) shm ∙ rw (text_eq_refl g.name),
        (λ t h. ap (λ f. f t) shm ∙ rw h),
        elim gone_dirs [
          | inl other ↦ inl other
          | inr e ↦ inr (ap (λ d. d g.pid_dir) (finish-dirs g₁ gone) ∙ e)
        ],
        record {
          closed = left.closed;
          view = left.view;
          mapping = left.mapping;
          fd = left.fd;
          unregistered = left.unregistered;
        },
      )

close_of_closed :
    (kill : ℕ → Killed) (fault : Bool) (g : Guarded) (w : World)
    → g.closed ≡ true
    → close kill fault g w ≡ (g, w)
unfolding close
close_of_closed kill fault g w e = simp e

leave-closed :
    (kill : ℕ → Killed) (fault : Bool) (g : Guarded) (w : World)
    → (leave kill fault g w).0.closed ≡ true
unfolding leave
leave-closed kill fault g w = elim (Bool-cases (has_other_alive_pids kill g w)) [
  | inl others ↦ rw others (finish-IsLeft g w).closed
  | inr alone ↦ rw alone (finish-IsLeft (unlink fault g w).1.0 _).closed
]

close-closed :
    (kill : ℕ → Killed) (fault : Bool) (g : Guarded) (w : World)
    → (close kill fault g w).0.closed ≡ true
close-closed kill fault g w = elim (Bool-cases g.closed) [
  | inl shut ↦ ap (λ p. p.0.closed) (close_of_closed kill fault g w shut) ∙ shut
  | inr open_still ↦
      ap (λ p. p.0.closed) (close-leave kill fault g w open_still)
      ∙ leave-closed kill fault g (left_world kill fault g w open_still)
]

-- A closed object stays as it is, and a second `close` changes nothing outside it either, whatever
-- happened in between.
pub close_twice :
    (kill kill' : ℕ → Killed) (fault fault' : Bool) (g : Guarded) (w w' : World)
    → let g' = (close kill fault g w).0 in close kill' fault' g' w' ≡ (g', w')
close_twice kill kill' fault fault' g w w' =
    close_of_closed kill' fault' (close kill fault g w).0 w' (close-closed kill fault g w)
