-- ===== src/Shm/Leave.antt =====
-- Leaving: `close` of src/fastipc/guarded_shared_memory.py in terms of the processes that are
-- registered and alive.
use pyfastipc.Base.{
  text_eq_refl, ℕ, ◌≡◌, ◌≢◌, inl, inr, refl, ap, ◌∙◌, Bool, true, false, Bool-cases, ◌&&◌, not,
  List, [], ◌∷◌, none, ok, ◌==◌, if◌then◌else◌, Text, arith,
}
use pyfastipc.Shm.World.{
  World, Entry, pid_file, other_file, update, listdir, has_pid, remove_pid, unlink_pid, rmdir,
  shm_unlink_wrapped,
}
use pyfastipc.Shm.Open.{Guarded}
use pyfastipc.Shm.Close.{
  Killed, alive, remove_dead, cleanup_dead_pids, any_other_alive, has_other_alive_pids,
  remove_pid_file, unlink, finish, leave, close,
}

pub has_pid-remove_pid :
    (n p : ℕ) (fs : List Entry)
    → has_pid n (remove_pid p fs) ≡ (if n == p then false else has_pid n fs)
unfolding has_pid remove_pid
has_pid-remove_pid n p [] = ground arith
has_pid-remove_pid n p (pid_file m ∷ fs) = ground (arith, has_pid-remove_pid n p fs)
has_pid-remove_pid n p (other_file t ∷ fs) = ground (arith, has_pid-remove_pid n p fs)

pub listdir-unlink_pid :
    (path : Text) (p : ℕ) (w : World)
    → listdir path (unlink_pid path p w) ≡ remove_pid p (listdir path w)
unfolding unlink_pid remove_pid
listdir-unlink_pid path p w = ground (arith, text_eq_refl path)

pub shm-unlink_pid : (path : Text) (p : ℕ) (w : World) → (unlink_pid path p w).shm ≡ w.shm
unfolding unlink_pid
shm-unlink_pid path p w = ground arith

module _ (kill : ℕ → Killed) where
  -- Which files are left after the loop: those of other processes, and those of live ones.
  has_pid-remove_dead :
      (n : ℕ) (fs : List Entry) (path : Text) (w : World)
      → has_pid n (listdir path (remove_dead kill fs path w))
        ≡ (if has_pid n fs && not (alive (kill n)) then false else has_pid n (listdir path w))
  unfolding remove_dead has_pid
  has_pid-remove_dead n [] path w = refl
  has_pid-remove_dead n (other_file t ∷ fs) path w = has_pid-remove_dead n fs path w
  has_pid-remove_dead n (pid_file m ∷ fs) path w = elim (Bool-cases (alive (kill m))) [
    | inl a ↦ ground (arith, has_pid-remove_dead n fs path w)
    | inr a ↦ ground (
      arith,
      has_pid-remove_dead n fs path (unlink_pid path m w),
      listdir-unlink_pid path m w,
      has_pid-remove_pid n m (listdir path w),
    )
  ]

  shm-remove_dead :
      (fs : List Entry) (path : Text) (w : World) → (remove_dead kill fs path w).shm ≡ w.shm
  unfolding remove_dead
  shm-remove_dead [] path w = refl
  shm-remove_dead (other_file t ∷ fs) path w = shm-remove_dead fs path w
  shm-remove_dead (pid_file m ∷ fs) path w =
      shm-remove_dead fs path (if alive (kill m) then w else unlink_pid path m w)
      ∙ ground (arith, shm-unlink_pid path m w)

  -- the listing that `close` decides by
  abbrev pub after_cleanup : Guarded → World → World
  after_cleanup g w = remove_pid_file g (cleanup_dead_pids kill g w)

  -- It holds the live processes that were registered before, without the caller.
  pub has_pid-after_cleanup :
      (g : Guarded) (n : ℕ) (w : World)
      → has_pid n (listdir g.pid_dir (after_cleanup g w))
        ≡ (not (n == g.pid) && (has_pid n (listdir g.pid_dir w) && alive (kill n)))
  unfolding remove_pid_file cleanup_dead_pids
  has_pid-after_cleanup g n w = ground (
    arith,
    listdir-unlink_pid g.pid_dir g.pid (remove_dead kill (listdir g.pid_dir w) g.pid_dir w),
    has_pid-remove_pid n g.pid
        (listdir g.pid_dir (remove_dead kill (listdir g.pid_dir w) g.pid_dir w)),
    has_pid-remove_dead n (listdir g.pid_dir w) g.pid_dir w,
  )

  pub shm-after_cleanup : (g : Guarded) (w : World) → (after_cleanup g w).shm ≡ w.shm
  unfolding remove_pid_file cleanup_dead_pids
  shm-after_cleanup g w =
      shm-unlink_pid g.pid_dir g.pid (remove_dead kill (listdir g.pid_dir w) g.pid_dir w)
      ∙ shm-remove_dead (listdir g.pid_dir w) g.pid_dir w

  pub any_other_alive_of :
      (pid n : ℕ) (fs : List Entry)
      → n ≢ pid
      → has_pid n fs ≡ true
      → alive (kill n) ≡ true
      → any_other_alive kill pid fs ≡ true
  unfolding any_other_alive has_pid
  any_other_alive_of pid n [] ne h a = cc
  any_other_alive_of pid n (other_file t ∷ fs) ne h a = any_other_alive_of pid n fs ne h a
  any_other_alive_of pid n (pid_file m ∷ fs) ne h a = ground (arith, any_other_alive_of pid n fs ne)

  pub none_alive :
      (pid : ℕ) (fs : List Entry)
      → ((n : ℕ) → has_pid n fs ≡ true → ⊥)
      → any_other_alive kill pid fs ≡ false
  unfolding any_other_alive has_pid
  none_alive pid [] h = refl
  none_alive pid (other_file t ∷ fs) h = none_alive pid fs h
  none_alive pid (pid_file m ∷ fs) h = absurd (h m (ground arith))

-- An object that is left for good: closed, out of the exit handlers, with nothing mapped.
pub record IsLeft (g g' : Guarded) : Type 0 where
  pub closed : g'.closed ≡ true
  pub view : g'.view ≡ none
  pub mapping : g'.mapping ≡ none
  pub fd : g'.fd ≡ none
  pub unregistered : g.try_cleanup_on_exit ≡ true → g'.registered ≡ false

pub finish-IsLeft : (g : Guarded) (w : World) → IsLeft g (finish (g, w)).0
unfolding finish
finish-IsLeft g w = record {
  closed = ground arith;
  view = ground arith;
  mapping = ground arith;
  fd = ground arith;
  unregistered = λ e. ground arith;
}

pub finish-shm : (g : Guarded) (w : World) → (finish (g, w)).1.shm ≡ w.shm
unfolding finish
finish-shm g w = ground arith

pub finish-dirs : (g : Guarded) (w : World) → (finish (g, w)).1.dirs ≡ w.dirs
unfolding finish
finish-dirs g w = ground arith

pub finish-listdir :
    (path : Text) (g : Guarded) (w : World) → listdir path (finish (g, w)).1 ≡ listdir path w
unfolding finish
finish-listdir path g w = ground arith

module _ (kill : ℕ → Killed) (fault : Bool) (g : Guarded) (w : World)
    (open_still : g.closed ≡ false) where
  abbrev pub left_world : World
  left_world = after_cleanup kill g w

  pub close-leave : close kill fault g w ≡ leave kill fault g left_world
  unfolding close
  close-leave = simp open_still

  leave_if_alive :
      has_other_alive_pids kill g left_world ≡ true
      → leave kill fault g left_world ≡ finish (g, left_world)
  unfolding leave
  leave_if_alive e = simp e

  -- While another process that is registered for the segment is alive, `close` leaves the names of
  -- shared memory alone. It takes the caller off the register, keeps the other one on it, and leaves
  -- the object closed with nothing mapped.
  pub close_keeps :
      (n : ℕ)
      → n ≢ g.pid
      → has_pid n (listdir g.pid_dir w) ≡ true
      → alive (kill n) ≡ true
      → let (g', w') = close kill fault g w in
        (w'.shm ≡ w.shm)
        × (has_pid n (listdir g.pid_dir w') ≡ true)
        × (has_pid g.pid (listdir g.pid_dir w') ≡ false)
        × IsLeft g g'
  unfolding has_other_alive_pids
  close_keeps n ne h a =
      let listed : has_pid n (listdir g.pid_dir left_world) ≡ true =
        ground (arith, has_pid-after_cleanup kill g n w) in
      let taken_off : has_pid g.pid (listdir g.pid_dir left_world) ≡ false =
        ground (arith, has_pid-after_cleanup kill g g.pid w) in
      let same = finish-listdir g.pid_dir g left_world in
      rw
        (
          close-leave,
          leave_if_alive
              (any_other_alive_of kill g.pid n (listdir g.pid_dir left_world) ne listed a),
        )
        (
          finish-shm g left_world ∙ shm-after_cleanup kill g w,
          ap (has_pid n) same ∙ listed,
          ap (has_pid g.pid) same ∙ taken_off,
          finish-IsLeft g left_world,
        )

  abbrev pub unlinked_world : World
  unlinked_world = rmdir g.pid_dir (record left_world { shm = update g.name none left_world.shm })

  unlink_lem :
      g.unlinked ≡ false
      → fault ≡ false
      → unlink fault g left_world ≡ (
        ok tt,
        (
          record g { unlinked = true },
          record left_world { shm = update g.name none left_world.shm },
        ),
      )
  unfolding unlink shm_unlink_wrapped
  unlink_lem u f = ground arith

  pub leave_if_none :
      has_other_alive_pids kill g left_world ≡ false
      → g.unlinked ≡ false
      → fault ≡ false
      → leave kill fault g left_world ≡ finish (record g { unlinked = true }, unlinked_world)
  unfolding leave
  leave_if_none e u f = simp (e, unlink_lem u f)
