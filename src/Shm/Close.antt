-- ===== src/Shm/Close.antt =====
-- The way out of src/fastipc/guarded_shared_memory.py: `close`, `unlink`, `detach`, `__del__`, and
-- the bookkeeping of pid files that they rest on.
use pyfastipc.Base.{
  ℕ, Bool, true, false, ◌&&◌, not, List, [], ◌∷◌, Option, none, some, Result, ok, err, value_error,
  ◌==◌, if◌then◌else◌, Text, length,
}
use pyfastipc.Shm.World.{
  World, Entry, pid_file, other_file, Errno, eperm, shm_unlink_wrapped, close_fd, listdir,
  unlink_pid, rmdir, makedirs,
}
use pyfastipc.Shm.Open.{Guarded, Weather, Found, bad_arguments, find_segment, register}

-- `os.kill(pid, 0)`: the process is there, or the call fails.
pub data Killed : Type 0 where
  delivered : Killed
  failed : Errno → Killed

-- `_alive`
abbrev pub alive : Killed → Bool
alive delivered = true
alive (failed eperm) = true
alive (failed _) = false

-- `kill` answers `os.kill(pid, 0)` for each process.
module _ (kill : ℕ → Killed) where
  -- the loop over the files of a listing
  unfoldable pub remove_dead : List Entry → Text → World → World
  remove_dead [] path w = w
  remove_dead (pid_file n ∷ fs) path w =
      remove_dead fs path (if alive (kill n) then w else unlink_pid path n w)
  remove_dead (other_file _ ∷ fs) path w = remove_dead fs path w

  unfoldable pub cleanup_dead_pids : Guarded → World → World
  unfolding remove_dead
  cleanup_dead_pids g w = remove_dead (listdir g.pid_dir w) g.pid_dir w

  unfoldable pub any_other_alive : ℕ → List Entry → Bool
  any_other_alive pid [] = false
  any_other_alive pid (pid_file n ∷ fs) =
      if not (n == pid) && alive (kill n) then true else any_other_alive pid fs
  any_other_alive pid (other_file _ ∷ fs) = any_other_alive pid fs

  unfoldable pub has_other_alive_pids : Guarded → World → Bool
  unfolding any_other_alive
  has_other_alive_pids g w = any_other_alive g.pid (listdir g.pid_dir w)

unfoldable pub remove_pid_file : Guarded → World → World
remove_pid_file g w = unlink_pid g.pid_dir g.pid w

unfoldable pub get_num_procs : Guarded → World → ℕ
get_num_procs g w = length (listdir g.pid_dir w)

-- `unlink`; `fault` makes `shm_unlink` fail
unfoldable pub unlink : Bool → Guarded → World → Result (Unit {0}) × (Guarded × World)
unlink fault g w =
    if g.unlinked
    then (ok tt, (g, w))
    else let (r, w') = shm_unlink_wrapped fault g.name w in
      elim r [ ok _ ↦ (ok tt, (record g { unlinked = true }, w')) | err e ↦ (err e, (g, w')) ]

-- A descriptor is closed, if there is one.
abbrev pub close_if : Option ℕ → World → World
close_if none w = w
close_if (some s) w = close_fd w

-- The mapping has a descriptor of its own. Nobody has an export of the view, with which
-- `memoryview.release` would raise.
unfoldable pub detach : Guarded → World → Guarded × World
detach g w =
    (record g { view = none; mapping = none; fd = none }, close_if g.fd (close_if g.mapping w))

unfoldable pub unregister_atexit : Guarded → Guarded
unregister_atexit g = if g.try_cleanup_on_exit then record g { registered = false } else g

-- the end of both ways through `close`
unfoldable pub finish : Guarded × World → Guarded × World
unfolding detach unregister_atexit
finish (g, w) = let (g', w') = detach g w in (unregister_atexit (record g' { closed = true }), w')

-- the end of `close` behind `unlink`, whose errors are passed over
abbrev pub after_unlink : Guarded → Result (Unit {0}) × (Guarded × World) → Guarded × World
after_unlink g (_, (g', w)) = finish (g', rmdir g.pid_dir w)

-- `close` once the register is cleaned
unfoldable pub leave : (ℕ → Killed) → Bool → Guarded → World → Guarded × World
leave kill fault g w =
    if has_other_alive_pids kill g w then finish (g, w) else after_unlink g (unlink fault g w)

unfoldable pub close : (ℕ → Killed) → Bool → Guarded → World → Guarded × World
close kill fault g w =
    if g.closed then (g, w) else leave kill fault g (remove_pid_file g (cleanup_dead_pids kill g w))

-- `__del__`
unfoldable pub del : (ℕ → Killed) → Bool → Guarded → World → Guarded × World
unfolding close
del kill fault g w =
    let (g', w') = if g.try_cleanup_on_exit then close kill fault g w else (g, w) in
    (unregister_atexit g', w')

-- the property `buf`
unfoldable pub buf : Guarded → Result ℕ
buf g = elim g.view [ none ↦ err value_error | some s ↦ ok s ]

-- The object when `__init__` raises in its loop: what was set before the loop.
abbrev pub abandoned : Text → ℕ → Text → Bool → ℕ → Guarded
abandoned name pid path cleanup size = record {
  name = name;
  pid = pid;
  pid_dir = path;
  size = size;
  fd = none;
  mapping = none;
  view = none;
  created = false;
  closed = false;
  unlinked = false;
  try_cleanup_on_exit = cleanup;
  registered = false;
}

-- what becomes of the object when its constructor raises, once nothing refers to it any more
abbrev pub discarded :
    (ℕ → Killed) → Bool → Guarded → Result Guarded × World → Result Guarded × World
discarded kill fault g (ok g', w) = (ok g', w)
discarded kill fault g (err e, w) = (err e, (del kill fault g w).1)

-- What becomes of a whole object when its pid file cannot be made: `atexit` holds it, where it is to be
-- cleaned up; otherwise `__del__` does nothing, and the mapping is closed, but not the descriptor.
abbrev pub unlisted : Bool → Result Guarded × World → Result Guarded × World
unlisted cleanup (ok g, w) = (ok g, w)
unlisted cleanup (err e, w) = (err e, if cleanup then w else close_fd w)

-- what follows the loop, in a call of the class
abbrev pub constructed :
    (ℕ → Killed) → Bool → ℕ → Text → Bool → Text → ℕ → Result Found × World → Result Guarded × World
constructed kill fault pid path cleanup name size (ok f, w) =
    unlisted cleanup (register pid path cleanup name (ok f, w))
constructed kill fault pid path cleanup name size (err e, w) =
    discarded kill fault (abandoned name pid path cleanup size) (err e, w)

-- A call of the class, with `__del__` on the object that a failed `__init__` leaves. An object whose
-- arguments were refused has no attributes yet, and its `__del__` does nothing.
unfoldable pub construct :
    (ℕ → Killed)
    → Bool
    → List Weather
    → ℕ
    → Text
    → Bool
    → Bool
    → Text
    → ℕ
    → World
    → Result Guarded × World
construct kill fault weather pid path attach_only cleanup name size w =
    if bad_arguments name size
    then (err value_error, w)
    else constructed kill fault pid path cleanup name size
        (find_segment weather attach_only name size (makedirs path w))
