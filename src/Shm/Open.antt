-- ===== src/Shm/Open.antt =====
-- `GuardedSharedMemory.__init__` of src/fastipc/guarded_shared_memory.py: attach to the segment of a
-- name, or create it, in up to `max_attempts` attempts.
use pyfastipc.Base.{
  ℕ, Bool, true, false, ◌&&◌, ◌||◌, not, List, [], ◌∷◌, ◌++◌, Option, none, some, Result, ok, err,
  Error, value_error, runtime_error, os_error, file_not_found_error, file_exists_error,
  no_shm_found_error, ltb, ◌==◌, if◌then◌else◌, Text, codes, length,
}
use pyfastipc.Shm.World.{
  World, shm_open_wrapped, shm_unlink_wrapped, ftruncate, close_fd, dup_fd, makedirs, touch_pid,
}

-- One attempt as the environment decides it: what other processes do before each of its calls, and
-- which calls fail for reasons of their own.
pub record Weather : Type 0 where
  -- before the two calls of `shm_open`; behind the one that succeeded; before `os.fstat` of a new
  -- segment; before `mmap.mmap`; and before the handler of an exception
  pub before : World → World
  pub between : World → World
  pub behind_open : World → World
  pub before_stat : World → World
  pub before_map : World → World
  pub before_discard : World → World
  pub attach_fault : Bool
  pub create_fault : Bool
  pub truncate_fault : Bool
  pub stat_fault : Bool
  pub map_fault : Option Error
  pub unlink_fault : Bool

-- Nobody else acts, and no call fails for a reason of its own.
abbrev pub quiet : Weather
quiet = record {
  before = λ w. w;
  between = λ w. w;
  behind_open = λ w. w;
  before_stat = λ w. w;
  before_map = λ w. w;
  before_discard = λ w. w;
  attach_fault = false;
  create_fault = false;
  truncate_fault = false;
  stat_fault = false;
  map_fault = none;
  unlink_fault = false;
}

-- The attributes of a `GuardedSharedMemory`; the descriptor, the mapping and the view are known by
-- the segment behind them. `registered` says whether `atexit` holds `close`.
pub record Guarded : Type 0 where
  pub name : Text
  pub pid : ℕ
  pub pid_dir : Text
  pub size : ℕ
  pub fd : Option ℕ
  pub mapping : Option ℕ
  pub view : Option ℕ
  pub created : Bool
  pub closed : Bool
  pub unlinked : Bool
  pub try_cleanup_on_exit : Bool
  pub registered : Bool

-- How the body of the outer `try` ends: with a mapped segment, or by an exception, which finds `fd`
-- and `created` as they were set until then.
pub data Attempt : Type 0 where
  mapped : (segment actual_size : ℕ) (created : Bool) → Attempt
  raised : (e : Error) (fd : Option ℕ) (created : Bool) → Attempt

-- from `os.fstat` on; `mmap.mmap` duplicates the descriptor
unfoldable pub map_segment : Weather → ℕ → ℕ → Bool → World → Attempt × World
map_segment weather size s created w =
    let actual_size = length (w.segment s) in
    let w₁ = weather.before_map w in
    if weather.stat_fault
    then (raised os_error (some s) created, w)
    else if ltb actual_size size
    then (raised value_error (some s) created, w)
    else elim weather.map_fault [
      | some e ↦ (raised e (some s) created, w₁)
      | none ↦ (mapped s actual_size created, dup_fd w₁)
    ]

-- the handler of the inner `FileNotFoundError`: the second `shm_open`, and `os.ftruncate`
unfoldable pub create_segment : Weather → Text → ℕ → World → Attempt × World
create_segment weather name size w =
    let (r, w') = shm_open_wrapped true weather.create_fault name (weather.between w) in
    elim r [
      | err e ↦ (raised e none false, w')
      | ok s ↦
          let w₁ = weather.behind_open w' in
          if weather.truncate_fault
          then (raised os_error (some s) false, w₁)
          else map_segment weather size s true (weather.before_stat (ftruncate s size w₁))
    ]

unfoldable pub try_attempt : Weather → Bool → Text → ℕ → World → Attempt × World
try_attempt weather attach_only name size w =
    let (r, w') = shm_open_wrapped false weather.attach_fault name (weather.before w) in
    elim r [
      | ok s ↦ map_segment weather size s false (weather.behind_open w')
      | err file_not_found_error ↦
          if attach_only
          then (raised no_shm_found_error none false, w')
          else create_segment weather name size w'
      | err e ↦ (raised e none false, w')
    ]

-- `except (FileNotFoundError, FileExistsError, ValueError)`
abbrev pub is_retried : Error → Bool
is_retried file_not_found_error = true
is_retried file_exists_error = true
is_retried value_error = true
is_retried _ = false

-- what both handlers do with `fd` and `created`
unfoldable pub discard : Weather → Text → Option ℕ → Bool → World → World
discard weather name none created w = w
discard weather name (some s) created w =
    let w₁ = close_fd (weather.before_discard w) in
    if created then (shm_unlink_wrapped weather.unlink_fault name w₁).1 else w₁

-- The loop over the attempts: the segment, its size and `created`.
pub data Found : Type 0 where
  found : (segment actual_size : ℕ) (created : Bool) → Found

-- what follows an attempt; `onward` makes the attempts that are left
abbrev pub after_attempt :
    Weather → Bool → Text → (World → Result Found × World) → Attempt × World → Result Found × World
after_attempt weather attach_only name onward (mapped s actual_size created, w) =
    (ok (found s actual_size created), w)
after_attempt weather attach_only name onward (raised e fd created, w) =
    if not (is_retried e) && attach_only
    then (err no_shm_found_error, w)
    else onward (discard weather name fd created w)

unfoldable pub find_segment : List Weather → Bool → Text → ℕ → World → Result Found × World
find_segment [] attach_only name size w = (err runtime_error, w)
find_segment (weather ∷ rest) attach_only name size w =
    after_attempt weather attach_only name (find_segment rest attach_only name size)
      (try_attempt weather attach_only name size w)

abbrev pub slash : ℕ
slash = b'/'

-- `"/" in name`
abbrev pub has_slash : Text → Bool
has_slash [] = false
has_slash (c ∷ s) = c == slash || has_slash s

-- `pid_root.rstrip('/')`
unfoldable pub rstrip_slash : Text → Text
rstrip_slash [] = []
rstrip_slash (c ∷ s) =
    let rest = rstrip_slash s in
    elim rest [ [] ↦ if c == slash then [] else c ∷ [] | d ∷ t ↦ c ∷ d ∷ t ]

-- `environ` is FASTIPC_PID_DIR, if it is set
unfoldable pub pid_directory : Option Text → Text → Text → Text
unfolding rstrip_slash
pid_directory environ pid_dir name =
    rstrip_slash (elim environ [ none ↦ pid_dir | some root ↦ root ])
    ++ (slash ∷ (name ++ codes ".pids"))

abbrev pub bad_arguments : Text → ℕ → Bool
bad_arguments name size = size == 0 || elim name [ [] ↦ true | c ∷ s ↦ has_slash (c ∷ s) ]

abbrev pub guarded : Text → ℕ → Text → Bool → Found → Guarded
guarded name pid path cleanup (found s actual_size created) = record {
  name = name;
  pid = pid;
  pid_dir = path;
  size = actual_size;
  fd = some s;
  mapping = some s;
  view = some s;
  created = created;
  closed = false;
  unlinked = false;
  try_cleanup_on_exit = cleanup;
  registered = cleanup;
}

-- The end of `__init__`: the pid file is made, and the object is there if that succeeds.
abbrev pub opened : Guarded → Result (Unit {0}) × World → Result Guarded × World
opened g (ok _, w) = (ok g, w)
opened g (err e, w) = (err e, w)

-- what follows the loop
abbrev pub register : ℕ → Text → Bool → Text → Result Found × World → Result Guarded × World
register pid path cleanup name (ok f, w) =
    opened (guarded name pid path cleanup f) (touch_pid path pid w)
register pid path cleanup name (err e, w) = (err e, w)

-- `__init__` with the path of the pid directory: `weather` has one entry for each of the
-- `max_attempts`.
unfoldable pub init :
    List Weather → ℕ → Text → Bool → Bool → Text → ℕ → World → Result Guarded × World
init weather pid path attach_only cleanup name size w =
    if bad_arguments name size
    then (err value_error, w)
    else register pid path cleanup name
        (find_segment weather attach_only name size (makedirs path w))
