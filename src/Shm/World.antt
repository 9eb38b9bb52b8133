-- ===== src/Shm/World.antt =====
-- What src/fastipc/guarded_shared_memory.py finds outside itself: the names of POSIX shared memory,
-- the segments, the directories of pid files and the descriptors of this process; and the calls that
-- it makes, as POSIX describes them. A call can also fail for a reason of its own, which the caller
-- of the model chooses (`fault`).
use native.Mathlib.Nat.{sub-zero}
use pyfastipc.Base.{
  text_eq, ℕ, zero, suc, ◌+◌, ◌-◌, ◌≡◌, refl, ==_iff, Bool, true, false, List, [], ◌∷◌, ◌++◌,
  Option, none, some, Result, ok, err, file_not_found_error, file_exists_error, os_error, ◌==◌,
  if◌then◌else◌, Text, length, take, replicate,
}

-- A table from names, changed at one name.
abbrev pub update {ℓ} : {A : Type ℓ} → Text → A → (Text → A) → Text → A
update key value table name = if text_eq name key then value else table name

-- A file in a directory of pid files: one that is named by a number, or another.
pub data Entry : Type 0 where
  pid_file : ℕ → Entry
  other_file : Text → Entry

pub record World : Type 0 where
  -- the segment that a name stands for, and the bytes of each segment
  pub shm : Text → Option ℕ
  pub segment : ℕ → List ℕ
  pub next_segment : ℕ
  -- the files of a directory, if it exists
  pub dirs : Text → Option (List Entry)
  -- how many descriptors this process has open
  pub open_fds : ℕ

-- `errno` after a failed call
pub data Errno : Type 0 where
  enoent eexist eperm other_errno : Errno

-- `shm_open(name, O_RDWR)`, and with `O_CREAT | O_EXCL`; a descriptor is known by its segment
unfoldable pub shm_open : Bool → Bool → Text → World → (Option ℕ × Errno) × World
shm_open create true name w = ((none, other_errno), w)
shm_open false false name w = elim (w.shm name) [
  | none ↦ ((none, enoent), w)
  | some s ↦ ((some s, other_errno), record w { open_fds = w.open_fds + 1 })
]
shm_open true false name w = elim (w.shm name) [
  | some s ↦ ((none, eexist), w)
  | none ↦ (
    (some w.next_segment, other_errno),
    record w {
      shm = update name (some w.next_segment) w.shm;
      segment = λ s. if s == w.next_segment then [] else w.segment s;
      next_segment = w.next_segment + 1;
      open_fds = w.open_fds + 1;
    },
  )
]

-- the exceptions of `_shm_open_wrapped`
abbrev pub raise_errno : Option ℕ × Errno → Result ℕ
raise_errno (some s, e) = ok s
raise_errno (none, enoent) = err file_not_found_error
raise_errno (none, eexist) = err file_exists_error
raise_errno (none, eperm) = err os_error
raise_errno (none, other_errno) = err os_error

unfoldable pub shm_open_wrapped : Bool → Bool → Text → World → Result ℕ × World
unfolding shm_open
shm_open_wrapped create fault name w =
    let (r, w') = shm_open create fault name w in (raise_errno r, w')

-- `_shm_unlink_wrapped`: a name that is not there is no error
unfoldable pub shm_unlink_wrapped : Bool → Text → World → Result (Unit {0}) × World
shm_unlink_wrapped true name w = (err os_error, w)
shm_unlink_wrapped false name w = (ok tt, record w { shm = update name none w.shm })

-- `os.ftruncate(fd, size)`
unfoldable pub ftruncate : ℕ → ℕ → World → World
ftruncate s size w = record w {
  segment = λ t.
      if t == s
      then take size (w.segment s) ++ replicate (size - length (w.segment s)) 0
      else w.segment t;
}

-- `os.close(fd)`
abbrev pub close_fd : World → World
close_fd w = record w { open_fds = w.open_fds - 1 }

-- what `mmap.mmap` does with the descriptor that it is given
abbrev pub dup_fd : World → World
dup_fd w = record w { open_fds = w.open_fds + 1 }

-- `os.makedirs(path, exist_ok=True)`
unfoldable pub makedirs : Text → World → World
makedirs path w = record w {
  dirs = update path (some (elim (w.dirs path) [ none ↦ [] | some fs ↦ fs ])) w.dirs;
}

-- `os.listdir(path)`, or nothing where the directory is missing
abbrev pub listdir : Text → World → List Entry
listdir path w = elim (w.dirs path) [ none ↦ [] | some fs ↦ fs ]

abbrev pub is_pid : ℕ → Entry → Bool
is_pid pid (pid_file n) = n == pid
is_pid pid (other_file _) = false

unfoldable pub has_pid : ℕ → List Entry → Bool
has_pid pid [] = false
has_pid pid (f ∷ fs) = if is_pid pid f then true else has_pid pid fs

unfoldable pub remove_pid : ℕ → List Entry → List Entry
remove_pid pid [] = []
remove_pid pid (f ∷ fs) = if is_pid pid f then remove_pid pid fs else f ∷ remove_pid pid fs

-- `open(f"{path}/{pid}", "w")`
unfoldable pub touch_pid : Text → ℕ → World → Result (Unit {0}) × World
unfolding has_pid
touch_pid path pid w = elim (w.dirs path) [
  | none ↦ (err file_not_found_error, w)
  | some fs ↦
      if has_pid pid fs
      then (ok tt, w)
      else (ok tt, record w { dirs = update path (some (pid_file pid ∷ fs)) w.dirs })
]

-- `os.unlink(f"{path}/{pid}")`; a missing file is passed over by both callers
unfoldable pub unlink_pid : Text → ℕ → World → World
unfolding remove_pid
unlink_pid path pid w = elim (w.dirs path) [
  | none ↦ w
  | some fs ↦ record w { dirs = update path (some (remove_pid pid fs)) w.dirs }
]

-- `os.rmdir(path)`, where the caller passes over a directory that is missing or not empty
unfoldable pub rmdir : Text → World → World
rmdir path w = elim (w.dirs path) [
  | none ↦ w
  | some fs ↦ elim fs [ [] ↦ record w { dirs = update path none w.dirs } | _ ∷ _ ↦ w ]
]

take-nil : (n : ℕ) → take {A = ℕ} n [] ≡ []
take-nil zero = refl
take-nil (suc n) = refl

-- A new segment is grown by zeros.
pub ftruncate-zeros :
    (s size : ℕ) (w : World) → w.segment s ≡ [] → (ftruncate s size w).segment s ≡ replicate size 0
unfolding ftruncate
ftruncate-zeros s size w h = rw ((==_iff s s).1 refl, h, take-nil size, sub-zero) refl
