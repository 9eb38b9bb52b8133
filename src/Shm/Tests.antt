-- ===== src/Shm/Tests.antt =====
-- Runs of the model of src/fastipc/guarded_shared_memory.py, and its theorems at a small world.
use pyfastipc.Base.{
  Option, Bool, length, text_eq, ℕ, ◌≡◌, ◌≢◌, refl, true, false, [], ◌∷◌, none, some, ok, err,
  runtime_error, os_error, ◌⊎◌, ◌==◌, if◌then◌else◌, Text, codes, arith,
}
use pyfastipc.Shm.World.{
  World, pid_file, update, shm_open, shm_open_wrapped, makedirs, listdir, has_pid, remove_pid,
  unlink_pid, enoent,
}
use pyfastipc.Shm.Open.{
  Weather, quiet, Guarded, found, map_segment, create_segment, try_attempt, discard, find_segment,
  rstrip_slash, pid_directory, guarded, init,
}
use pyfastipc.Shm.Close.{
  has_other_alive_pids, any_other_alive, Killed, delivered, failed, alive, remove_dead,
  cleanup_dead_pids, get_num_procs, close, construct,
}
use pyfastipc.Shm.Library.{is_in, candidates, first_with_both, load_posix_shm_lib}
use pyfastipc.Shm.Overtaken.{leave_overtaken, overtaken_unlinks}
use pyfastipc.Shm.Attempts.{IsPolite, IsFair, Settled, find_segment-Settled}
use pyfastipc.Shm.Quiet.{Registered, init_attaches}
use pyfastipc.Shm.Leave.{IsLeft, close_keeps}
use pyfastipc.Shm.LastLeave.{HasOther, close_removes}
use pyfastipc.Shm.Refused.{construct_removes}

abbrev x_name : Text
x_name = codes "x"

abbrev y_name : Text
y_name = codes "y"

abbrev path : Text
path = codes "/p/x.pids"

-- The segment `x` of four bytes, on whose register the processes 5, 6 and 7 are.
abbrev world : World
world = record {
  shm = update x_name (some 0) (λ _. none);
  segment = λ s. if s == 0 then 7 ∷ 7 ∷ 7 ∷ 7 ∷ [] else [];
  next_segment = 1;
  dirs = update path (some (pid_file 5 ∷ pid_file 6 ∷ pid_file 7 ∷ [])) (λ _. none);
  open_fds = 3;
}

-- Nobody is alive but 5 and 7; or only 5.
abbrev two_alive : ℕ → Killed
two_alive n = if n == 5 then delivered else if n == 7 then delivered else failed enoent

abbrev one_alive : ℕ → Killed
one_alive n = if n == 5 then delivered else failed enoent

abbrev five : Guarded
five = guarded x_name 5 path true (found 0 4 false)

-- A first attempt at which the name disappears, and with it the segment that was to be grown.
abbrev stormy : Weather
stormy = record quiet { before = λ w. record w { shm = λ _. none }; truncate_fault = true }

pid_directory_set :
    pid_directory (some (codes "/a//")) (codes "/dev/shm") x_name ≡ codes "/a/x.pids"
unfolding pid_directory rstrip_slash
pid_directory_set = refl

open_small : (init (quiet ∷ quiet ∷ []) 5 path false true x_name 9 world).0 ≡ err runtime_error
unfolding init find_segment try_attempt shm_open_wrapped shm_open map_segment discard makedirs
open_small = refl

open_stormy : (find_segment (stormy ∷ []) false x_name 2 world).1.open_fds ≡ 3
unfolding find_segment try_attempt shm_open_wrapped shm_open create_segment discard
open_stormy = refl

cleaned : get_num_procs five (cleanup_dead_pids two_alive five world) ≡ 2
unfolding get_num_procs cleanup_dead_pids remove_dead unlink_pid remove_pid
cleaned = refl

-- An attempt in which the name disappears as soon as the segment is open, and again before the mapping.
abbrev unlisted_name : World → World
unlisted_name w = record w { shm = λ _. none }

abbrev rough : Weather
rough = record quiet {
  behind_open = unlisted_name;
  before_map = unlisted_name;
  map_fault = some os_error;
}

idle-IsPolite : (kind : Bool) → IsPolite kind (λ w. w)
idle-IsPolite kind = record {
  fds = λ w. refl;
  grows = λ w s. omega arith;
  numbers = λ w. omega arith;
  spares = λ k w t s e. e;
}

unlisted_name-IsPolite : IsPolite false unlisted_name
unlisted_name-IsPolite = record {
  fds = λ w. refl;
  grows = λ w s. omega arith;
  numbers = λ w. omega arith;
  spares = λ k w t s e. absurd cc;
}

rough-IsFair : IsFair false rough
rough-IsFair = record {
  before = idle-IsPolite false;
  between = idle-IsPolite false;
  behind_open = unlisted_name-IsPolite;
  before_stat = idle-IsPolite false;
  before_map = unlisted_name-IsPolite;
  before_discard = idle-IsPolite false;
}

quiet-IsFair : IsFair false quiet
quiet-IsFair = record {
  before = idle-IsPolite false;
  between = idle-IsPolite false;
  behind_open = idle-IsPolite false;
  before_stat = idle-IsPolite false;
  before_map = idle-IsPolite false;
  before_discard = idle-IsPolite false;
}

find_segment-Settled_example :
    Settled false x_name 1 2 3 (find_segment (rough ∷ quiet ∷ []) false x_name 2 world)
find_segment-Settled_example =
    find_segment-Settled false (rough ∷ quiet ∷ []) x_name 2 world
      (rough-IsFair, (quiet-IsFair, tt))

init_attaches_example :
    (w' : World) × (init (quiet ∷ []) 8 path true true x_name 3 world
      ≡ (ok (guarded x_name 8 path true (found 0 4 false)), w'))
    × Registered path 8 (record world { open_fds = 5 }) w'
init_attaches_example = init_attaches [] 8 path true true x_name 3 world refl 0 refl (omega arith)

close_keeps_example :
    let (g', w') = close two_alive false five world in
    (w'.shm ≡ world.shm)
    × (has_pid 7 (listdir path w') ≡ true)
    × (has_pid 5 (listdir path w') ≡ false)
    × IsLeft five g'
unfolding has_pid
close_keeps_example = close_keeps two_alive false five world refl 7 (omega arith) refl refl

only_five : (n : ℕ) → n ≢ 5 → has_pid n (listdir path world) ≡ true → alive (one_alive n) ≡ false
only_five n ne h = ground arith

close_removes_example :
    let (g', w') = close one_alive false five world in
    (w'.shm x_name ≡ none)
    × ((t : Text) → text_eq t x_name ≡ false → w'.shm t ≡ world.shm t)
    × (HasOther (listdir path world) ⊎ (w'.dirs path ≡ none))
    × IsLeft five g'
close_removes_example = close_removes one_alive five world refl refl only_five

construct_removes_example :
    let (r, w') = construct one_alive false (quiet ∷ quiet ∷ []) 5 path false true x_name 9 world in
    (r ≡ err runtime_error) × (w'.shm x_name ≡ none)
construct_removes_example =
    construct_removes one_alive 2 5 path false x_name 9 0 world refl refl (omega arith) only_five

-- Libraries known by numbers: the program is 0, and the two files are 1 and 2.
abbrev library : Option Text → Option ℕ
library none = some 0
library (some file) = some (length file)

abbrev library_file : Text → Option Text
library_file file = some file

-- Only `librt` has the functions.
abbrev only_rt : ℕ → Text → Bool
only_rt lib function = lib == 2

finds_rt : load_posix_shm_lib ℕ library library_file ◌==◌ only_rt ≡ ok 2
unfolding load_posix_shm_lib candidates first_with_both is_in
finds_rt = refl

-- Process 5 leaves as the last one on the register; process 9 attaches before it unlinks.
abbrev emptied : World
emptied = record world { dirs = update path (some []) (λ _. none) }

nobody_else : has_other_alive_pids one_alive five emptied ≡ false
unfolding has_other_alive_pids any_other_alive
nobody_else = refl

overtaken_unlinks_example :
    let others : World → World = λ v. (init (quiet ∷ []) 9 path true true x_name 3 v).1 in
    let w' = (leave_overtaken one_alive false five others emptied).1 in
    ((init (quiet ∷ []) 9 path true true x_name 3 emptied).0
      ≡ ok (guarded x_name 9 path true (found 0 4 false)))
    × (has_pid 9 (listdir path w') ≡ true)
    × (w'.segment 0 ≡ 7 ∷ 7 ∷ 7 ∷ 7 ∷ [])
    × (w'.shm x_name ≡ none)
overtaken_unlinks_example =
    overtaken_unlinks one_alive five 9 3 0 true true emptied nobody_else refl refl refl
      (omega arith)
