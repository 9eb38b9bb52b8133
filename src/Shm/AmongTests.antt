-- ===== src/Shm/AmongTests.antt =====
-- Process 5 closes src/fastipc/guarded_shared_memory.py's object while process 8 does.
use pyfastipc.Base.{
  codes, ℕ, refl, ap, ◌∙◌, true, false, [], ◌∷◌, none, some, ◌==◌, if◌then◌else◌, Text, arith,
}
use pyfastipc.Shm.World.{World, pid_file, update, has_pid}
use pyfastipc.Shm.Open.{Guarded, guarded, found}
use pyfastipc.Shm.World.{enoent}
use pyfastipc.Shm.Close.{Killed, delivered, failed, close}
use pyfastipc.Shm.Leave.{close_keeps, IsLeft}
use pyfastipc.Shm.Among.{Kept, close_among, close_among_keeps}

abbrev name : Text
name = codes "x"

abbrev path : Text
path = codes "/p/x.pids"

-- The segment has four bytes, and the processes 5, 6, 7 and 8 are on the register, of which 6 is dead.
abbrev world : World
world = record {
  shm = update name (some 0) (λ _. none);
  segment = λ s. if s == 0 then 7 ∷ 7 ∷ 7 ∷ 7 ∷ [] else [];
  next_segment = 1;
  dirs = update path (some (pid_file 5 ∷ pid_file 6 ∷ pid_file 7 ∷ pid_file 8 ∷ [])) (λ _. none);
  open_fds = 3;
}

abbrev all_but_six : ℕ → Killed
all_but_six n = if n == 6 then failed enoent else delivered

abbrev five : Guarded
five = guarded name 5 path true (found 0 4 false)

abbrev eight : Guarded
eight = guarded name 8 path true (found 0 4 false)

-- Process 8 closes its object at every point, if it has not yet.
abbrev eight_closes : World → World
eight_closes v = (close all_but_six false eight v).1

eight_spares : (v : World) → Kept path name 7 0 v → Kept path name 7 0 (eight_closes v)
eight_spares v (listed, named) =
    let (same, still, _, _) =
      close_keeps all_but_six false eight v refl 7 (λ e. omega arith) listed refl in
    (still, ap (λ f. f name) same ∙ named)

close_among_keeps_example :
    let (g', w') = close_among (λ _. all_but_six) (λ _. eight_closes) false five world in
    Kept path name 7 0 w' × IsLeft five g'
unfolding has_pid
close_among_keeps_example =
    close_among_keeps (λ _. all_but_six) (λ _. eight_closes) false five 7 0 world refl
      (λ e. omega arith) (λ a. refl) (λ a v k. eight_spares v k) (refl, refl)
