-- ===== src/History/NamedTests.antt =====
-- The processes 5 and 9 share a buffer of src/fastipc/data/named_history_buffer.py by its name.
use pyfastipc.Base.{
  ℕ, ◌≡◌, ◌<◌, ◌^◌, refl, false, true, List, [], ◌∷◌, none, some, ok, Text, codes, arith,
}
use pyfastipc.Memory.{bytewise_copy}
use pyfastipc.Shm.World.{World}
use pyfastipc.Shm.Open.{quiet, found, guarded}
use pyfastipc.History.Header.{meta_space}
use pyfastipc.History.Buffer.{Writer, shm_size, get_latest}
use pyfastipc.History.Log.{Models}
use pyfastipc.History.Named.{mapping_of, buffer_name, create_named, open_named, publish_named}
use pyfastipc.History.Shared.{shared_by_name}

abbrev nothing : World
nothing = record {
  shm = λ _. none;
  segment = λ _. [];
  next_segment = 0;
  dirs = λ _. none;
  open_fds = 0;
}

abbrev b : Text
b = codes "b"

abbrev path : Text
path = codes "/p/b.pids"

abbrev meta : List ℕ
meta = 1 ∷ 2 ∷ []

abbrev by_five : List (Writer × List ℕ)
by_five =
    (
      record { pid = 5; realtime = 10; started = 11; ended = 12; turns = []; copy = bytewise_copy },
      7 ∷ 8 ∷ [],
    )
    ∷ []

abbrev by_nine : List (Writer × List ℕ)
by_nine =
    (
      record { pid = 9; realtime = 20; started = 21; ended = 22; turns = []; copy = bytewise_copy },
      9 ∷ [],
    )
    ∷ []

size_small : shm_size 2 3 meta < 2 ^ 63
unfolding shm_size meta_space
size_small = omega arith

shared_by_name_example :
    let size = shm_size 2 3 meta in
    let g = guarded (buffer_name b) 5 path false (found 0 size true) in
    let g' = guarded (buffer_name b) 9 path false (found 0 size false) in
    (w₁ w₂ w₃ w₄ : World) × (create_named (quiet ∷ []) 5 path b 2 3 meta nothing ≡ (ok g, w₁))
    × (publish_named g by_five w₁ ≡ some (ok tt, w₂))
    × (open_named (quiet ∷ []) (quiet ∷ []) 9 path b w₂ ≡ (ok g', w₃))
    × (publish_named g' by_nine w₃ ≡ some (ok tt, w₄))
    × Models size 2 3 ((9 ∷ []) ∷ (7 ∷ 8 ∷ []) ∷ []) (mapping_of 0 w₄)
    × (get_latest size (mapping_of 0 w₄) ≡ ok (9 ∷ []))
shared_by_name_example =
    shared_by_name b 2 3 meta nothing (omega arith) size_small refl refl 5 9 path path by_five
      by_nine ((omega arith, omega arith, omega arith), tt)
      ((omega arith, omega arith, omega arith), tt) (omega arith)
