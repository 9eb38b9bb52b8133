-- ===== src/History/Named.antt =====
-- `NamedHistoryBuffer.create`, `publish` and `__init__` of src/fastipc/data/named_history_buffer.py on the
-- segments of src/fastipc/guarded_shared_memory.py. The objects are made with `try_cleanup_on_exit=False`,
-- so that `__del__` of one that is given up does nothing.
use pyfastipc.Base.{
  ℕ, zero, suc, true, false, not, List, [], ◌∷◌, ◌++◌, Option, none, some, Result, ok, err,
  value_error, ◌==◌, if◌then◌else◌, Text, codes,
}
use pyfastipc.Memory.{Mem, get}
use pyfastipc.Shm.World.{World}
use pyfastipc.Shm.Open.{Weather, Guarded, init}
use pyfastipc.Shm.Close.{detach}
use pyfastipc.History.Header.{header_size, magic, history_magic, calc_total_size}
use pyfastipc.History.Buffer.{Writer, create, attach, shm_size}
use pyfastipc.History.Log.{publish_all}

-- the byte at a place of a segment
abbrev pub byte_at : List ℕ → ℕ → ℕ
byte_at [] i = 0
byte_at (b ∷ bs) zero = b
byte_at (b ∷ bs) (suc i) = byte_at bs i

-- a mapping of the segment `s`, and the segment behind a mapping that was written
abbrev pub mapping_of : ℕ → World → Mem
mapping_of s w = byte_at (w.segment s)

abbrev pub write_back : ℕ → ℕ → Mem → World → World
write_back s size m w = record w { segment = λ t. if t == s then get 0 size m else w.segment t }

abbrev pub buffer_name : Text → Text
buffer_name name = codes "__pyfastipc_history_buffer_" ++ name

-- the object, if what was done on its mapping succeeded
abbrev pub kept : Guarded → ℕ → Result (Unit {0}) × Mem → World → Result Guarded × World
kept g s (ok _, m) w = (ok g, write_back s g.size m w)
kept g s (err e, m) w = (err e, write_back s g.size m w)

-- what `create` does once it has its segment
abbrev pub create_in : ℕ → ℕ → List ℕ → Result Guarded × World → Result Guarded × World
create_in slots slot_len meta_encoded (err e, w) = (err e, w)
create_in slots slot_len meta_encoded (ok g, w) = elim g.view [
  | none ↦ (err value_error, w)
  | some s ↦ kept g s (create slots slot_len meta_encoded g.size (mapping_of s w)) w
]

unfoldable pub create_named :
    List Weather → ℕ → Text → Text → ℕ → ℕ → List ℕ → World → Result Guarded × World
create_named weather pid path name slots slot_len meta_encoded w =
    create_in slots slot_len meta_encoded (
      init weather pid path false false (buffer_name name) (shm_size slots slot_len meta_encoded) w)

-- `_attach`
abbrev pub attach_to : Result Guarded × World → Result Guarded × World
attach_to (err e, w) = (err e, w)
attach_to (ok g, w) = elim g.view [
  | none ↦ (err value_error, w)
  | some s ↦ kept g s (attach (mapping_of s w)) w
]

-- what `__init__` does once it has attached to the header: the second attachment, to the whole buffer
abbrev pub open_whole :
    List Weather → ℕ → Text → Text → Result Guarded × World → Result Guarded × World
open_whole weather pid path name (err e, w) = (err e, w)
open_whole weather pid path name (ok g, w) = elim g.view [
  | none ↦ (err value_error, w)
  | some s ↦
      if not (magic (mapping_of s w) == history_magic)
      then (err value_error, w)
      else attach_to (
          init weather pid path true false (buffer_name name) (calc_total_size (mapping_of s w))
            (detach g w).1)
]

-- `__init__` by name
unfoldable pub open_named :
    List Weather → List Weather → ℕ → Text → Text → World → Result Guarded × World
open_named weather again pid path name w =
    open_whole again pid path name
      (init weather pid path true false (buffer_name name) header_size w)

-- Calls of `publish` on an open buffer.
abbrev pub published :
    Guarded → ℕ → Option (Result (Unit {0}) × Mem) → World → Option (Result (Unit {0}) × World)
published g s none w = none
published g s (some (r, m)) w = some (r, write_back s g.size m w)

unfoldable pub publish_named :
    Guarded → List (Writer × List ℕ) → World → Option (Result (Unit {0}) × World)
publish_named g calls w = elim g.view [
  | none ↦ some (err value_error, w)
  | some s ↦ published g s (publish_all g.size calls (mapping_of s w)) w
]
