-- ===== src/History/Tests.antt =====
-- Runs of the history buffer of src/fastipc/data/named_history_buffer.py, and its theorems at a small
-- one.
use pyfastipc.Base.{
  ℕ, ◌≡◌, ◌-◌, ◌^◌, refl, List, [], ◌∷◌, some, Result, ok, err, value_error, take, All, arith,
}
use pyfastipc.Memory.{bytewise_copy, Mem, get, put, to_bytes, of_bytes, store}
use pyfastipc.Primitives.Cycle.{Free}
use pyfastipc.History.Header.{
  calc_slot_offset, calc_total_size, meta_space, slot_of, validate_magic,
}
use pyfastipc.History.Buffer.{Writer, publish, get_meta, create, shm_size}
use pyfastipc.History.Publish.{Ready, Published, publish-Published}
use pyfastipc.History.Release.{publish-Free}
use pyfastipc.History.Log.{Models, IsCall, publish_all}
use pyfastipc.History.Meta.{create-publish-get_meta}
use mathlib.Core.Option.{none}
use pyfastipc.Base.Results.{no_shm_found_error}
use pyfastipc.History.Buffer.{get_latest, open_existing}
use pyfastipc.History.Session.{create-publish_all}

abbrev writer : Writer
writer = record {
  pid = 5;
  realtime = 10;
  started = 11;
  ended = 12;
  turns = [];
  copy = bytewise_copy;
}

-- Two slots of three bytes each, and ten bytes of metadata.
abbrev meta_ten : List ℕ
meta_ten = 1 ∷ 2 ∷ 3 ∷ 4 ∷ 5 ∷ 6 ∷ 7 ∷ 8 ∷ 9 ∷ 10 ∷ []

abbrev zeros : Mem
zeros _ = 0

-- The header alone: two slots of three bytes.
abbrev plain : Mem
plain = store 8 24 3 (store 8 16 2 zeros)

abbrev two_bytes : List ℕ
two_bytes = 7 ∷ 8 ∷ []

asked : shm_size 2 3 meta_ten ≡ 326
unfolding shm_size meta_space
asked = refl

negative : slot_of (2 ^ 64 - 1) 0 3 ≡ ok 2
unfolding slot_of
negative = refl

second_place : calc_slot_offset 1 plain ≡ 195
unfolding calc_slot_offset get put to_bytes of_bytes
second_place = refl

total : calc_total_size plain ≡ 326
unfolding calc_total_size meta_space get put to_bytes of_bytes
total = refl

no_magic : validate_magic plain ≡ err value_error
unfolding validate_magic get put to_bytes of_bytes
no_magic = refl

plain-Ready : Ready 2 3 0 plain
unfolding get put to_bytes of_bytes
plain-Ready = record {
  free = record { unlocked = refl; unowned = refl };
  slots = refl;
  room = refl;
  next = refl;
}

publish-Published_example :
    (m' : Mem) × (publish 326 writer two_bytes plain ≡ some (ok tt, m'))
    × Published 326 2 3 0
        (omega arith)
        (omega arith)
        (omega arith)
        (omega arith)
        writer
        two_bytes
        (omega arith)
        plain
        m'
publish-Published_example =
    publish-Published 326 2 3 0 (omega arith) (omega arith) (omega arith) (omega arith) writer
      two_bytes (omega arith) plain plain-Ready (omega arith) (omega arith)

zeros-Free : Free 64 zeros
unfolding get of_bytes
zeros-Free = record { unlocked = refl; unowned = refl }

-- A header of zeros: there is no slot, and `publish` raises.
publish-Free_example :
    (r : Result (Unit {0})) × (m' : Mem) × (publish 326 writer [] zeros ≡ some (r, m')) × Free 64 m'
publish-Free_example = publish-Free 326 writer [] zeros zeros-Free (omega arith) (omega arith)

create-publish-get_meta_example :
    (m₁ : Mem) × (create 2 3 meta_ten 326 zeros ≡ (ok tt, m₁))
    × (get_meta 326 m₁ ≡ meta_ten)
    × ((m₂ : Mem) × (publish 326 writer two_bytes m₁ ≡ some (ok tt, m₂))
        × (of_bytes (take 8 (get_meta 326 m₂)) ≡ 2))
create-publish-get_meta_example =
    create-publish-get_meta 326 2 3 meta_ten two_bytes writer zeros (omega arith) (omega arith)
      (omega arith) (omega arith) (omega arith) (omega arith) (omega arith) (omega arith)
      (omega arith) (omega arith)

abbrev three_calls : List (Writer × List ℕ)
three_calls = (writer, two_bytes) ∷ (writer, []) ∷ (writer, 1 ∷ 2 ∷ 3 ∷ []) ∷ []

calls-IsCall : All (IsCall 3) three_calls
calls-IsCall = (
  (omega arith, omega arith, omega arith),
  ((omega arith, omega arith, omega arith), ((omega arith, omega arith, omega arith), tt)),
)

create-publish_all_example :
    (m₁ : Mem) × (create 2 3 meta_ten 326 zeros ≡ (ok tt, m₁))
    × ((m₂ : Mem) × (publish_all 326 three_calls m₁ ≡ some (ok tt, m₂))
        × Models 326 2 3 ((1 ∷ 2 ∷ 3 ∷ []) ∷ [] ∷ two_bytes ∷ []) m₂)
unfolding shm_size meta_space
create-publish_all_example =
    create-publish_all 2 3 meta_ten 326 zeros (omega arith) (omega arith) (omega arith) three_calls
      calls-IsCall (omega arith)

abbrev marked_plain : Mem
marked_plain = store 8 0 1346783298 plain

marked-Models : Models 326 2 3 [] marked_plain
unfolding get put to_bytes of_bytes get_latest meta_space
marked-Models = record {
  ready = record {
    free = record { unlocked = refl; unowned = refl };
    slots = refl;
    room = refl;
    next = refl;
  };
  logged = tt;
  latest = refl;
  marked = refl;
  complete = omega arith;
}

nothing_there : (open_existing none).0 ≡ err no_shm_found_error
unfolding open_existing
nothing_there = refl
