-- ===== src/Queue/Tests.antt =====
-- A queue of src/fastipc/data/named_queue.py with 4 slots of 16 bytes.
use pyfastipc.Base.{
  ℕ, ◌≡◌, ◌⊎◌, refl, Bool, true, false, [], ◌∷◌, ok, err, value_error, file_exists_error, codes,
  arith,
}
use pyfastipc.Memory.{Mem, load}
use pyfastipc.Queue.Modes.{latest_cache, to_str, lower_char, lower, from_str}
use pyfastipc.Queue.Header.{queue_magic, queue_size, create_queue}
use pyfastipc.Queue.Created.{IsEmptyQueue, create_queue_lem}

reads_mode : from_str (codes "Latest_CACHE") ≡ ok latest_cache
unfolding from_str lower lower_char
reads_mode = refl

refuses_mode : from_str (codes "stack") ≡ err value_error
unfolding from_str lower lower_char
refuses_mode = refl

names_mode : to_str 2 ≡ codes "UNKNOWN"
unfolding to_str
names_mode = refl

asks_for : queue_size 4 16 2 ≡ 450
unfolding queue_size
asks_for = refl

abbrev dirty : Mem
dirty i = i

create_queue_lem_example :
    ((◌≡◌ {A = Bool} true true)
      × ((v : ℕ) × (m' : Mem) × (from_str (codes "queue") ≡ ok v)
          × (create_queue true 4 16 (7 ∷ 8 ∷ []) (codes "queue") dirty ≡ (ok tt, m'))
          × IsEmptyQueue 4 16 2 v m'))
    ⊎ ((◌≡◌ {A = Bool} true true)
        × ((m' : Mem) × (from_str (codes "queue") ≡ err value_error)
            × (create_queue true 4 16 (7 ∷ 8 ∷ []) (codes "queue") dirty ≡ (err value_error, m'))
            × (load 8 0 m' ≡ queue_magic)))
    ⊎ ((◌≡◌ {A = Bool} true false)
        × (create_queue true 4 16 (7 ∷ 8 ∷ []) (codes "queue") dirty
            ≡ (err file_exists_error, dirty)))
create_queue_lem_example =
    create_queue_lem 4 16 (7 ∷ 8 ∷ []) dirty (omega arith) (omega arith) (omega arith) true
      (codes "queue")
