-- ===== src/History/RaceTests.antt =====
-- Readers of src/fastipc/data/named_history_buffer.py while process 5 publishes.
use pyfastipc.Base.{ℕ, ◌≡◌, ◌≢◌, refl, List, [], ◌∷◌, ◌++◌, ok, take, drop, arith}
use pyfastipc.Memory.{bytewise_copy, Mem, get, put, to_bytes, of_bytes, store, Write, replay}
use pyfastipc.History.Header.{history_magic, meta_space, calc_slot_offset, slot_of}
use pyfastipc.History.Buffer.{Writer, get_latest}
use pyfastipc.History.Log.{Models, newest, log_after}
use pyfastipc.History.Accesses.{publish_writes, all_writes}
use pyfastipc.History.Racing.{get_latest_racing, seen}
use pyfastipc.History.Untorn.{read_untorn}
use pyfastipc.History.Torn.{first_writes, torn_read}

abbrev writer : Writer
writer = record {
  pid = 5;
  realtime = 10;
  started = 11;
  ended = 12;
  turns = [];
  copy = bytewise_copy;
}

-- One message of two bytes, in a buffer of `n` slots of three bytes.
abbrev one_message : ℕ → Mem
one_message n =
    put 192 (7 ∷ 8 ∷ []) (
      store 8 128 2 (store 8 32 1 (store 8 24 3 (store 8 16 n (store 8 0 history_magic (λ _. 0))))))

one_slot : Models 259 1 3 ((7 ∷ 8 ∷ []) ∷ []) (one_message 1)
unfolding get put to_bytes of_bytes get_latest meta_space calc_slot_offset slot_of
one_slot = record {
  ready = record {
    free = record { unlocked = refl; unowned = refl };
    slots = refl;
    room = refl;
    next = refl;
  };
  logged = (λ _. (omega arith, refl, refl), tt);
  latest = refl;
  marked = refl;
  complete = omega arith;
}

two_slots : Models 326 2 3 ((7 ∷ 8 ∷ []) ∷ []) (one_message 2)
unfolding get put to_bytes of_bytes get_latest meta_space calc_slot_offset slot_of
two_slots = record {
  ready = record {
    free = record { unlocked = refl; unowned = refl };
    slots = refl;
    room = refl;
    next = refl;
  };
  logged = (λ _. (omega arith, refl, refl), tt);
  latest = refl;
  marked = refl;
  complete = omega arith;
}

abbrev call : List (Writer × List ℕ)
call = (writer, 1 ∷ 2 ∷ 3 ∷ []) ∷ []

-- The reader begins while the writer is inside the payload.
abbrev begun : List Write
begun = take 6 (publish_writes 2 3 1 writer (1 ∷ 2 ∷ 3 ∷ []))

abbrev to_come : List Write
to_come = drop 6 (publish_writes 2 3 1 writer (1 ∷ 2 ∷ 3 ∷ []))

begun-to_come : all_writes 2 3 1 call ≡ begun ++ to_come
unfolding all_writes
begun-to_come = refl

read_untorn_example :
    (get_latest_racing 326 (seen (replay begun (one_message 2)) to_come (λ i. i))
      ≡ get_latest 326 (replay begun (one_message 2)))
    × ((j : ℕ) × (get_latest 326 (replay begun (one_message 2))
          ≡ newest (log_after (take j call) ((7 ∷ 8 ∷ []) ∷ []))))
read_untorn_example =
    read_untorn 326 2 3 (omega arith) (omega arith) (omega arith) call ((7 ∷ 8 ∷ []) ∷ [])
      (omega arith) (omega arith) (one_message 2) begun to_come (λ i. i) two_slots
      ((omega arith, omega arith, omega arith), tt) begun-to_come

seven_one : ◌≡◌ {A = List ℕ} (7 ∷ []) (1 ∷ []) → ⊥
seven_one e = let same : ◌≡◌ {A = ℕ} 7 1 = cc in omega arith

torn_read_example :
    let seen = get_latest 259 (replay (first_writes writer (1 ∷ [])) (one_message 1)) in
    ((rest : List Write) × (publish_writes 1 3 1 writer (1 ∷ [])
        ≡ first_writes writer (1 ∷ []) ++ rest))
    × (seen ≡ ok (7 ∷ []))
    × (seen ≢ ok (7 ∷ 8 ∷ []))
    × (seen ≢ ok (1 ∷ []))
torn_read_example =
    torn_read 259 3 (omega arith) (omega arith) writer (1 ∷ []) (7 ∷ 8 ∷ []) [] (one_message 1)
      (omega arith) (omega arith) one_slot (λ e. seven_one e)
