-- ===== src/History/TrafficTests.antt =====
-- Processes 5 and 6 publish to one buffer of src/fastipc/data/named_history_buffer.py.
use pyfastipc.Base.{some, zero, suc, ◌+◌, ◌≤◌, length, ℕ, ◌≡◌, refl, true, List, [], ◌∷◌, ok, arith}
use pyfastipc.Memory.{bytewise_copy, Mem, get, put, to_bytes, of_bytes, store, Write, perform}
use pyfastipc.Primitives.Interleaved.{idle, Choice, acquire, advance, move}
use pyfastipc.History.Header.{history_magic, msg_idx_bits, meta_space, calc_slot_offset, slot_of}
use pyfastipc.History.Buffer.{publish, Writer, get_latest}
use pyfastipc.History.Log.{Models, Logged}
use pyfastipc.History.Accesses.{field_write, count_write}
use pyfastipc.History.Writers.{
  Job, outside, calling, reading, filling, counting, adding, leaving, Traffic, put_job, locks,
  fetch, Goes, here, next, calls, waits, enters, reads, stores, filled, loads, counts,
  quiet_traffic,
}
use pyfastipc.History.Racing.{get_latest_racing}
use pyfastipc.History.Crowd.{read_among}
use pyfastipc.History.Refined.{Beyond, publish-Goes}
use pyfastipc.History.Serial.{in_body}
use pyfastipc.History.Publishers.{publishers_serial}

abbrev writer : Writer
writer = record {
  pid = 5;
  realtime = 10;
  started = 11;
  ended = 12;
  turns = [];
  copy = bytewise_copy;
}

-- One message of one byte, in a buffer of two slots of one byte.
abbrev one_message : Mem
one_message =
    put 192 (7 ∷ []) (
      store 8 128 1 (store 8 32 1 (store 8 24 1 (store 8 16 2 (store 8 0 history_magic (λ _. 0))))))

one_message-Models : Models 322 2 1 ((7 ∷ []) ∷ []) one_message
unfolding get put to_bytes of_bytes get_latest meta_space calc_slot_offset slot_of
one_message-Models = record {
  ready = record {
    free = record { unlocked = refl; unowned = refl };
    slots = refl;
    room = refl;
    next = refl;
  };
  logged = (λ _. (omega arith, refl, refl), tt);
  latest = refl;
  marked = refl;
  complete = omega arith;
}

abbrev to_lock : ℕ → Choice → Traffic → Traffic
to_lock p c s = record s { lock = locks p c s }

abbrev to_job : ℕ → Job → Traffic → Traffic
to_job p x s = record s { job = put_job p x s.job }

-- Process 5 is behind `acquire`, and 6 before its first exchange.
abbrev called : Traffic
called = to_job 6 (calling writer (9 ∷ [])) (
    to_lock 6 acquire (
      to_job 5 (reading writer (8 ∷ [])) (
        to_lock 5 (advance 10) (
          to_lock 5 (advance 10) (
            to_lock 5 (advance 10) (
              to_job 5 (calling writer (8 ∷ []))
                (to_lock 5 acquire (quiet_traffic ((7 ∷ []) ∷ []) one_message))))))))

called-Goes : Goes 322 (quiet_traffic ((7 ∷ []) ∷ []) one_message) called
unfolding move get put to_bytes of_bytes
called-Goes =
    next
      (next
        (next
          (next
            (next (next here (calls 5 writer (8 ∷ []) (omega arith) refl refl refl))
              (waits 5 (advance 10) writer (8 ∷ []) (omega arith) refl refl refl))
            (waits 5 (advance 10) writer (8 ∷ []) (omega arith) refl refl refl))
          (waits 5 (advance 10) writer (8 ∷ []) (omega arith) refl refl refl))
        (enters 5 writer (8 ∷ []) refl refl refl))
      (calls 6 writer (9 ∷ []) (omega arith) refl refl refl)

-- Process 5 stores `w`, with the stores `left` to come.
abbrev to_mem : Write → List Write → Traffic → Traffic
to_mem w left s = record s {
  job = put_job 5 (filling (8 ∷ []) left true) s.job;
  mem = perform w s.mem;
}

abbrev size_write : Write
size_write = field_write 8 193 1

abbrev start_write : Write
start_write = field_write 8 201 11

abbrev byte_write : Write
byte_write = record { place = 257; bytes = 8 ∷ [] }

abbrev end_write : Write
end_write = field_write 8 209 12

-- Process 5 has written its message; 6 found the mutex taken.
abbrev written : Traffic
written = to_mem end_write [] (
    to_mem byte_write (end_write ∷ []) (
      to_mem start_write (byte_write ∷ end_write ∷ []) (
        to_mem size_write (start_write ∷ byte_write ∷ end_write ∷ [])
          (to_job 5 (fetch 322 writer (8 ∷ []) called.mem) (to_lock 6 (advance 10) called)))))

fetched :
    fetch 322 writer (8 ∷ []) called.mem
    ≡ filling (8 ∷ []) (size_write ∷ start_write ∷ byte_write ∷ end_write ∷ []) true
unfolding fetch get put to_bytes of_bytes calc_slot_offset slot_of
fetched = refl

called-written : Goes 322 called written
unfolding move
called-written =
    next
      (next
        (next
          (next
            (next (next here (waits 6 (advance 10) writer (9 ∷ []) (omega arith) refl refl refl))
              (reads 5 writer (8 ∷ []) refl refl))
            (stores 5 (8 ∷ []) size_write (start_write ∷ byte_write ∷ end_write ∷ []) true fetched
              refl))
          (stores 5 (8 ∷ []) start_write (byte_write ∷ end_write ∷ []) true refl refl))
        (stores 5 (8 ∷ []) byte_write (end_write ∷ []) true refl refl))
      (stores 5 (8 ∷ []) end_write [] true refl refl)

Goes-trans : {s t u : Traffic} → Goes 322 s t → Goes 322 t u → Goes 322 s u
Goes-trans g here = g
Goes-trans g (next h deed) = next (Goes-trans g h) deed

written-Goes : Goes 322 (quiet_traffic ((7 ∷ []) ∷ []) one_message) written
written-Goes = Goes-trans called-Goes called-written

-- Process 5 has counted its message.
abbrev counted : Traffic
counted =
    let s =
      to_job 5 (adding (8 ∷ []) (msg_idx_bits written.mem))
        (to_job 5 (counting (8 ∷ [])) written) in
    record s {
      job = put_job 5 leaving s.job;
      mem = perform (count_write (msg_idx_bits written.mem)) s.mem;
      log = (8 ∷ []) ∷ s.log;
    }

counted-Goes : Goes 322 (quiet_traffic ((7 ∷ []) ∷ []) one_message) counted
counted-Goes =
    next (next (next written-Goes (filled 5 (8 ∷ []) true refl refl)) (loads 5 (8 ∷ []) refl refl))
      (counts 5 (8 ∷ []) (msg_idx_bits written.mem) refl refl)

publishers_serial_example :
    ((p q : ℕ) → in_body (counted.job p) ≡ true → in_body (counted.job q) ≡ true → p ≡ q)
    × (msg_idx_bits counted.mem ≡ 2)
    × (get_latest 322 counted.mem ≡ ok (8 ∷ []))
    × Logged 2 1 3 ((8 ∷ []) ∷ (7 ∷ []) ∷ []) counted.mem
publishers_serial_example =
    publishers_serial 322 2 1 (omega arith) (omega arith) (omega arith) ((7 ∷ []) ∷ []) one_message
      (omega arith) one_message-Models counted-Goes (omega arith)

-- A reader that begins before process 5 stores its message, and goes on when it is in its slot.
abbrev mems : ℕ → Mem
mems zero = called.mem
mems (suc i) = written.mem

at_points :
    (i : ℕ)
    → (t : Traffic) × Goes 322 called t
      × (mems i ≡ t.mem)
      × (length t.log + 2 ≤ length called.log + 2)
at_points zero = (called, here, refl, omega arith)
at_points (suc i) = (written, called-written, refl, omega arith)

read_among_example :
    (get_latest_racing 322 mems ≡ ok (7 ∷ [])) × (get_latest 322 called.mem ≡ ok (7 ∷ []))
read_among_example =
    read_among 322 2 1 (omega arith) (omega arith) (omega arith) ((7 ∷ []) ∷ []) one_message mems
      one_message-Models called-Goes refl at_points (omega arith)

publish-Goes_example :
    (m' : Mem) × (publish 322 writer (8 ∷ []) one_message ≡ some (ok tt, m'))
    × ((s : Traffic) × Goes 322 (quiet_traffic ((7 ∷ []) ∷ []) one_message) s
        × ((q : ℕ) → (s.job q ≡ outside) × (s.lock.pc q ≡ idle))
        × (s.lock.words ≡ record { word = 0; owner = 0; last = 10 })
        × (s.log ≡ (8 ∷ []) ∷ (7 ∷ []) ∷ [])
        × ((x : ℕ) → Beyond x → s.mem x ≡ m' x))
publish-Goes_example =
    publish-Goes 322 2 1 (omega arith) (omega arith) (omega arith) writer (8 ∷ []) ((7 ∷ []) ∷ [])
      one_message (omega arith) (omega arith) (omega arith) (omega arith) one_message-Models
