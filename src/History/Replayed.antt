-- ===== src/History/Replayed.antt =====
-- A call of `publish` in src/fastipc/data/named_history_buffer.py is its stores in their order.
use pyfastipc.Base.{
  ℕ, ◌+◌, ◌%◌, ◌^◌, ◌≤◌, ◌<◌, ◌≡◌, ap, sym, ◌∙◌, inl, inr, true, false, List, ◌∷◌, some, ok, ltb,
  ◌==◌, length, arith,
}
use pyfastipc.Memory.{
  Mem, get, put, of_bytes, load, store, load-store-Apart, get-store-Apart, replay, replay-append,
  Apart,
}
use pyfastipc.Primitives.Mutex.{own, acquire_fast, release}
use pyfastipc.Primitives.Cycle.{own-Held, own-SameOutside}
use pyfastipc.History.Header.{num_slots, slot_size, msg_idx_bits}
use pyfastipc.History.Buffer.{Writer, assign, write_slot, write_next, publish}
use pyfastipc.History.Slot.{Written, five-Written, count_kept}
use pyfastipc.History.Publish.{Ready, slot_at, place_inside, next_place}
use pyfastipc.History.Log.{Stored}
use pyfastipc.History.Accesses.{
  lock_writes, unlock_writes, slot_writes, count_write, publish_writes,
}

module _ (n k id : ℕ) (writer : Writer) (payload : List ℕ) (m : Mem) where
  abbrev pub slot_begin : ℕ
  slot_begin = slot_at k (id % n)

  -- the memory once the lock is taken, and once the slot is written
  abbrev pub locked : Mem
  locked = replay (lock_writes writer) m

  abbrev pub filled : Mem
  filled = store 8 (slot_begin + 16) writer.ended (
      put (slot_begin + 64) payload
        (store 8 (slot_begin + 8) writer.started (store 8 slot_begin (length payload) locked)))

  pub replay-slot_writes : replay (slot_writes writer payload slot_begin) locked ≡ filled
  replay-slot_writes =
      let m₂ =
        store 8 (slot_begin + 8) writer.started (store 8 slot_begin (length payload) locked) in
      replay-append (writer.copy.stores (slot_begin + 64) payload) _ m₂
      ∙ ap (store 8 (slot_begin + 16) writer.ended) (writer.copy.same (slot_begin + 64) payload m₂)

  pub replay-publish_writes :
      replay (publish_writes n k id writer payload) m
      ≡ replay (count_write id ∷ unlock_writes) filled
  replay-publish_writes =
      replay-append (slot_writes writer payload slot_begin) (count_write id ∷ unlock_writes) locked
      ∙ ap (replay (count_write id ∷ unlock_writes)) replay-slot_writes

  module _ (size : ℕ) (some_slots : 0 < n) (fits : slot_at k n ≤ size) (k_small : k < 2 ^ 64)
      (id_small : id + 1 < 2 ^ 63) (short : length payload ≤ k) (ready : Ready n k id m) where
    locked_same : (offset c : ℕ) → Apart offset c 64 24 → get offset c locked ≡ get offset c m
    unfolding own
    locked_same offset c h = own-SameOutside 64 writer.pid writer.realtime 1 m offset c h

    locked_next : msg_idx_bits locked ≡ id
    locked_next = ap of_bytes (locked_same 32 8 (inl (omega arith))) ∙ ready.next

    abbrev inside : slot_begin + (64 + k) ≤ size
    inside = place_inside size n k id some_slots fits k_small id_small

    written : Written slot_begin k id payload locked (store 8 32 (msg_idx_bits filled + 1) filled)
    written =
        five-Written size slot_begin k id writer payload locked (omega arith) inside short k_small
          locked_next (omega arith)

    filled_next : msg_idx_bits filled ≡ id
    filled_next =
        count_kept size slot_begin k id writer payload locked (omega arith) inside short k_small
          locked_next (omega arith)

    -- The message is in its slot before it is counted.
    pub filled-Stored : Stored k (id % n) payload filled
    filled-Stored = (
      short,
      sym (load-store-Apart 8 slot_begin 8 32 _ filled (inr (omega arith))) ∙ written.measured,
      sym (get-store-Apart (slot_begin + 64) (length payload) 8 32 _ filled (inr (omega arith)))
          ∙ written.stored,
    )

    write_next-filled : write_next size writer payload locked ≡ (ok tt, store 8 32 (id + 1) filled)
    unfolding write_next write_slot assign
    write_next-filled =
        let room : ltb size (slot_begin + 64 + length payload) ≡ false = ground (arith, inside) in
        let slots : num_slots locked ≡ n =
          ap of_bytes (locked_same 16 8 (inl (omega arith))) ∙ ready.slots in
        let width : slot_size locked ≡ k =
          ap of_bytes (locked_same 24 8 (inl (omega arith))) ∙ ready.room in
        rw (
          next_place size n k id some_slots fits k_small id_small locked slots width locked_next,
          room,
          filled_next,
        )

    filled_owner :
        (pid_small : writer.pid < 2 ^ 32) → load 4 76 (store 8 32 (id + 1) filled) ≡ writer.pid
    unfolding own
    filled_owner pid_small =
        let held =
          own-Held 64 writer.pid writer.realtime 1 m (omega arith) (omega arith) pid_small in
        ap of_bytes (
          get-store-Apart 76 4 8 32 (id + 1) filled (inr (omega arith))
          ∙ sym (get-store-Apart 76 4 8 32 (msg_idx_bits filled + 1) filled (inr (omega arith)))
          ∙ written.same 76 4 (inl (omega arith)) (inr (omega arith)))
        ∙ held.owned

    -- A message that fits a slot, published while nobody holds the mutex: the call leaves the memory
    -- that its stores leave when they are made one after the other. The buffer
    -- has a slot, its slots lie inside the mapping, their size fits 64 bits and the counter 63, and the
    -- number of the process has 32 bits and is not 0.
    pub publish-replay :
        0 < writer.pid
        → writer.pid < 2 ^ 32
        → publish size writer payload m
          ≡ some (ok tt, replay (publish_writes n k id writer payload) m)
    unfolding publish acquire_fast release own
    publish-replay pos small =
        let other : (load 4 76 m == writer.pid) ≡ false = ground (arith, ready.free.unowned) in
        let mine : (load 4 76 (store 8 32 (id + 1) filled) == writer.pid) ≡ true =
          ground (arith, filled_owner small) in
        let fits_slot : ltb (slot_size m) (length payload) ≡ false = ground (arith, ready.room) in
        rw (fits_slot, other, ready.free.unlocked, write_next-filled, mine, replay-publish_writes)
