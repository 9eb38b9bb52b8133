-- ===== src/History/Publish.antt =====
-- `publish` and `get_latest` of src/fastipc/data/named_history_buffer.py together.
use native.Mathlib.Nat.{mod-lt}
use pyfastipc.Base.{
  ℕ, ◌+◌, ◌-◌, ◌*◌, ◌%◌, ◌^◌, ◌≤◌, ◌<◌, ◌≡◌, ◌≢◌, ◌>>=◌, ap, sym, ◌∙◌, inl, inr, false, Bool-cases,
  List, some, ok, ltb, ◌==◌, length, arith,
}
use pyfastipc.Memory.{Mem, get, of_bytes, load, Apart}
use pyfastipc.Primitives.Cycle.{Free, Held, SameOutside, acquire-Held, release-Free}
use pyfastipc.History.Header.{
  magic, meta_size, num_slots, slot_size, msg_idx_bits, calc_slot_offset, slot_of,
}
use pyfastipc.History.Buffer.{Writer, get_slot_header, view, write_next, publish, get_latest}
use pyfastipc.History.Slot.{Written, write_slot-Written}

-- The header says that there are `n` slots of `k` bytes each and that `id` messages were published;
-- nobody holds the mutex.
pub record Ready (n k id : ℕ) (m : Mem) : Type 0 where
  pub free : Free 64 m
  pub slots : num_slots m ≡ n
  pub room : slot_size m ≡ k
  pub next : msg_idx_bits m ≡ id

-- The place of slot `i`.
abbrev pub slot_at : ℕ → ℕ → ℕ
slot_at k i = 128 + i * (64 + k)

pub slot_room : (i n c : ℕ) → i < n → i * c + c ≤ n * c
slot_room i n c h = grind arith

pub slots-Apart : (i j k : ℕ) → i ≢ j → Apart (slot_at k i) (64 + k) (slot_at k j) (64 + k)
slots-Apart i j k h = elim (Bool-cases (ltb i j)) [
  | inl less ↦ inl (omega (arith, slot_room i j (64 + k) (ground arith)))
  | inr more ↦ inr (omega (arith, slot_room j i (64 + k) (ground arith)))
]

pub slot_of_next : (id n : ℕ) → 0 < n → id < 2 ^ 63 → slot_of id 0 n ≡ ok (id % n)
unfolding slot_of
slot_of_next id n h l = ground arith

pub slot_of_last : (id n : ℕ) → 0 < n → id + 1 < 2 ^ 63 → slot_of (id + 1) 1 n ≡ ok (id % n)
unfolding slot_of
slot_of_last id n h l = let e : id + 1 - 1 ≡ id = omega arith in ground arith

module _ (size n k id : ℕ) (some_slots : 0 < n) (fits : slot_at k n ≤ size) (k_small : k < 2 ^ 64)
    (id_small : id + 1 < 2 ^ 63) where
  abbrev place : ℕ
  place = slot_at k (id % n)

  pub place_inside : place + (64 + k) ≤ size
  place_inside = omega (arith, slot_room (id % n) n (64 + k) (mod-lt id some_slots))

  -- the place of the next slot, as `publish` finds it
  pub next_place :
      (m : Mem)
      → num_slots m ≡ n
      → slot_size m ≡ k
      → msg_idx_bits m ≡ id
      → (slot_of (msg_idx_bits m) 0 (num_slots m) >>= λ i. get_slot_header size i m) ≡ ok place
  unfolding calc_slot_offset
  next_place m slots room next =
      let enough : ltb size (place + 64) ≡ false = ground (arith, place_inside) in
      rw (slots, next, slot_of_next id n some_slots (omega arith), room, enough)

  -- and as `get_latest` finds it afterwards
  pub last_place :
      (m : Mem)
      → num_slots m ≡ n
      → slot_size m ≡ k
      → msg_idx_bits m ≡ id + 1
      → get_latest size m ≡ ok (view size (place + 64) (load 8 place m) m)
  unfolding get_latest calc_slot_offset
  last_place m slots room next =
      let enough : ltb size (place + 64) ≡ false = ground (arith, place_inside) in
      let more : (id + 1 == 0) ≡ false = ground arith in
      rw (next, slots, more, slot_of_last id n some_slots id_small, room, enough)

  module _ (writer : Writer) (payload : List ℕ) (short : length payload ≤ k) where
    write_next-Written :
        (m : Mem)
        → num_slots m ≡ n
        → slot_size m ≡ k
        → msg_idx_bits m ≡ id
        → (m' : Mem) × (write_next size writer payload m ≡ (ok tt, m'))
          × Written place k id payload m m'
    unfolding write_next
    write_next-Written m slots room next =
        let (m', e, written) =
          write_slot-Written size place k id writer payload m (omega arith) place_inside short
            k_small next (omega arith) in
        (m', rw (next_place m slots room next) e, written)

    -- What was published is what `get_latest` reads.
    latest_of_fields :
        (m : Mem)
        → num_slots m ≡ n
        → slot_size m ≡ k
        → msg_idx_bits m ≡ id + 1
        → load 8 place m ≡ length payload
        → get (place + 64) (length payload) m ≡ payload
        → get_latest size m ≡ ok payload
    latest_of_fields m slots room count measured stored =
        let inside : ltb size (place + 64 + length payload) ≡ false =
          ground (arith, place_inside) in
        last_place m slots room count ∙ rw (measured, inside, stored)

    inside-Apart :
        (j : ℕ)
        → j ≢ id % n
        → (offset c : ℕ) → slot_at k j ≤ offset
        → offset + c ≤ slot_at k j + (64 + k)
        → Apart offset c place (64 + k)
    inside-Apart j ne offset c low high = elim (slots-Apart j (id % n) k ne) [
      | inl less ↦ inl (omega arith)
      | inr more ↦ inr (omega arith)
    ]

    -- How `publish` leaves the memory: ready for the next message, with the new one as the latest,
    -- and all other slots as they were.
    pub record Published (before after : Mem) : Type 0 where
      pub ready : Ready n k (id + 1) after
      pub latest : get_latest size after ≡ ok payload
      pub measured : load 8 place after ≡ length payload
      pub stored : get (place + 64) (length payload) after ≡ payload
      pub meta_len : meta_size after ≡ meta_size before
      pub marked : magic after ≡ magic before
      pub kept :
          (j : ℕ)
          → j ≢ id % n
          → (offset c : ℕ) → slot_at k j ≤ offset
          → offset + c ≤ slot_at k j + (64 + k)
          → get offset c after ≡ get offset c before

    module _ (m : Mem) (ready : Ready n k id m) (pid_some : 0 < writer.pid)
        (pid_small : writer.pid < 2 ^ 32) where
      -- Bytes outside the mutex, the counter and the slot are the same in the end.
      chain :
          (m₁ m₂ m₃ : Mem)
          → SameOutside 64 m m₁
          → Written place k id payload m₁ m₂
          → SameOutside 64 m₂ m₃
          → (offset c : ℕ) → Apart offset c 64 24
          → Apart offset c place (64 + k)
          → Apart offset c 32 8
          → get offset c m₃ ≡ get offset c m
      chain m₁ m₂ m₃ a w b offset c p q r = b offset c p ∙ w.same offset c q r ∙ a offset c p

      -- A message that fits a slot is published if nobody holds the mutex: the call returns, the
      -- header counts one message more, the mutex is free again, `get_latest` reads the message, and
      -- every other slot is as it was. The buffer has a slot, its slots lie inside the mapping, their
      -- size fits 64 bits and the counter 63, and the number of the process has 32 bits and is not 0.
      pub publish-Published :
          (m' : Mem) × (publish size writer payload m ≡ some (ok tt, m')) × Published m m'
      unfolding publish
      publish-Published =
          let (m₁, e₁, held, same₁) =
            acquire-Held 64 writer.pid writer.realtime writer.turns m pid_some pid_small
              ready.free in
          let slots₁ : num_slots m₁ ≡ n =
            ap of_bytes (same₁ 16 8 (inl (omega arith))) ∙ ready.slots in
          let room₁ : slot_size m₁ ≡ k =
            ap of_bytes (same₁ 24 8 (inl (omega arith))) ∙ ready.room in
          let next₁ : msg_idx_bits m₁ ≡ id =
            ap of_bytes (same₁ 32 8 (inl (omega arith))) ∙ ready.next in
          let (m₂, e₂, w) = write_next-Written m₁ slots₁ room₁ next₁ in
          let held₂ : Held 64 writer.pid m₂ = record {
            locked = λ z.
                held.locked
                  (sym (ap of_bytes (w.same 72 4 (inl (omega arith)) (inr (omega arith)))) ∙ z);
            owned = ap of_bytes (w.same 76 4 (inl (omega arith)) (inr (omega arith))) ∙ held.owned;
          } in
          let (m₃, woken, e₃, free, same₃) = release-Free 64 writer.pid m₂ held₂ in
          let fits_slot : ltb (slot_size m) (length payload) ≡ false = ground (arith, ready.room) in
          let all = chain m₁ m₂ m₃ same₁ w same₃ in
          let slots₃ : num_slots m₃ ≡ n =
            ap of_bytes (all 16 8 (inl (omega arith)) (inl (omega arith)) (inl (omega arith)))
            ∙ ready.slots in
          let room₃ : slot_size m₃ ≡ k =
            ap of_bytes (all 24 8 (inl (omega arith)) (inl (omega arith)) (inl (omega arith)))
            ∙ ready.room in
          let next₃ : msg_idx_bits m₃ ≡ id + 1 =
            ap of_bytes (same₃ 32 8 (inl (omega arith))) ∙ w.counted in
          let measured₃ = ap of_bytes (same₃ place 8 (inr (omega arith))) ∙ w.measured in
          let stored₃ = same₃ (place + 64) (length payload) (inr (omega arith)) ∙ w.stored in
          (
            m₃,
            rw (fits_slot, e₁, e₂, e₃),
            record {
              ready = record { free = free; slots = slots₃; room = room₃; next = next₃ };
              latest = latest_of_fields m₃ slots₃ room₃ next₃ measured₃ stored₃;
              measured = measured₃;
              stored = stored₃;
              meta_len =
                  ap of_bytes (all 8 8 (inl (omega arith)) (inl (omega arith)) (inl (omega arith)));
              marked =
                  ap of_bytes (all 0 8 (inl (omega arith)) (inl (omega arith)) (inl (omega arith)));
              kept = λ j ne offset c low high.
                  all offset c (inr (omega arith)) (inside-Apart j ne offset c low high)
                    (inr (omega arith));
            },
          )
