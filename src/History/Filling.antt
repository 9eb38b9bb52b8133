-- ===== src/History/Filling.antt =====
-- What the process behind `acquire` knows of the buffer of src/fastipc/data/named_history_buffer.py, from
-- one access of `publish` to the next.
use pyfastipc.Base.{
  ℕ, ◌+◌, ◌%◌, ◌^◌, ◌≤◌, ◌<◌, ◌≡◌, refl, ap, sym, ◌∙◌, Bool, true, false, List, [], ◌∷◌, ◌++◌,
  append_assoc, append-nil, ltb, if◌then◌else◌, length, All, arith,
}
use mathlib.Core.Path.{subst}
use pyfastipc.Memory.{Mem, Write, perform, replay, replay-append}
use pyfastipc.History.Header.{num_slots, slot_size, msg_idx_bits}
use pyfastipc.History.Buffer.{Writer}
use pyfastipc.History.Publish.{slot_at, place_inside, next_place}
use pyfastipc.History.Log.{Stored}
use pyfastipc.History.Accesses.{slot_writes, count_write}
use pyfastipc.History.Overlap.{Harmless, Partial, Partial-Harmless, Partial-count}
use pyfastipc.History.Ordered.{slot-Harmless}
use pyfastipc.History.Writers.{filling, counting, adding, leaving, fetch}
use pyfastipc.History.Serial.{slot_writes-Stored, Logged-weaken, Doing, Any}

module _ (size n k : ℕ) (some_slots : 0 < n) (fits : slot_at k n ≤ size)
    (k_small : k < 2 ^ 64) where
  pub fetch-filling :
      (id : ℕ) (writer : Writer) (payload : List ℕ) (m : Mem)
      → id + 1 < 2 ^ 63
      → length payload ≤ k
      → num_slots m ≡ n
      → slot_size m ≡ k
      → msg_idx_bits m ≡ id
      → fetch size writer payload m
        ≡ filling payload (slot_writes writer payload (slot_at k (id % n))) true
  unfolding fetch
  fetch-filling id writer payload m small short slots room count =
      let inside : ltb size (slot_at k (id % n) + 64 + length payload) ≡ false =
        ground (arith, place_inside size n k id some_slots fits k_small small) in
      rw (next_place size n k id some_slots fits k_small small m slots room count, inside) refl

  pub fetch-Doing :
      (log : List (List ℕ)) (writer : Writer) (payload : List ℕ) (m : Mem)
      → length log + 1 < 2 ^ 63
      → length payload ≤ k
      → Partial n k (length log + 1) Any log m
      → Doing n k log m (fetch size writer payload m)
  fetch-Doing log writer payload m small short b =
      subst (Doing n k log m)
        (sym (fetch-filling (length log) writer payload m small short b.slots b.room b.next))
        (refl, short, (writer, [], m, refl, refl))

  All-middle :
      (P : Write → Type 0) (done : List Write) (w : Write) (left : List Write)
      → All P (done ++ w ∷ left)
      → P w
  All-middle P [] w left (h, hs) = h
  All-middle P (d ∷ done) w left (h, hs) = All-middle P done w left hs

  pub filled-Doing :
      (log : List (List ℕ)) (payload : List ℕ) (all_fit : Bool) (m : Mem)
      → Doing n k log m (filling payload [] all_fit)
      → Doing n k log m (if all_fit then counting payload else leaving)
  filled-Doing log payload all_fit m (f, short, (writer, done, begun, split, made)) =
      let stored : Stored k (length log % n) payload m =
        subst (λ a. Stored k (length log % n) payload a)
          (ap (λ ws. replay ws begun) (sym split ∙ append-nil done) ∙ sym made)
          (slot_writes-Stored k (length log % n) writer payload begun short k_small) in
      rw f stored

  -- The counter after the message.
  pub counts-Doing :
      (log : List (List ℕ)) (payload : List ℕ) (count : ℕ) (m : Mem)
      → length log + 1 < 2 ^ 63
      → Partial n k (length log + 1) Any log m
      → Doing n k log m (adding payload count)
      → Partial n k
          (length {A = List ℕ} (payload ∷ log) + 1)
          Any
          (payload ∷ log)
          (perform (count_write count) m)
  counts-Doing log payload count m small b (same, stored) =
      let log' = payload ∷ log in
      let c : Partial n k (length log + 1) Any log' (perform (count_write (length log)) m) =
        Partial-count n k (length log + 1) Any (omega arith) log payload m (omega arith) stored tt
          b in
      rw same (record {
        slots = c.slots;
        room = c.room;
        next = c.next;
        logged = Logged-weaken n k (length log + 1) (length log' + 1) log' _ (omega arith) c.logged;
        few = omega arith;
        listed = tt;
      })

  pub next_Harmless :
      (log : List (List ℕ)) (payload : List ℕ) (w : Write) (left : List Write) (all_fit : Bool)
      (m : Mem)
      → length log + 1 < 2 ^ 63
      → Doing n k log m (filling payload (w ∷ left) all_fit)
      → Harmless n k (length log + 1) (length log) w
  next_Harmless log payload w left all_fit m small (f, short, (writer, done, begun, split, made)) =
      let all : All (Harmless n k (length log + 1) (length log))
          (slot_writes writer payload (slot_at k (length log % n))) =
        slot-Harmless size n k (length log + 1) some_slots fits k_small small Any (length log)
          writer payload (omega arith) short in
      All-middle _ done w left
        (subst (λ ws. All (Harmless n k (length log + 1) (length log)) ws) (sym split) all)

  -- The next of the stores to a slot.
  pub stores-Doing :
      (log : List (List ℕ)) (payload : List ℕ) (w : Write) (left : List Write) (all_fit : Bool)
      (m : Mem)
      → length log + 1 < 2 ^ 63
      → Partial n k (length log + 1) Any log m
      → Doing n k log m (filling payload (w ∷ left) all_fit)
      → Partial n k (length log + 1) Any log (perform w m)
        × Doing n k log (perform w m) (filling payload left all_fit)
  stores-Doing log payload w left all_fit m small b (f, short, (writer, done, begun, split, made)) =
      let one =
        next_Harmless log payload w left all_fit m small
          (f, short, (writer, done, begun, split, made)) in
      (
        Partial-Harmless n k (length log + 1) Any log w m one b,
        (
          f,
          short,
          (
            writer,
            done ++ w ∷ [],
            begun,
            append_assoc done (w ∷ []) left ∙ split,
            ap (perform w) made ∙ sym (replay-append done (w ∷ []) begun),
          ),
        ),
      )
