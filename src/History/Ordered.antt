-- ===== src/History/Ordered.antt =====
-- The stores of any calls of `publish` in src/fastipc/data/named_history_buffer.py come in the order
-- that `History/Overlap` asks for.
use pyfastipc.Base.{
  ℕ, suc, ◌+◌, ◌%◌, ◌^◌, ◌≤◌, ◌<◌, ◌≡◌, refl, sym, ◌∙◌, inl, inr, List, [], ◌∷◌, ◌++◌, append_assoc,
  some, Option, Result, ok, length, take, All, All-append, All-map, arith,
}
use mathlib.Core.Path.{subst}
use pyfastipc.Memory.{Mem, Write, length-to_bytes, replay, Copy}
use pyfastipc.History.Buffer.{Writer}
use pyfastipc.History.Publish.{Ready, slot_at}
use pyfastipc.History.Log.{Models, log_after, IsCall, publish-Models}
use pyfastipc.History.Accesses.{
  field_write, unlock_writes, slot_writes, count_write, publish_writes, all_writes,
}
use pyfastipc.History.Replayed.{
  locked, filled, replay-slot_writes, replay-publish_writes, filled-Stored, publish-replay,
}
use pyfastipc.History.Overlap.{Harmless, Orderly}

module _ (size n k total : ℕ) (some_slots : 0 < n) (fits : slot_at k n ≤ size)
    (k_small : k < 2 ^ 64) (total_small : total < 2 ^ 63) where
  mutex-Harmless :
      (j width offset v : ℕ)
      → 64 ≤ offset
      → offset + width ≤ 128
      → Harmless n k total j (field_write width offset v)
  mutex-Harmless j width offset v low high = inl (low, omega (arith, length-to_bytes width v))

  field-Harmless :
      (j width offset v : ℕ)
      → j < total
      → slot_at k (j % n) ≤ offset
      → offset + width ≤ slot_at k (j % n) + (64 + k)
      → Harmless n k total j (field_write width offset v)
  field-Harmless j width offset v less low high =
      inr (less, low, omega (arith, length-to_bytes width v))

  copy-Harmless :
      (j p : ℕ) (bs : List ℕ) (copy : Copy)
      → j < total
      → slot_at k (j % n) ≤ p
      → p + length bs ≤ slot_at k (j % n) + (64 + k)
      → All (Harmless n k total j) (copy.stores p bs)
  copy-Harmless j p bs copy less low high =
      All-map (λ w (from, upto). inr (less, omega arith, omega arith)) (copy.stores p bs)
        (copy.inside p bs)

  module _ (Q : List (List ℕ) → Type 0) where
    Harmless-All :
        (ws rest : List Write) (log : List (List ℕ)) (m : Mem)
        → All (Harmless n k total (length log)) ws
        → Orderly n k total Q log (replay ws m) rest
        → Orderly n k total Q log m (ws ++ rest)
    Harmless-All [] rest log m h o = o
    Harmless-All (w ∷ ws) rest log m (h, hs) o = inl (h, Harmless-All ws rest log _ hs o)

    pub slot-Harmless :
        (j : ℕ) (writer : Writer) (payload : List ℕ)
        → j < total
        → length payload ≤ k
        → All (Harmless n k total j) (slot_writes writer payload (slot_at k (j % n)))
    slot-Harmless j writer payload less short =
        let s = slot_at k (j % n) in
        (
          field-Harmless j 8 s _ less (omega arith) (omega arith),
          (
            field-Harmless j 8 (s + 8) _ less (omega arith) (omega arith),
            All-append (Harmless n k total j) (writer.copy.stores (s + 64) payload) _
                (copy-Harmless j (s + 64) payload writer.copy less (omega arith) (omega arith))
                (field-Harmless j 8 (s + 16) _ less (omega arith) (omega arith), tt),
          ),
        )

    call-Orderly :
        (log : List (List ℕ)) (m : Mem) (writer : Writer) (payload : List ℕ) (rest : List Write)
        → Ready n k (length log) m
        → length payload ≤ k
        → length log < total
        → Q (payload ∷ log)
        → Orderly n k total Q
            (payload ∷ log)
            (replay (publish_writes n k (length log) writer payload) m)
            rest
        → Orderly n k total Q log m (publish_writes n k (length log) writer payload ++ rest)
    call-Orderly log m writer payload rest ready short less q o =
        let j = length log in
        let slots = slot_writes writer payload (slot_at k (j % n)) in
        let after : Orderly n k total Q (payload ∷ log)
            (replay (count_write j ∷ unlock_writes) (filled n k j writer payload m)) rest =
          rw (← replay-publish_writes n k j writer payload m) o in
        let counted : Orderly n k total Q log (filled n k j writer payload m)
            (count_write j ∷ unlock_writes ++ rest) =
          inr (
            payload,
            less,
            refl,
            filled-Stored n k j writer payload m size some_slots fits k_small (omega arith) short
                ready,
            q,
            inl (
              mutex-Harmless (suc j) 4 72 0 (omega arith) (omega arith),
              inl (mutex-Harmless (suc j) 4 76 0 (omega arith) (omega arith), after),
            ),
          ) in
        let slotted : Orderly n k total Q log (locked n k j writer payload m)
            (slots ++ (count_write j ∷ unlock_writes ++ rest)) =
          Harmless-All slots _ log _ (slot-Harmless j writer payload less short)
            (rw (replay-slot_writes n k j writer payload m) counted) in
        inl (
          mutex-Harmless j 4 72 1 (omega arith) (omega arith),
          inl (
            mutex-Harmless j 4 76 writer.pid (omega arith) (omega arith),
            inl (
              mutex-Harmless j 8 80 writer.realtime (omega arith) (omega arith),
              subst (λ ws. Orderly n k total Q log (locked n k j writer payload m) ws)
                  (sym (append_assoc slots (count_write j ∷ unlock_writes) rest)) slotted,
            ),
          ),
        )

    some-injective :
        (a b : Mem)
        → ◌≡◌ {A = Option (Result (Unit {0}) × Mem)} (some (ok tt, a)) (some (ok tt, b))
        → a ≡ b
    some-injective a b e = cc

    pub all_writes-Orderly :
        (calls : List (Writer × List ℕ)) (log : List (List ℕ)) (m : Mem)
        → All (IsCall k) calls
        → length log + length calls ≤ total
        → ((j : ℕ) → Q (log_after (take j calls) log))
        → Models size n k log m
        → Orderly n k total Q log m (all_writes n k (length log) calls)
    unfolding all_writes
    all_writes-Orderly [] log m good few q models = tt
    all_writes-Orderly ((writer, payload) ∷ calls) log m (call, good) few q models =
        let (pos, small, short) = call in
        let (m', e, models') =
          publish-Models size n k some_slots fits k_small log writer payload m call (omega arith)
            models in
        let id = length log in
        let replayed =
          publish-replay n k id writer payload m size some_slots fits k_small (omega arith) short
            models.ready pos small in
        let same : m' ≡ replay (publish_writes n k id writer payload) m =
          some-injective _ _ (sym e ∙ replayed) in
        let count : suc id ≡ id + 1 = omega arith in
        let rest : Orderly n k total Q (payload ∷ log) m' (all_writes n k (suc id) calls) =
          all_writes-Orderly calls (payload ∷ log) m' good (omega arith) (λ j. q (suc j)) models' in
        call-Orderly log m writer payload (all_writes n k (id + 1) calls) models.ready short
          (omega arith) (q 1)
          (subst
            (λ i.
              Orderly n k total Q (payload ∷ log) (replay (publish_writes n k id writer payload) m)
                (all_writes n k i calls))
            count
            (subst (λ a. Orderly n k total Q (payload ∷ log) a (all_writes n k (suc id) calls)) same
              rest))
