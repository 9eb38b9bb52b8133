-- ===== src/History/Release.antt =====
-- The mutex around `publish` in src/fastipc/data/named_history_buffer.py: every way through the call
-- gives it back.
use pyfastipc.Base.{
  ℕ, ◌+◌, ◌*◌, ◌^◌, ◌≤◌, ◌<◌, ◌≡◌, refl, ap, sym, ◌∙◌, inl, inr, Bool-cases, ◌&&◌, not, List, some,
  Result, Result-cases, err, value_error, ltb, ◌==◌, length, arith,
}
use pyfastipc.Memory.{Mem, get, of_bytes, get-store-Apart, get-put-Apart, Apart}
use pyfastipc.Primitives.Cycle.{Free, Held, acquire-Held, release-Free}
use pyfastipc.History.Header.{num_slots, slot_size, msg_idx_bits, calc_slot_offset, slot_of}
use pyfastipc.History.Buffer.{
  Writer, get_slot_header, assign, write_slot, write_at, write_next, publish,
}

module _ (size : ℕ) (writer : Writer) (payload : List ℕ) where
  -- The first 128 bytes are the same, without the counter.
  abbrev SameHeader : Mem → Mem → Type 0
  SameHeader before after =
      (offset c : ℕ)
      → offset + c ≤ 128
      → Apart offset c 32 8
      → get offset c after ≡ get offset c before

  write_slot-SameHeader :
      (s : ℕ) (m : Mem) → 128 ≤ s → SameHeader m (write_slot size writer payload s m).1
  unfolding write_slot assign
  write_slot-SameHeader s m behind offset c h a =
      let start =
        get-store-Apart offset c 8 (s + 8) writer.started _ (inl (omega arith))
        ∙ get-store-Apart offset c 8 s (length payload) m (inl (omega arith)) in
      elim (Bool-cases (ltb size (s + 64 + length payload) && not (length payload == 0))) [
        | inl crowded ↦ rw crowded start
        | inr room ↦ rw room (
            get-store-Apart offset c 8 32 _ _ a
            ∙ get-store-Apart offset c 8 (s + 16) writer.ended _ (inl (omega arith))
            ∙ get-put-Apart offset c (s + 64) payload _ (inl (omega arith))
            ∙ start)
      ]

  write_at-SameHeader :
      (i : ℕ) (m : Mem) → SameHeader m (write_at size writer payload (get_slot_header size i m) m).1
  unfolding calc_slot_offset
  write_at-SameHeader i m offset c h a =
      elim (Bool-cases (ltb size (128 + i * (64 + slot_size m) + 64))) [
        | inl outside ↦ rw outside refl
        | inr inside ↦
            rw inside
              (write_slot-SameHeader (128 + i * (64 + slot_size m)) m (omega arith) offset c h a)
      ]

  write_next-SameHeader : (m : Mem) → SameHeader m (write_next size writer payload m).1
  unfolding write_next
  write_next-SameHeader m offset c h a =
      elim (Result-cases (slot_of (msg_idx_bits m) 0 (num_slots m))) [
        | inl (i, e) ↦ rw e (write_at-SameHeader i m offset c h a)
        | inr (x, e) ↦ rw e refl
      ]

  -- If nobody holds the mutex, `publish` ends with nobody holding it: whatever the header says, with
  -- a result or by any exception. (The number of the process has 32 bits and is not 0.)
  pub publish-Free :
      (m : Mem)
      → Free 64 m
      → 0 < writer.pid
      → writer.pid < 2 ^ 32
      → (r : Result (Unit {0})) × (m' : Mem) × (publish size writer payload m ≡ some (r, m'))
        × Free 64 m'
  unfolding publish
  publish-Free m free pos small = elim (Bool-cases (ltb (slot_size m) (length payload))) [
    | inl long ↦ (err value_error, m, rw long, free)
    | inr fits ↦
        let (m₁, e₁, held, same₁) =
          acquire-Held 64 writer.pid writer.realtime writer.turns m pos small free in
        let m₂ = (write_next size writer payload m₁).1 in
        let same = write_next-SameHeader m₁ in
        let held₂ : Held 64 writer.pid m₂ = record {
          locked = λ z.
              held.locked (sym (ap of_bytes (same 72 4 (omega arith) (inr (omega arith)))) ∙ z);
          owned = ap of_bytes (same 76 4 (omega arith) (inr (omega arith))) ∙ held.owned;
        } in
        let (m₃, woken, e₃, free₃, same₃) = release-Free 64 writer.pid m₂ held₂ in
        ((write_next size writer payload m₁).0, m₃, rw (fits, e₁, e₃), free₃)
  ]
