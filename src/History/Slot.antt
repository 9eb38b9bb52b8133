-- ===== src/History/Slot.antt =====
-- One slot of the history buffer in src/fastipc/data/named_history_buffer.py: what the body of
-- `publish` leaves in the memory.
use pyfastipc.Base.{
  ℕ, ◌+◌, ◌^◌, ◌≤◌, ◌<◌, ◌≡◌, ap, ◌∙◌, inl, inr, false, List, ok, ltb, length, arith,
}
use pyfastipc.Memory.{
  Mem, get, put, of_bytes, load, store, load-store, get-store-Apart, get-put-Apart, get-put, Apart,
}
use pyfastipc.History.Header.{msg_idx_bits}
use pyfastipc.History.Buffer.{Writer, assign, write_slot}

-- What is written in the slot at `s` of `64 + k` bytes, as message `id`.
pub record Written (s k id : ℕ) (payload : List ℕ) (before after : Mem) : Type 0 where
  pub same :
      (offset n : ℕ)
      → Apart offset n s (64 + k)
      → Apart offset n 32 8
      → get offset n after ≡ get offset n before
  pub measured : load 8 s after ≡ length payload
  pub stored : get (s + 64) (length payload) after ≡ payload
  pub counted : load 8 32 after ≡ id + 1

module _ (size s k id : ℕ) (writer : Writer) (payload : List ℕ) (m : Mem) (behind : 128 ≤ s)
    (inside : s + (64 + k) ≤ size) (short : length payload ≤ k) (k_small : k < 2 ^ 64)
    (count : msg_idx_bits m ≡ id) (id_small : id + 1 < 2 ^ 64) where
  abbrev pub m₁ : Mem
  m₁ = store 8 s (length payload) m

  abbrev pub m₂ : Mem
  m₂ = store 8 (s + 8) writer.started m₁

  abbrev pub m₃ : Mem
  m₃ = put (s + 64) payload m₂

  abbrev pub m₄ : Mem
  m₄ = store 8 (s + 16) writer.ended m₃

  abbrev pub m₅ : Mem
  m₅ = store 8 32 (msg_idx_bits m₄ + 1) m₄

  four_same : (offset n : ℕ) → Apart offset n s (64 + k) → get offset n m₄ ≡ get offset n m
  four_same offset n h =
      get-store-Apart offset n 8 (s + 16) writer.ended m₃ (ground arith)
      ∙ get-put-Apart offset n (s + 64) payload m₂ (ground arith)
      ∙ get-store-Apart offset n 8 (s + 8) writer.started m₁ (ground arith)
      ∙ get-store-Apart offset n 8 s (length payload) m (ground arith)

  pub count_kept : msg_idx_bits m₄ ≡ id
  count_kept = ap of_bytes (four_same 32 8 (inl (omega arith))) ∙ count

  pub five-Written : Written s k id payload m m₅
  five-Written = record {
    same = λ offset n h g.
        get-store-Apart offset n 8 32 (msg_idx_bits m₄ + 1) m₄ g ∙ four_same offset n h;
    measured =
        ap of_bytes (
          get-store-Apart s 8 8 32 (msg_idx_bits m₄ + 1) m₄ (inr (omega arith))
          ∙ get-store-Apart s 8 8 (s + 16) writer.ended m₃ (inl (omega arith))
          ∙ get-put-Apart s 8 (s + 64) payload m₂ (inl (omega arith))
          ∙ get-store-Apart s 8 8 (s + 8) writer.started m₁ (inl (omega arith)))
        ∙ load-store 8 s (length payload) m (omega arith);
    stored =
        get-store-Apart (s + 64) (length payload) 8 32 (msg_idx_bits m₄ + 1) m₄ (inr (omega arith))
        ∙ get-store-Apart (s + 64) (length payload) 8 (s + 16) writer.ended m₃ (inr (omega arith))
        ∙ get-put (s + 64) payload m₂;
    counted =
        load-store 8 32 (msg_idx_bits m₄ + 1) m₄ (omega (arith, count_kept))
        ∙ ap (λ x. x + 1) count_kept;
  }

  -- The slot is written.
  pub write_slot-Written :
      (m' : Mem) × (write_slot size writer payload s m ≡ (ok tt, m')) × Written s k id payload m m'
  unfolding write_slot assign
  write_slot-Written =
      let room : ltb size (s + 64 + length payload) ≡ false = ground arith in
      (m₅, rw room, five-Written)
