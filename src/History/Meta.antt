-- ===== src/History/Meta.antt =====
-- The metadata of a history buffer in src/fastipc/data/named_history_buffer.py, which begins where
-- slot 0 begins.
use native.Mathlib.Nat.{zero-mod}
use pyfastipc.Base.{
  ℕ, zero, suc, ◌+◌, ◌%◌, ◌^◌, ◌≤◌, ◌<◌, ◌≡◌, refl, ap, ◌∙◌, false, List, ◌∷◌, some, ok, ltb,
  length, take, arith,
}
use pyfastipc.Memory.{Mem, get, of_bytes, load}
use pyfastipc.History.Header.{meta_size}
use pyfastipc.History.Buffer.{Writer, publish, create, get_meta}
use pyfastipc.History.Publish.{slot_at, publish-Published}
use pyfastipc.History.Create.{create-Fresh}

take-get : (c n offset : ℕ) (m : Mem) → c ≤ n → take c (get offset n m) ≡ get offset c m
unfolding get
take-get zero n offset m h = refl
take-get (suc c) zero offset m h = absurd (omega arith)
take-get (suc c) (suc n) offset m h =
    ap (λ l. m offset ∷ l) (take-get c n (suc offset) m (omega arith))

module _ (size n k : ℕ) (meta_encoded payload : List ℕ) (writer : Writer) (m : Mem)
    (some_slots : 0 < n) (n_small : n < 2 ^ 64) (k_small : k < 2 ^ 64) (fits : slot_at k n ≤ size)
    (meta_fits : 128 + length meta_encoded ≤ size) (meta_small : length meta_encoded < 2 ^ 64)
    (short : length payload ≤ k) (pid_some : 0 < writer.pid) (pid_small : writer.pid < 2 ^ 32) where
  read_start :
      (m' : Mem)
      → meta_size m' ≡ length meta_encoded
      → 8 ≤ length meta_encoded
      → load 8 128 m' ≡ length payload
      → of_bytes (take 8 (get_meta size m')) ≡ length payload
  unfolding get_meta
  read_start m' len long measured =
      let inside : ltb size (128 + length meta_encoded) ≡ false = ground arith in
      rw (len, inside, take-get 8 (length meta_encoded) 128 m' long) measured

  -- The first message that is published to a new buffer overwrites the metadata: its first eight
  -- bytes, if it has as many, are then the length of the message. Right after `create` it was read
  -- back whole. The slots and the metadata lie inside the mapping, the numbers fit 64 bits, the
  -- message fits a slot, and the number of the process has 32 bits and is not 0.
  pub create-publish-get_meta :
      8 ≤ length meta_encoded
      → (m₁ : Mem) × (create n k meta_encoded size m ≡ (ok tt, m₁))
        × (get_meta size m₁ ≡ meta_encoded)
        × ((m₂ : Mem) × (publish size writer payload m₁ ≡ some (ok tt, m₂))
            × (of_bytes (take 8 (get_meta size m₂)) ≡ length payload))
  create-publish-get_meta long =
      let (m₁, e₁, fresh) =
        create-Fresh size n k meta_encoded m n_small k_small meta_small meta_fits in
      let (m₂, e₂, p) =
        publish-Published size n k 0 some_slots fits k_small (omega arith) writer payload short m₁
          fresh.ready pid_some pid_small in
      let first : slot_at k (0 % n) ≡ 128 = let z : 0 % n ≡ 0 = zero-mod n in rw z (omega arith) in
      (
        m₁,
        e₁,
        fresh.meta,
        (m₂, e₂, read_start m₂ (p.meta_len ∙ fresh.meta_len) long (rw (← first) p.measured)),
      )
