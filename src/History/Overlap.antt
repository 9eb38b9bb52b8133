-- ===== src/History/Overlap.antt =====
-- What the stores of `publish` in src/fastipc/data/named_history_buffer.py leave alone, at any point of
-- their sequence.
use pyfastipc.Base.{
  ℕ, zero, suc, ◌+◌, ◌%◌, ◌^◌, ◌≤◌, ◌<◌, ◌≡◌, refl, ap, ◌∙◌, ◌⊎◌, inl, inr, List, [], ◌∷◌, ◌++◌,
  length, take, arith,
}
use pyfastipc.Memory.{
  Mem, of_bytes, load, put-Apart, load-store, get_same, Write, perform, replay, to_bytes,
  length-to_bytes,
}
use pyfastipc.History.Header.{num_slots, slot_size, msg_idx_bits}
use pyfastipc.History.Publish.{slot_at, slots-Apart}
use pyfastipc.History.Log.{Stored, Logged, mod-ne}
use pyfastipc.History.Accesses.{count_write}

-- A store to the mutex, or to the slot of the message `j`, one of the first `total` messages.
abbrev pub Harmless : ℕ → ℕ → ℕ → ℕ → Write → Type 0
Harmless n k total j w =
    ((64 ≤ w.place) × (w.place + length w.bytes ≤ 128))
    ⊎ ((j < total)
        × (slot_at k (j % n) ≤ w.place)
        × (w.place + length w.bytes ≤ slot_at k (j % n) + (64 + k)))

-- The byte `x` is in the slot of the message `i`.
abbrev pub InSlot : ℕ → ℕ → ℕ → ℕ → Type 0
InSlot n k i x = (slot_at k (i % n) ≤ x) × (x < slot_at k (i % n) + (64 + k))

pub Stored-same :
    (n k i : ℕ) (payload : List ℕ) (m m' : Mem)
    → ((x : ℕ) → InSlot n k i x → m' x ≡ m x)
    → Stored k (i % n) payload m
    → Stored k (i % n) payload m'
Stored-same n k i payload m m' same (short, measured, stored) = (
  short,
  ap of_bytes (get_same _ 8 m m' (λ x low high. same x (omega arith, omega arith))) ∙ measured,
  get_same _ (length payload) m m' (λ x low high. same x (omega arith, omega arith)) ∙ stored,
)

module _ (n k total : ℕ) (Q : List (List ℕ) → Type 0) where
  -- The header and the slots in the middle of the stores: the counter says how many messages are in the
  -- log, and each is in its slot that none of the first `total` messages will replace.
  pub record Partial (log : List (List ℕ)) (m : Mem) : Type 0 where
    pub slots : num_slots m ≡ n
    pub room : slot_size m ≡ k
    pub next : msg_idx_bits m ≡ length log
    pub logged : Logged n k total log m
    pub few : length log ≤ total
    pub listed : Q log

  -- The stores go to the mutex, to the slot of the next message, or to the counter when that message
  -- is in its slot.
  abbrev pub Orderly : List (List ℕ) → Mem → List Write → Type 0
  Orderly log m [] = Unit
  Orderly log m (w ∷ ws) =
      (Harmless n k total (length log) w × Orderly log (perform w m) ws)
      ⊎ ((payload : List ℕ) × (length log < total)
          × (w ≡ count_write (length log))
          × Stored k (length log % n) payload m
          × Q (payload ∷ log)
          × Orderly (payload ∷ log) (perform w m) ws)

  Harmless-slot :
      (i j x : ℕ) (w : Write) (m : Mem)
      → Harmless n k total j w
      → i < j
      → total ≤ i + n
      → InSlot n k i x
      → perform w m x ≡ m x
  Harmless-slot i j x w m (inl (low, high)) less far (from, upto) =
      put-Apart w.place w.bytes m x (inr (omega arith))
  Harmless-slot i j x w m (inr (more, low, high)) less far (from, upto) =
      elim (slots-Apart (i % n) (j % n) k (mod-ne i j n less (omega arith))) [
        | inl a ↦ put-Apart w.place w.bytes m x (inl (omega arith))
        | inr a ↦ put-Apart w.place w.bytes m x (inr (omega arith))
      ]

  Harmless-head :
      (j x : ℕ) (w : Write) (m : Mem) → Harmless n k total j w → x < 64 → perform w m x ≡ m x
  Harmless-head j x w m (inl (low, high)) h = put-Apart w.place w.bytes m x (inl (omega arith))
  Harmless-head j x w m (inr (more, low, high)) h =
      put-Apart w.place w.bytes m x (inl (omega arith))

  count_outside : (j x : ℕ) (m : Mem) → (x < 32) ⊎ (40 ≤ x) → perform (count_write j) m x ≡ m x
  count_outside j x m h =
      put-Apart 32 (to_bytes 8 (j + 1)) m x (ground (arith, length-to_bytes 8 (j + 1)))

  -- A byte of the numbers in the header, or of the slot of a message in the log that none of the first
  -- `total` messages will replace.
  abbrev pub Lasting : List (List ℕ) → ℕ → Type 0
  Lasting log x = (x < 32) ⊎ ((i : ℕ) × (i < length log) × (total ≤ i + n) × InSlot n k i x)

  pub Lasting-more :
      (log : List (List ℕ)) (payload : List ℕ) (x : ℕ) → Lasting log x → Lasting (payload ∷ log) x
  Lasting-more log payload x (inl h) = inl h
  Lasting-more log payload x (inr (i, less, far, inside)) = inr (i, omega arith, far, inside)

  pub Lasting-Harmless :
      (log : List (List ℕ)) (w : Write) (m : Mem) (x : ℕ)
      → Harmless n k total (length log) w
      → Lasting log x
      → perform w m x ≡ m x
  Lasting-Harmless log w m x h (inl low) = Harmless-head (length log) x w m h (omega arith)
  Lasting-Harmless log w m x h (inr (i, less, far, inside)) =
      Harmless-slot i (length log) x w m h less far inside

  pub Lasting-count :
      (log : List (List ℕ)) (j : ℕ) (m : Mem) (x : ℕ)
      → Lasting log x
      → perform (count_write j) m x ≡ m x
  Lasting-count log j m x (inl low) = count_outside j x m (inl low)
  Lasting-count log j m x (inr (i, less, far, (from, upto))) =
      count_outside j x m (inr (omega arith))

  -- Orderly stores leave such a byte alone, however many of them were made.
  pub Lasting-kept :
      (ws : List Write) (t : ℕ) (log : List (List ℕ)) (m : Mem) (x : ℕ)
      → Orderly log m ws
      → Lasting log x
      → replay (take t ws) m x ≡ m x
  Lasting-kept ws zero log m x o l = refl
  Lasting-kept [] (suc t) log m x o l = refl
  Lasting-kept (w ∷ ws) (suc t) log m x (inl (h, o)) l =
      Lasting-kept ws t log (perform w m) x o l ∙ Lasting-Harmless log w m x h l
  Lasting-kept (w ∷ ws) (suc t) log m x (inr (payload, more, e, stored, q, o)) l =
      Lasting-kept ws t (payload ∷ log) (perform w m) x o (Lasting-more log payload x l)
      ∙ rw e (Lasting-count log (length log) m x l)

  Logged-kept :
      (older log : List (List ℕ)) (m m' : Mem)
      → length older ≤ length log
      → ((x : ℕ) → Lasting log x → m' x ≡ m x)
      → Logged n k total older m
      → Logged n k total older m'
  Logged-kept [] log m m' le same l = tt
  Logged-kept (payload ∷ older) log m m' le same (here, rest) = (
    (λ far.
        Stored-same n k (length older) payload m m'
          (λ x inside. same x (inr (length older, omega arith, far, inside))) (here far)),
    Logged-kept older log m m' (omega arith) same rest,
  )

  field_kept :
      (p : ℕ) (m m' : Mem) → p + 8 ≤ 32 → ((x : ℕ) → x < 32 → m' x ≡ m x) → load 8 p m' ≡ load 8 p m
  field_kept p m m' h same = ap of_bytes (get_same p 8 m m' (λ x low high. same x (omega arith)))

  pub Partial-Harmless :
      (log : List (List ℕ)) (w : Write) (m : Mem)
      → Harmless n k total (length log) w
      → Partial log m
      → Partial log (perform w m)
  Partial-Harmless log w m h p =
      let same : (x : ℕ) → x < 32 → perform w m x ≡ m x =
        λ x low. Harmless-head (length log) x w m h (omega arith) in
      record {
        slots = field_kept 16 m (perform w m) (omega arith) same ∙ p.slots;
        room = field_kept 24 m (perform w m) (omega arith) same ∙ p.room;
        next =
            ap of_bytes (
              get_same 32 8 m (perform w m)
                (λ x low high. Harmless-head (length log) x w m h (omega arith)))
            ∙ p.next;
        logged =
            Logged-kept log log m (perform w m) (omega arith)
              (λ x l. Lasting-Harmless log w m x h l) p.logged;
        few = p.few;
        listed = p.listed;
      }

  module _ (total_small : total < 2 ^ 63) where
    pub Partial-count :
        (log : List (List ℕ)) (payload : List ℕ) (m : Mem)
        → length log < total
        → Stored k (length log % n) payload m
        → Q (payload ∷ log)
        → Partial log m
        → Partial (payload ∷ log) (perform (count_write (length log)) m)
    Partial-count log payload m more stored q p =
        let m' = perform (count_write (length log)) m in
        let same : (x : ℕ) → x < 32 → m' x ≡ m x =
          λ x low. count_outside (length log) x m (inl low) in
        record {
          slots = field_kept 16 m m' (omega arith) same ∙ p.slots;
          room = field_kept 24 m m' (omega arith) same ∙ p.room;
          next = load-store 8 32 (length log + 1) m (omega arith) ∙ omega arith;
          logged = (
            (λ far.
                Stored-same n k (length log) payload m m'
                  (λ x (low, high). count_outside (length log) x m (inr (omega arith))) stored),
            Logged-kept log log m m' (omega arith) (λ x l. Lasting-count log (length log) m x l)
                p.logged,
          );
          few = omega arith;
          listed = q;
        }

    -- After any beginning of orderly stores the buffer is that of some log, and the rest is orderly.
    pub Partial-replay :
        (first rest : List Write) (log : List (List ℕ)) (m : Mem)
        → Orderly log m (first ++ rest)
        → Partial log m
        → (log' : List (List ℕ)) × Partial log' (replay first m)
          × Orderly log' (replay first m) rest
    Partial-replay [] rest log m o p = (log, p, o)
    Partial-replay (w ∷ first) rest log m (inl (h, o)) p =
        Partial-replay first rest log (perform w m) o (Partial-Harmless log w m h p)
    Partial-replay (w ∷ first) rest log m (inr (payload, more, e, stored, q, o)) p =
        Partial-replay first rest (payload ∷ log) (perform w m) o
          (rw e (Partial-count log payload m more stored q p))
