-- ===== src/History/Untorn.antt =====
-- A reader of src/fastipc/data/named_history_buffer.py that runs while messages are published.
use pyfastipc.Base.{
  ℕ, zero, suc, ◌+◌, ◌%◌, ◌^◌, ◌≤◌, ◌<◌, ◌≡◌, refl, ap, sym, ◌∙◌, ◌⊎◌, inl, inr, false, List, [],
  ◌∷◌, ◌++◌, ok, ltb, ◌==◌, length, take, All, arith,
}
use pyfastipc.Memory.{Mem, get, of_bytes, load, Write, replay, get_same}
use pyfastipc.History.Header.{num_slots, slot_size, msg_idx_bits, calc_slot_offset}
use pyfastipc.History.Buffer.{Writer, get_latest}
use pyfastipc.History.Publish.{slot_at, place_inside, last_place, slot_of_last}
use pyfastipc.History.Log.{Stored, Logged, Models, newest, log_after, IsCall}
use pyfastipc.History.Accesses.{all_writes}
use pyfastipc.History.Ordered.{all_writes-Orderly}
use pyfastipc.History.Racing.{get_racing, get_latest_racing, seen}
use pyfastipc.History.Overlap.{InSlot, Partial, Orderly, Lasting, Lasting-kept, Partial-replay}

get_racing_same :
    (offset c : ℕ) (mems : ℕ → Mem) (m : Mem)
    → ((i x : ℕ) → offset ≤ x → x < offset + c → mems i x ≡ m x)
    → get_racing offset c mems ≡ get offset c m
unfolding get_racing get
get_racing_same offset zero mems m h = refl
get_racing_same offset (suc c) mems m h = rw (
  h 0 offset (omega arith) (omega arith),
  get_racing_same (suc offset) c (λ i. mems (suc i)) m
      (λ i x low high. h (suc i) x (omega arith) (omega arith)),
)

length-log_after :
    (calls : List (Writer × List ℕ)) (log : List (List ℕ))
    → length log ≤ length (log_after calls log)
length-log_after [] log = omega arith
length-log_after ((writer, payload) ∷ calls) log =
    omega (arith, length-log_after calls (payload ∷ log))

module _ (size n k id : ℕ) (some_slots : 0 < n) (fits : slot_at k n ≤ size) (k_small : k < 2 ^ 64)
    (id_small : id + 1 < 2 ^ 63) (payload : List ℕ) (m : Mem) (slots : num_slots m ≡ n)
    (room : slot_size m ≡ k) (next : msg_idx_bits m ≡ id + 1)
    (stored : Stored k (id % n) payload m) where
  abbrev spot : ℕ
  spot = slot_at k (id % n)

  spot_inside : spot + 64 + length payload ≤ size
  spot_inside = omega (arith, place_inside size n k id some_slots fits k_small id_small, stored.0)

  pub get_latest_stored : get_latest size m ≡ ok payload
  get_latest_stored =
      let (short, measured, bytes) = stored in
      let inside : ltb size (spot + 64 + length payload) ≡ false = ground (arith, spot_inside) in
      last_place size n k id some_slots fits k_small id_small m slots room next
      ∙ rw (measured, inside, bytes)

  -- A reader that sees the numbers of the header and the slot of the message as they are in `m`.
  pub racing_stored :
      (mems : ℕ → Mem)
      → mems 0 ≡ m
      → ((i x : ℕ) → (x < 32) ⊎ InSlot n k id x → mems i x ≡ m x)
      → get_latest_racing size mems ≡ ok payload
  unfolding get_latest_racing calc_slot_offset
  racing_stored mems start same =
      let (short, measured, bytes) = stored in
      let inside : ltb size (spot + 64 + length payload) ≡ false = ground (arith, spot_inside) in
      let enough : ltb size (spot + 64) ≡ false = ground (arith, spot_inside) in
      let more : (id + 1 == 0) ≡ false = ground arith in
      let count : msg_idx_bits (mems 0) ≡ id + 1 = rw start next in
      let slots₁ : num_slots (mems 1) ≡ n =
        ap of_bytes (get_same 16 8 m (mems 1) (λ x low high. same 1 x (inl (omega arith))))
        ∙ slots in
      let room₂ : slot_size (mems 2) ≡ k =
        ap of_bytes (get_same 24 8 m (mems 2) (λ x low high. same 2 x (inl (omega arith))))
        ∙ room in
      let room₃ : slot_size (mems 3) ≡ k =
        ap of_bytes (get_same 24 8 m (mems 3) (λ x low high. same 3 x (inl (omega arith))))
        ∙ room in
      let measured₄ : load 8 spot (mems 4) ≡ length payload =
        ap of_bytes
          (get_same spot 8 m (mems 4) (λ x low high. same 4 x (inr (omega arith, omega arith))))
        ∙ measured in
      let bytes₅ : get_racing (spot + 64) (length payload) (λ i. mems (5 + i)) ≡ payload =
        get_racing_same (spot + 64) (length payload) (λ i. mems (5 + i)) m
          (λ i x low high. same (5 + i) x (inr (omega arith, omega arith)))
        ∙ bytes in
      rw (
        count,
        more,
        slots₁,
        slot_of_last id n some_slots id_small,
        room₂,
        enough,
        room₃,
        measured₄,
        inside,
        bytes₅,
      )

-- The log after some of the calls.
abbrev Grown : List (Writer × List ℕ) → List (List ℕ) → List (List ℕ) → Type 0
Grown calls log log' = (j : ℕ) × (log' ≡ log_after (take j calls) log)

module _ (size n k : ℕ) (some_slots : 0 < n) (fits : slot_at k n ≤ size) (k_small : k < 2 ^ 64)
    (calls : List (Writer × List ℕ)) (log : List (List ℕ)) (few : length calls < n)
    (total_small : length log + length calls < 2 ^ 63) where
  abbrev total : ℕ
  total = length log + length calls

  racing_same :
      (log' : List (List ℕ)) (m : Mem) (rest : List Write) (when : ℕ → ℕ)
      → Orderly n k total (Grown calls log) log' m rest
      → (i x : ℕ) → Lasting n k total (Grown calls log) log' x
      → seen m rest when i x ≡ m x
  racing_same log' m rest when o zero x l = refl
  racing_same log' m rest when o (suc i) x l =
      Lasting-kept n k total (Grown calls log) rest (when i) log' m x o l

  Logged-fewer :
      (older : List (List ℕ)) (m : Mem) → Logged n k (length log) older m → Logged n k total older m
  Logged-fewer [] m l = tt
  Logged-fewer (payload ∷ older) m (here, rest) =
      (λ far. here (omega arith), Logged-fewer older m rest)

  -- At any point of the stores, in a buffer of that log, a reader gets what it gets at that point.
  racing-Partial :
      (log' : List (List ℕ)) (m : Mem) (rest : List Write) (when : ℕ → ℕ)
      → Partial n k total (Grown calls log) log' m
      → Orderly n k total (Grown calls log) log' m rest
      → (get_latest_racing size (seen m rest when) ≡ newest log')
        × (get_latest size m ≡ newest log')
  unfolding get_latest_racing get_latest
  racing-Partial [] m rest when p o = (rw p.next, rw p.next)
  racing-Partial (payload ∷ older) m rest when p o =
      let (j, grown) = p.listed in
      let old : length log ≤ suc (length older) =
        rw (ap length grown) (length-log_after (take j calls) log) in
      let id = length older in
      let stored : Stored k (id % n) payload m = p.logged.0 (omega arith) in
      let next : msg_idx_bits m ≡ id + 1 = p.next ∙ omega arith in
      let id_small : id + 1 < 2 ^ 63 = omega (arith, p.few) in
      let same : (i x : ℕ) → (x < 32) ⊎ InSlot n k id x → seen m rest when i x ≡ m x = λ i x h.
        racing_same (payload ∷ older) m rest when o i x (elim h [
          | inl low ↦ inl low
          | inr inside ↦ inr (id, omega arith, omega arith, inside)
        ]) in
      (
        racing_stored size n k id some_slots fits k_small id_small payload m p.slots p.room next
            stored (seen m rest when) refl same,
        get_latest_stored size n k id some_slots fits k_small id_small payload m p.slots p.room next
            stored,
      )

  -- A reader whose accesses fall among the stores of calls of `publish`, at any points behind its
  -- first access, reads what it would read at its first access alone, and that is the newest
  -- message after some of the calls, never a mixture of two. The buffer has a log and its slots
  -- inside the mapping; the messages fit the slots, and the processes that publish them have
  -- numbers of 32 bits that are not 0; the calls, those in progress included, are fewer than the
  -- slots; the size of a slot fits 64 bits and the counter 63.
  pub read_untorn :
      (m : Mem) (first rest : List Write) (when : ℕ → ℕ)
      → Models size n k log m
      → All (IsCall k) calls
      → all_writes n k (length log) calls ≡ first ++ rest
      → (get_latest_racing size (seen (replay first m) rest when)
          ≡ get_latest size (replay first m))
        × ((j : ℕ) × (get_latest size (replay first m) ≡ newest (log_after (take j calls) log)))
  read_untorn m first rest when models good split =
      let orderly : Orderly n k total (Grown calls log) log m (first ++ rest) = rw (← split) (
        all_writes-Orderly size n k total some_slots fits k_small total_small (Grown calls log)
          calls log m good (omega arith) (λ j. (j, refl)) models) in
      let begun : Partial n k total (Grown calls log) log m = record {
        slots = models.ready.slots;
        room = models.ready.room;
        next = models.ready.next;
        logged = Logged-fewer log m models.logged;
        few = omega arith;
        listed = (0, refl);
      } in
      let (log', p, o) =
        Partial-replay n k total (Grown calls log) total_small first rest log m orderly begun in
      let (raced, alone) = racing-Partial log' (replay first m) rest when p o in
      let (j, grown) = p.listed in (raced ∙ sym alone, (j, alone ∙ ap newest grown))
