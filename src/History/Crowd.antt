-- ===== src/History/Crowd.antt =====
-- A reader of src/fastipc/data/named_history_buffer.py among any number of processes that publish.
use pyfastipc.Base.{
  ℕ, ◌+◌, ◌%◌, ◌^◌, ◌≤◌, ◌<◌, ◌≡◌, refl, ap, ◌∙◌, ◌⊎◌, inl, inr, List, [], ◌∷◌, length, arith,
}
use mathlib.Core.Path.{subst}
use pyfastipc.Memory.{Mem, Write}
use pyfastipc.History.Header.{msg_idx_bits}
use pyfastipc.History.Buffer.{get_latest}
use pyfastipc.History.Publish.{slot_at}
use pyfastipc.History.Log.{Models, newest, Stored, Logged}
use pyfastipc.History.Racing.{get_latest_racing}
use pyfastipc.History.Overlap.{Harmless, InSlot, Lasting, Lasting-Harmless, Lasting-count}
use pyfastipc.History.Untorn.{racing_stored}
use pyfastipc.History.Writers.{
  Traffic, Deed, calls, waits, enters, reads, stores, filled, loads, counts, releases, returns,
  wakes, wakes_nobody, ends, Goes, here, next, quiet_traffic,
}
use pyfastipc.History.Serial.{Any, Doing, IsSerial}
use pyfastipc.History.Filling.{next_Harmless}
use pyfastipc.History.Publishers.{log_grows, Goes-IsSerial, quiet-IsSerial, latest_newest}

Harmless-weaken : (n k a b j : ℕ) (w : Write) → a ≤ b → Harmless n k a j w → Harmless n k b j w
Harmless-weaken n k a b j w le (inl h) = inl h
Harmless-weaken n k a b j w le (inr (less, low, high)) = inr (omega arith, low, high)

module _ (size n k : ℕ) (some_slots : 0 < n) (fits : slot_at k n ≤ size) (k_small : k < 2 ^ 64)
    (total : ℕ) where
  -- No step changes a byte that none of the messages up to the next one will replace.
  Deed-kept :
      {s t : Traffic} (x : ℕ)
      → Deed size s t
      → IsSerial n k s
      → length s.log + 1 < 2 ^ 63
      → length s.log + 1 ≤ total
      → Lasting n k total Any s.log x
      → t.mem x ≡ s.mem x
  Deed-kept x (calls p writer payload pos out fit e) serial small few l = ap (λ a. a.mem x) e
  Deed-kept x (waits p c writer payload pos at wait e) serial small few l = ap (λ a. a.mem x) e
  Deed-kept x (enters p writer payload at held e) serial small few l = ap (λ a. a.mem x) e
  Deed-kept x (reads p writer payload at e) serial small few l = ap (λ a. a.mem x) e
  Deed-kept {s} x (stores p payload w left all_fit at e) serial small few l =
      let d = subst (Doing n k s.log s.mem) at (serial.doing p) in
      let h =
        next_Harmless size n k some_slots fits k_small s.log payload w left all_fit s.mem small d in
      ap (λ a. a.mem x) e
      ∙ Lasting-Harmless n k total Any s.log w s.mem x
          (Harmless-weaken n k (length s.log + 1) total (length s.log) w few h) l
  Deed-kept x (filled p payload all_fit at e) serial small few l = ap (λ a. a.mem x) e
  Deed-kept x (loads p payload at e) serial small few l = ap (λ a. a.mem x) e
  Deed-kept {s} x (counts p payload count at e) serial small few l =
      ap (λ a. a.mem x) e ∙ Lasting-count n k total Any s.log count s.mem x l
  Deed-kept x (releases p pos at e) serial small few l = ap (λ a. a.mem x) e
  Deed-kept x (returns p now pos at e) serial small few l = ap (λ a. a.mem x) e
  Deed-kept x (wakes p r w a e) serial small few l = ap (λ a. a.mem x) e
  Deed-kept x (wakes_nobody p w a e) serial small few l = ap (λ a. a.mem x) e
  Deed-kept x (ends p at finished e) serial small few l = ap (λ a. a.mem x) e

  Lasting-longer :
      (log log' : List (List ℕ)) (x : ℕ)
      → length log ≤ length log'
      → Lasting n k total Any log x
      → Lasting n k total Any log' x
  Lasting-longer log log' x le (inl low) = inl low
  Lasting-longer log log' x le (inr (i, less, far, inside)) = inr (i, omega arith, far, inside)

  logs_grow : {s t : Traffic} → Goes size s t → length s.log ≤ length t.log
  logs_grow here = omega arith
  logs_grow (next g deed) =
      omega (arith, logs_grow g, log_grows size n k some_slots fits k_small deed)

  Goes-kept :
      {s t : Traffic} (x : ℕ)
      → Goes size s t
      → IsSerial n k s
      → length t.log + 1 < 2 ^ 63
      → length t.log + 1 ≤ total
      → Lasting n k total Any s.log x
      → t.mem x ≡ s.mem x
  Goes-kept x here serial small few l = refl
  Goes-kept {s} x (next {t = u} g deed) serial small few l =
      let less = log_grows size n k some_slots fits k_small deed in
      Deed-kept x deed (Goes-IsSerial size n k some_slots fits k_small g (omega arith) serial)
        (omega arith) (omega arith) (Lasting-longer s.log u.log x (logs_grow g) l)
      ∙ Goes-kept x g serial (omega arith) (omega arith) l

read_seen :
    (size n k : ℕ) (two : 1 < n) (fits : slot_at k n ≤ size) (k_small : k < 2 ^ 64) {s : Traffic}
    (serial : IsSerial n k s) (mems : ℕ → Mem)
    → mems 0 ≡ s.mem
    → ((i : ℕ)
        → (t : Traffic) × Goes size s t × (mems i ≡ t.mem) × (length t.log + 2 ≤ length s.log + n))
    → length s.log + n < 2 ^ 63
    → (log : List (List ℕ)) → s.log ≡ log
    → get_latest_racing size mems ≡ newest log
unfolding get_latest_racing
read_seen size n k two fits k_small {s} serial mems start later small [] e =
    let count : msg_idx_bits (mems 0) ≡ 0 =
      ap msg_idx_bits start ∙ serial.buffer.next ∙ ap length e in
    rw count refl
read_seen size n k two fits k_small {s} serial mems start later small (payload ∷ older) e =
    let id = length older in
    let long : length s.log ≡ id + 1 = ap length e ∙ omega arith in
    let stored : Stored k (id % n) payload s.mem =
      (subst (λ l. Logged n k (length s.log + 1) l s.mem) e serial.buffer.logged).0 (omega arith) in
    let same : (i x : ℕ) → (x < 32) ⊎ InSlot n k id x → mems i x ≡ s.mem x = λ i x h.
      let (t, goes, at, near) = later i in
      ap (λ a. a x) at
      ∙ Goes-kept size n k (omega arith) fits k_small (id + n) x goes serial (omega arith)
          (omega arith)
          (elim h [
            | inl low ↦ inl low
            | inr inside ↦ inr (id, omega arith, omega arith, inside)
          ]) in
    racing_stored size n k id (omega arith) fits k_small (omega arith) payload s.mem
      serial.buffer.slots serial.buffer.room (serial.buffer.next ∙ long) stored mems start same

-- A reader each of whose accesses sees the memory as it is at some point behind its first access, while
-- any number of processes publish, reads what `get_latest` alone would read at its first access: the
-- newest message of those counted by then, whole. The buffer has n slots, at least 2, inside the mapping,
-- and was free when nobody was in a call; up to the last access of the reader at most n - 2 messages are
-- counted behind the first; the size of a slot fits 64 bits and the counter 63.
pub read_among :
    (size n k : ℕ) (two : 1 < n) (fits : slot_at k n ≤ size) (k_small : k < 2 ^ 64) {s : Traffic}
    (log : List (List ℕ)) (m : Mem) (mems : ℕ → Mem)
    → Models size n k log m
    → Goes size (quiet_traffic log m) s
    → mems 0 ≡ s.mem
    → ((i : ℕ)
        → (t : Traffic) × Goes size s t × (mems i ≡ t.mem) × (length t.log + 2 ≤ length s.log + n))
    → length s.log + n < 2 ^ 63
    → (get_latest_racing size mems ≡ newest s.log) × (get_latest size s.mem ≡ newest s.log)
read_among size n k two fits k_small {s} log m mems models goes start later small =
    let serial : IsSerial n k s =
      Goes-IsSerial size n k (omega arith) fits k_small goes (omega arith)
        (quiet-IsSerial size n k (omega arith) fits k_small log m models) in
    let alone =
      latest_newest size n k (omega arith) fits k_small s.log s.mem two (omega arith)
        serial.buffer in
    (read_seen size n k two fits k_small serial mems start later small s.log refl, alone)
