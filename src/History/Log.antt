-- ===== src/History/Log.antt =====
-- The history buffer of src/fastipc/data/named_history_buffer.py as the log of what was published:
-- the header counts the messages, the slots hold the last ones.
use native.Mathlib.Nat.{div-add-mod', mul-le-mul_right}
use native.Mathlib.Decide.{dec_lt}
use pyfastipc.Base.{
  ℕ, suc, ◌+◌, ◌*◌, ◌/◌, ◌%◌, ◌^◌, ◌≤◌, ◌<◌, ◌≡◌, ◌≢◌, refl, ap, ◌∙◌, List, [], ◌∷◌, Option, none,
  some, Result, ok, err, value_error, length, All, arith,
}
use pyfastipc.Memory.{Mem, get, of_bytes, load}
use pyfastipc.History.Buffer.{Writer, publish, get_latest}
use pyfastipc.History.Header.{magic, history_magic, meta_size, meta_space}
use pyfastipc.History.Publish.{Ready, slot_at, Published, publish-Published}

-- Slot `i` holds the message.
abbrev pub Stored : ℕ → ℕ → List ℕ → Mem → Type 0
Stored k i payload m =
    (length payload ≤ k)
    × (load 8 (slot_at k i) m ≡ length payload)
    × (get (slot_at k i + 64) (length payload) m ≡ payload)

-- Of `total` messages the last `n` are in their slots; the list has the newest first.
abbrev pub Logged : ℕ → ℕ → ℕ → List (List ℕ) → Mem → Type 0
Logged n k total [] m = Unit
Logged n k total (payload ∷ older) m =
    (total ≤ length older + n → Stored k (length older % n) payload m) × Logged n k total older m

abbrev pub newest : List (List ℕ) → Result (List ℕ)
newest [] = err value_error
newest (payload ∷ older) = ok payload

-- The memory is a history buffer of `n` slots of `k` bytes, inside a mapping of `size` bytes, to which
-- the messages of `log` were published, the newest first.
pub record Models (size n k : ℕ) (log : List (List ℕ)) (m : Mem) : Type 0 where
  pub ready : Ready n k (length log) m
  pub logged : Logged n k (length log) log m
  pub latest : get_latest size m ≡ newest log
  pub marked : magic m ≡ history_magic
  pub complete : slot_at k n + meta_space (meta_size m) ≤ size

-- Calls of `publish` one after the other, up to one that fails.
abbrev pub onward :
    (Mem → Option (Result (Unit {0}) × Mem))
    → Option (Result (Unit {0}) × Mem)
    → Option (Result (Unit {0}) × Mem)
onward next none = none
onward next (some (err e, m)) = some (err e, m)
onward next (some (ok _, m)) = next m

unfoldable pub publish_all : ℕ → List (Writer × List ℕ) → Mem → Option (Result (Unit {0}) × Mem)
publish_all size [] m = some (ok tt, m)
publish_all size ((writer, payload) ∷ calls) m =
    onward (publish_all size calls) (publish size writer payload m)

-- the log after these calls
abbrev pub log_after : List (Writer × List ℕ) → List (List ℕ) → List (List ℕ)
log_after [] log = log
log_after ((writer, payload) ∷ calls) log = log_after calls (payload ∷ log)

-- A process has a number of 32 bits that is not 0, and the message fits a slot.
abbrev pub IsCall : ℕ → Writer × List ℕ → Type 0
IsCall k (writer, payload) = (0 < writer.pid) × (writer.pid < 2 ^ 32) × (length payload ≤ k)

pub mod-ne : (a b n : ℕ) → a < b → b < a + n → a % n ≢ b % n
mod-ne a b n less near e = elim (dec_lt (a / n) (b / n)) [
  | yes further ↦
      let step : a / n * n + n ≤ b / n * n = grind arith in
      omega (arith, div-add-mod' a n, div-add-mod' b n)
  | no near ↦
      let step : b / n * n ≤ a / n * n = mul-le-mul_right n (omega arith) in
      omega (arith, div-add-mod' a n, div-add-mod' b n)
]

module _ (size n k : ℕ) (some_slots : 0 < n) (fits : slot_at k n ≤ size)
    (k_small : k < 2 ^ 64) where
  Stored-kept :
      (i id : ℕ) (payload old : List ℕ) (writer : Writer) (short : length payload ≤ k)
      (id_small : id + 1 < 2 ^ 63) (m m' : Mem)
      → Published size n k id some_slots fits k_small id_small writer payload short m m'
      → i ≢ id % n
      → Stored k i old m
      → Stored k i old m'
  Stored-kept i id payload old writer short id_small m m' p ne (le, measured, stored) = (
    le,
    ap of_bytes (p.kept i ne (slot_at k i) 8 (omega arith) (omega arith)) ∙ measured,
    p.kept i ne (slot_at k i + 64) (length old) (omega arith) (omega arith) ∙ stored,
  )

  Logged-kept :
      (log : List (List ℕ)) (id : ℕ) (payload : List ℕ) (writer : Writer)
      (short : length payload ≤ k) (id_small : id + 1 < 2 ^ 63) (m m' : Mem)
      → Published size n k id some_slots fits k_small id_small writer payload short m m'
      → length log ≤ id
      → Logged n k id log m
      → Logged n k (suc id) log m'
  Logged-kept [] id payload writer short id_small m m' p le l = tt
  Logged-kept (old ∷ older) id payload writer short id_small m m' p le (here, rest) = (
    (λ recent.
        Stored-kept (length older % n) id payload old writer short id_small m m' p
          (mod-ne (length older) id n (omega arith) (omega arith)) (here (omega arith))),
    Logged-kept older id payload writer short id_small m m' p (omega arith) rest,
  )

  pub publish-Models :
      (log : List (List ℕ)) (writer : Writer) (payload : List ℕ) (m : Mem)
      → IsCall k (writer, payload)
      → length log + 1 < 2 ^ 63
      → Models size n k log m
      → (m' : Mem) × (publish size writer payload m ≡ some (ok tt, m'))
        × Models size n k (payload ∷ log) m'
  publish-Models log writer payload m (pos, small, short) id_small models =
      let (m', e, p) =
        publish-Published size n k (length log) some_slots fits k_small id_small writer payload
          short m models.ready pos small in
      let count : length log + 1 ≡ suc (length log) = omega arith in
      (
        m',
        e,
        record {
          ready = rw (← count) p.ready;
          logged = (
            (λ recent. (short, p.measured, p.stored)),
            Logged-kept log (length log) payload writer short id_small m m' p (omega arith)
                models.logged,
          );
          latest = p.latest;
          marked = p.marked ∙ models.marked;
          complete = rw p.meta_len models.complete;
        },
      )

  -- Publishing any messages that fit the slots, one after the other, to a buffer of a log makes the
  -- buffer of the longer log: the header counts all messages, the last `n` are in their slots,
  -- `get_latest` reads the last one, and the mutex is free.
  pub publish_all-Models :
      (calls : List (Writer × List ℕ)) (log : List (List ℕ)) (m : Mem)
      → All (IsCall k) calls
      → length log + length calls < 2 ^ 63
      → Models size n k log m
      → (m' : Mem) × (publish_all size calls m ≡ some (ok tt, m'))
        × Models size n k (log_after calls log) m'
  unfolding publish_all
  publish_all-Models [] log m good small models = (m, refl, models)
  publish_all-Models ((writer, payload) ∷ calls) log m (call, good) small models =
      let (m₁, e₁, models₁) = publish-Models log writer payload m call (omega arith) models in
      let (m₂, e₂, models₂) =
        publish_all-Models calls (payload ∷ log) m₁ good (omega arith) models₁ in
      (m₂, rw (e₁, publish_all) e₂, models₂)
