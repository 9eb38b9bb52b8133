-- ===== src/History/Session.antt =====
-- A history buffer of src/fastipc/data/named_history_buffer.py from its creation on.
use native.Mathlib.Nat.{mul-le-mul_left, mul-le-mul_right}
use pyfastipc.Base.{ℕ, ◌+◌, ◌*◌, ◌^◌, ◌≤◌, ◌<◌, ◌≡◌, List, [], some, ok, length, All, arith}
use pyfastipc.Memory.{Mem}
use pyfastipc.History.Header.{meta_size, meta_space}
use pyfastipc.History.Buffer.{Writer, create, shm_size}
use pyfastipc.History.Publish.{slot_at}
use pyfastipc.History.Create.{create-Fresh}
use pyfastipc.History.Log.{Models, IsCall, publish_all, publish_all-Models, log_after}

module _ (n k : ℕ) (meta_encoded : List ℕ) (size : ℕ) (m : Mem) (some_slots : 0 < n)
    (asked : shm_size n k meta_encoded ≤ size) (size_small : size < 2 ^ 63) where
  pub slots_fit : slot_at k n ≤ size
  unfolding shm_size
  slots_fit = omega arith

  meta_fits : 128 + length meta_encoded ≤ size
  unfolding shm_size meta_space
  meta_fits = omega arith

  room_left :
      (m₁ : Mem)
      → meta_size m₁ ≡ length meta_encoded
      → slot_at k n + meta_space (meta_size m₁) ≤ size
  unfolding shm_size
  room_left m₁ e = rw e (omega arith)

  pub numbers_small : (n < 2 ^ 64) × (k < 2 ^ 64)
  numbers_small =
      let one : 1 * (64 + k) ≤ n * (64 + k) = mul-le-mul_right (64 + k) some_slots in
      let all : n * 1 ≤ n * (64 + k) = mul-le-mul_left n (omega arith) in
      (omega (arith, slots_fit), omega (arith, slots_fit))

  pub create-Models :
      (m₁ : Mem) × (create n k meta_encoded size m ≡ (ok tt, m₁)) × Models size n k [] m₁
  create-Models =
      let (n_small, k_small) = numbers_small in
      let (m₁, e₁, fresh) =
        create-Fresh size n k meta_encoded m n_small k_small (omega (arith, meta_fits)) meta_fits in
      (
        m₁,
        e₁,
        record {
          ready = fresh.ready;
          logged = tt;
          latest = fresh.empty;
          marked = fresh.marked;
          complete = room_left m₁ fresh.meta_len;
        },
      )

  -- On a mapping of the size that `create` asks for (below 2 ^ 63) or more, whatever it holds,
  -- `create` with at least one slot succeeds, and so do calls of `publish` one after the other, fewer
  -- than 2 ^ 63, by processes with numbers of 32 bits that are not 0, with messages that fit the
  -- slots. Then the buffer is that of the log of all messages: the header counts them, the last ones
  -- are in their slots, and `get_latest` reads the last one.
  pub create-publish_all :
      (calls : List (Writer × List ℕ))
      → All (IsCall k) calls
      → length calls < 2 ^ 63
      → (m₁ : Mem) × (create n k meta_encoded size m ≡ (ok tt, m₁))
        × ((m₂ : Mem) × (publish_all size calls m₁ ≡ some (ok tt, m₂))
            × Models size n k (log_after calls []) m₂)
  create-publish_all calls good few =
      let (n_small, k_small) = numbers_small in
      let (m₁, e₁, empty) = create-Models in
      let (m₂, e₂, models) =
        publish_all-Models size n k some_slots slots_fit k_small calls [] m₁ good (omega arith)
          empty in
      (m₁, e₁, (m₂, e₂, models))
