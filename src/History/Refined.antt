-- ===== src/History/Refined.antt =====
-- `publish` of src/fastipc/data/named_history_buffer.py is what its steps do when nobody else acts.
use pyfastipc.Base.{
  Bool-cases, ℕ, ◌+◌, ◌%◌, ◌^◌, ◌≤◌, ◌<◌, ◌≡◌, ◌≢◌, refl, ap, sym, ◌∙◌, ◌⊎◌, inl, inr, true, false,
  List, [], ◌∷◌, ltb, ◌==◌, ==_iff, if◌then◌else◌, length, arith, ok, some,
}
use mathlib.Core.Path.{subst}
use pyfastipc.Memory.{Mem, Write, perform, replay}
use pyfastipc.Primitives.Interleaved.{
  Words, idle, holding, trying, entering, stamping, releasing, clearing, acquire, move,
}
use pyfastipc.History.Header.{slot_size, msg_idx_bits}
use pyfastipc.History.Buffer.{Writer, publish}
use pyfastipc.History.Publish.{slot_at}
use pyfastipc.History.Log.{Models}
use pyfastipc.History.Accesses.{slot_writes, count_write}
use pyfastipc.History.Writers.{
  outside, calling, filling, leaving, Traffic, put_job, fetch, locks, calls, Goes, here, next,
  quiet_traffic,
}
use pyfastipc.Memory.{put_local, put-Apart, length-to_bytes, to_bytes, replay-append}
use pyfastipc.History.Accesses.{field_write, publish_writes, lock_writes, unlock_writes}
use pyfastipc.History.Replayed.{publish-replay}
use pyfastipc.History.Serial.{msg_idx_bits-slot_writes}
use pyfastipc.History.Filling.{fetch-filling}
use pyfastipc.History.Solo.{At, lock_At}
use pyfastipc.History.Alone.{
  Run, wait_Run, return_Run, enter_Run, read_Run, stores_Run, fill_Run, count_Run, release_Run,
  end_Run,
}

-- Stores to a memory that is the same at a byte leave it the same there.
replay_local : (ws : List Write) (x : ℕ) (m m' : Mem) → m x ≡ m' x → replay ws m x ≡ replay ws m' x
replay_local [] x m m' e = e
replay_local (w ∷ ws) x m m' e =
    replay_local ws x (perform w m) (perform w m') (put_local w.place x w.bytes m m' e)

-- Behind the mutex, and before it.
abbrev pub Beyond : ℕ → Type 0
Beyond x = (x < 64) ⊎ (128 ≤ x)

mutex_store :
    (width offset v x : ℕ) (m : Mem)
    → 64 ≤ offset
    → offset + width ≤ 128
    → Beyond x
    → perform (field_write width offset v) m x ≡ m x
mutex_store width offset v x m low high b = put-Apart offset (to_bytes width v) m x (elim b [
  | inl less ↦ inl (omega arith)
  | inr more ↦ inr (omega (arith, length-to_bytes width v))
])

locked_kept : (writer : Writer) (x : ℕ) (m : Mem) → Beyond x → replay (lock_writes writer) m x ≡ m x
locked_kept writer x m b =
    mutex_store 8 80 writer.realtime x _ (omega arith) (omega arith) b
    ∙ mutex_store 4 76 writer.pid x _ (omega arith) (omega arith) b
    ∙ mutex_store 4 72 1 x m (omega arith) (omega arith) b

unlocked_kept : (x : ℕ) (m : Mem) → Beyond x → replay unlock_writes m x ≡ m x
unlocked_kept x m b =
    mutex_store 4 76 0 x _ (omega arith) (omega arith) b
    ∙ mutex_store 4 72 0 x m (omega arith) (omega arith) b

-- What `publish` leaves beyond the mutex is what its other stores leave.
publish_writes-Beyond :
    (n k id : ℕ) (writer : Writer) (payload : List ℕ) (x : ℕ) (m : Mem)
    → Beyond x
    → replay (publish_writes n k id writer payload) m x
      ≡ perform (count_write id) (replay (slot_writes writer payload (slot_at k (id % n))) m) x
publish_writes-Beyond n k id writer payload x m b =
    let slots = slot_writes writer payload (slot_at k (id % n)) in
    let m₁ = replay (lock_writes writer) m in
    ap (λ a. a x) (replay-append slots (count_write id ∷ unlock_writes) m₁)
    ∙ unlocked_kept x (perform (count_write id) (replay slots m₁)) b
    ∙ put_local 32 x (count_write id).bytes (replay slots m₁) (replay slots m)
        (replay_local slots x m₁ m (locked_kept writer x m b))

module _ (size n k : ℕ) (some_slots : 0 < n) (fits : slot_at k n ≤ size)
    (k_small : k < 2 ^ 64) where
  module _ (p : ℕ) (pos : 0 < p) (writer : Writer) (payload : List ℕ) (log : List (List ℕ))
      (m : Mem) (small : length log + 1 < 2 ^ 63) (short : length payload ≤ k)
      (models : Models size n k log m) where
    abbrev first : Traffic
    first = quiet_traffic log m

    abbrev free : Words
    free = record { word = 0; owner = 0; last = 0 }

    called_Run : Run size first p pos (calling writer payload) trying free m log
    unfolding move
    called_Run =
        let x = if 0 == p then outside else calling writer payload in
        let other : (0 == p) ≡ false = ground arith in
        let fit : ltb (slot_size m) (length payload) ≡ false = ground (arith, models.ready.room) in
        let a : At p outside idle free m log first = record {
          job = refl;
          out = λ q ne. refl;
          pc = refl;
          rest = λ q ne. refl;
          words = refl;
          mem = refl;
          listed = refl;
        } in
        let t : Traffic = record first {
          lock = locks p acquire first;
          job = put_job p x first.job;
        } in
        let b : At p (calling writer payload) trying free m log t =
          subst (λ y. At p y trying free m log t) (rw other refl)
            (lock_At p first outside x idle trying free free m log acquire (rw other refl) a) in
        (t, next here (calls p writer payload pos refl fit refl), b)

    locked_Run :
        Run size first p pos
          (calling writer payload)
          holding
          (record { word = 1; owner = p; last = writer.realtime })
          m
          log
    unfolding move
    locked_Run =
        let w : Words = record { word = 1; owner = 0; last = 0 } in
        let w' : Words = record { word = 1; owner = p; last = 0 } in
        wait_Run size first p pos writer payload stamping holding w' _ m log writer.realtime refl (
          wait_Run size first p pos writer payload entering stamping w w' m log 0 refl (
            wait_Run size first p pos writer payload trying entering free w m log 0 refl
              called_Run))

    -- the slot of the next message after the stores to it
    abbrev pub slotted : Mem
    slotted = replay (slot_writes writer payload (slot_at k (length log % n))) m

    stored_Run :
        Run size first p pos leaving holding
          (record { word = 1; owner = p; last = writer.realtime })
          (perform (count_write (length log)) slotted)
          (payload ∷ log)
    stored_Run =
        let w : Words = record { word = 1; owner = p; last = writer.realtime } in
        let slots = slot_writes writer payload (slot_at k (length log % n)) in
        let seen : fetch size writer payload m ≡ filling payload slots true =
          fetch-filling size n k some_slots fits k_small (length log) writer payload m small short
            models.ready.slots models.ready.room models.ready.next in
        let entered = enter_Run size first p pos writer payload w m log locked_Run in
        let read =
          read_Run size first p pos writer payload w m log (filling payload slots true) seen
            entered in
        let stored = stores_Run size first p pos payload slots holding w m log read in
        let count : msg_idx_bits slotted ≡ length log =
          msg_idx_bits-slot_writes (slot_at k (length log % n)) writer payload m (omega arith)
          ∙ models.ready.next in
        subst
          (λ c.
            Run size first p pos leaving holding w (perform (count_write c) slotted)
              (payload ∷ log))
          count
          (count_Run size first p pos payload w slotted log
            (fill_Run size first p pos payload w slotted log stored))

    solo_Run :
        Run size first p pos outside idle
          (record { word = 0; owner = 0; last = writer.realtime })
          (perform (count_write (length log)) slotted)
          (payload ∷ log)
    unfolding move
    solo_Run =
        let m' = perform (count_write (length log)) slotted in
        let log' = payload ∷ log in
        let w : Words = record { word = 1; owner = p; last = writer.realtime } in
        let w' : Words = record { word = 0; owner = p; last = writer.realtime } in
        let w″ : Words = record { word = 0; owner = 0; last = writer.realtime } in
        end_Run size first p pos w″ m' log' (
          return_Run size first p pos (clearing false) idle w' w″ m' log' 0 refl (
            return_Run size first p pos releasing (clearing false) w w' m' log' 0 refl
              (release_Run size first p pos writer.realtime m' log' stored_Run)))

-- What `publish` does with a message that fits, in a buffer of a log whose mutex is free, its steps can
-- do, of one process while nobody else takes any: they end with everybody outside, the mutex free and the
-- message counted, and then every byte but those of the mutex is as `publish` leaves it. The buffer has a
-- slot, its slots lie inside the mapping, their size fits 64 bits and the counter 63, and the number of the
-- process has 32 bits and is not 0.
pub publish-Goes :
    (size n k : ℕ) (some_slots : 0 < n) (fits : slot_at k n ≤ size) (k_small : k < 2 ^ 64)
    (writer : Writer) (payload : List ℕ) (log : List (List ℕ)) (m : Mem)
    → 0 < writer.pid
    → writer.pid < 2 ^ 32
    → length log + 1 < 2 ^ 63
    → length payload ≤ k
    → Models size n k log m
    → (m' : Mem) × (publish size writer payload m ≡ some (ok tt, m'))
      × ((s : Traffic) × Goes size (quiet_traffic log m) s
          × ((q : ℕ) → (s.job q ≡ outside) × (s.lock.pc q ≡ idle))
          × (s.lock.words ≡ record { word = 0; owner = 0; last = writer.realtime })
          × (s.log ≡ payload ∷ log)
          × ((x : ℕ) → Beyond x → s.mem x ≡ m' x))
publish-Goes size n k some_slots fits k_small writer payload log m pos pid_small small short
      models =
    let (s, goes, a) =
      solo_Run size n k some_slots fits k_small writer.pid pos writer payload log m small short
        models in
    (
      replay (publish_writes n k (length log) writer payload) m,
      publish-replay n k (length log) writer payload m size some_slots fits k_small small short
          models.ready pos pid_small,
      (
        s,
        goes,
        (λ q. elim (Bool-cases (q == writer.pid)) [
          | inl e ↦
              let z : q ≡ writer.pid = (==_iff q writer.pid).0 e in
              (ap s.job z ∙ a.job, ap s.lock.pc z ∙ a.pc)
          | inr e ↦ let ne : q ≢ writer.pid = ground arith in (a.out q ne, a.rest q ne)
        ]),
        a.words,
        a.listed,
        λ x b.
            ap (λ f. f x) a.mem ∙ sym (publish_writes-Beyond n k (length log) writer payload x m b),
      ),
    )
