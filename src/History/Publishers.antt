-- ===== src/History/Publishers.antt =====
-- Processes that publish to one buffer of src/fastipc/data/named_history_buffer.py take their turns.
use pyfastipc.Base.{
  false, both_branches, ℕ, ◌+◌, ◌^◌, ◌≤◌, ◌<◌, ◌≡◌, refl, ap, sym, ◌∙◌, true, List, [], ◌∷◌, ◌==◌,
  if◌then◌else◌, length, arith,
}
use mathlib.Core.Path.{subst}
use pyfastipc.Memory.{Mem, perform}
use pyfastipc.Primitives.Interleaved.{
  Pc, holding, move, System, put_pc, moved, Step, access, wake, wake_nobody, Reach, at_rest,
}
use pyfastipc.Primitives.Interleaved.{
  Choice, acquire, release, advance, waking, asleep, idle, swapping,
}
use pyfastipc.Primitives.Interleaved
use pyfastipc.Primitives.Exclusion.{mutual_exclusion}
use pyfastipc.History.Header.{msg_idx_bits}
use pyfastipc.History.Buffer.{get_latest}
use pyfastipc.History.Publish.{slot_at}
use pyfastipc.History.Log.{Logged, Models, newest}
use pyfastipc.History.Accesses.{count_write}
use pyfastipc.History.Overlap.{Partial}
use pyfastipc.History.Untorn.{get_latest_stored}
use pyfastipc.History.Writers.{
  outside, calling, reading, filling, counting, adding, leaving, returning, Traffic, put_job, fetch,
  locks, Deed, calls, waits, enters, reads, stores, filled, loads, counts, releases, returns, wakes,
  wakes_nobody, ends, here, next, Goes, quiet_traffic,
}
use pyfastipc.History.Serial.{
  in_body, Logged-weaken, Doing, Any, IsSerial, job_only, lock_only, access_only, mem_only,
}
use pyfastipc.History.Filling.{fetch-Doing, filled-Doing, counts-Doing, stores-Doing}

module _ (size n k : ℕ) (some_slots : 0 < n) (fits : slot_at k n ≤ size)
    (k_small : k < 2 ^ 64) where
  Deed-IsSerial :
      {s t : Traffic} → Deed size s t → length s.log + 1 < 2 ^ 63 → IsSerial n k s → IsSerial n k t
  Deed-IsSerial {s} (calls p writer payload pos out fit e) small serial =
      let x = if s.lock.words.owner == p then outside else calling writer payload in
      let short : length payload ≤ k = ground (arith, serial.buffer.room) in
      subst (IsSerial n k) (sym e) (
        job_only n k (record s { lock = locks p acquire s })
          (access_only n k s serial p acquire pos (rw out refl)) p x
          (both_branches (Doing n k s.log s.mem) (s.lock.words.owner == p) outside
            (calling writer payload) tt short)
          (λ i. absurd (
            let no =
              both_branches (λ x. in_body x ≡ false) (s.lock.words.owner == p) outside
                (calling writer payload) refl refl in
            cc)))
  Deed-IsSerial {s} (waits p c writer payload pos at wait e) small serial =
      subst (IsSerial n k) (sym e) (access_only n k s serial p c pos (rw at refl))
  Deed-IsSerial {s} (enters p writer payload at held e) small serial =
      subst (IsSerial n k) (sym e) (
        job_only n k s serial p (reading writer payload)
          (subst (Doing n k s.log s.mem) at (serial.doing p)) (λ i. held))
  Deed-IsSerial {s} (reads p writer payload at e) small serial = subst (IsSerial n k) (sym e) (
      job_only n k s serial p (fetch size writer payload s.mem)
        (fetch-Doing size n k some_slots fits k_small s.log writer payload s.mem small
          (subst (Doing n k s.log s.mem) at (serial.doing p)) serial.buffer)
        (λ i. serial.inner p (rw at refl)))
  Deed-IsSerial {s} (stores p payload w left all_fit at e) small serial =
      let (b, d) =
        stores-Doing size n k some_slots fits k_small s.log payload w left all_fit s.mem small
          serial.buffer (subst (Doing n k s.log s.mem) at (serial.doing p)) in
      subst (IsSerial n k) (sym e) (
        mem_only n k s serial p (filling payload left all_fit) (perform w s.mem) s.log (rw at refl)
          b d)
  Deed-IsSerial {s} (filled p payload all_fit at e) small serial = subst (IsSerial n k) (sym e) (
      job_only n k s serial p (if all_fit then counting payload else leaving)
        (filled-Doing size n k some_slots fits k_small s.log payload all_fit s.mem
          (subst (Doing n k s.log s.mem) at (serial.doing p)))
        (λ i. serial.inner p (rw at refl)))
  Deed-IsSerial {s} (loads p payload at e) small serial = subst (IsSerial n k) (sym e) (
      job_only n k s serial p (adding payload (msg_idx_bits s.mem))
        (serial.buffer.next, subst (Doing n k s.log s.mem) at (serial.doing p))
        (λ i. serial.inner p (rw at refl)))
  Deed-IsSerial {s} (counts p payload count at e) small serial = subst (IsSerial n k) (sym e) (
      mem_only n k s serial p leaving (perform (count_write count) s.mem) (payload ∷ s.log)
        (rw at refl)
        (counts-Doing size n k some_slots fits k_small s.log payload count s.mem small serial.buffer
          (subst (Doing n k s.log s.mem) at (serial.doing p)))
        tt)
  Deed-IsSerial {s} (releases p pos at e) small serial =
      let x = if s.lock.words.owner == p then returning else outside in
      let job : IsSerial n k (record s { job = put_job p x s.job }) =
        job_only n k s serial p x
          (both_branches (Doing n k s.log s.mem) (s.lock.words.owner == p) returning outside tt tt)
          (λ i. serial.inner p (rw at refl)) in
      subst (IsSerial n k) (sym e) (
        access_only n k (record s { job = put_job p x s.job }) job p release pos
          (ground (
            arith,
            both_branches (λ x. in_body x ≡ false) (s.lock.words.owner == p) returning outside refl
                refl,
          )))
  Deed-IsSerial {s} (returns p now pos at e) small serial =
      subst (IsSerial n k) (sym e) (access_only n k s serial p (advance now) pos (rw at refl))
  Deed-IsSerial {s} (wakes p r w a e) small serial =
      subst (IsSerial n k) (sym e)
        (lock_only n k s serial _ (wake p r w a refl) (λ q i h. ground (arith)))
  Deed-IsSerial {s} (wakes_nobody p w a e) small serial =
      subst (IsSerial n k) (sym e)
        (lock_only n k s serial _ (wake_nobody p w a refl) (λ q i h. ground (arith)))
  Deed-IsSerial {s} (ends p at done e) small serial =
      subst (IsSerial n k) (sym e) (job_only n k s serial p outside tt (λ i. absurd (cc)))

  pub log_grows : {s t : Traffic} → Deed size s t → length s.log ≤ length t.log
  log_grows (calls p writer payload pos out fit e) = omega (arith, ap (λ a. length a.log) e)
  log_grows (waits p c writer payload pos at wait e) = omega (arith, ap (λ a. length a.log) e)
  log_grows (enters p writer payload at held e) = omega (arith, ap (λ a. length a.log) e)
  log_grows (reads p writer payload at e) = omega (arith, ap (λ a. length a.log) e)
  log_grows (stores p payload w left all_fit at e) = omega (arith, ap (λ a. length a.log) e)
  log_grows (filled p payload all_fit at e) = omega (arith, ap (λ a. length a.log) e)
  log_grows (loads p payload at e) = omega (arith, ap (λ a. length a.log) e)
  log_grows (counts p payload count at e) = omega (arith, ap (λ a. length a.log) e)
  log_grows (releases p pos at e) = omega (arith, ap (λ a. length a.log) e)
  log_grows (returns p now pos at e) = omega (arith, ap (λ a. length a.log) e)
  log_grows (wakes p r w a e) = omega (arith, ap (λ a. length a.log) e)
  log_grows (wakes_nobody p w a e) = omega (arith, ap (λ a. length a.log) e)
  log_grows (ends p at done e) = omega (arith, ap (λ a. length a.log) e)

  pub Goes-IsSerial :
      {s t : Traffic} → Goes size s t → length t.log + 1 < 2 ^ 63 → IsSerial n k s → IsSerial n k t
  Goes-IsSerial here small serial = serial
  Goes-IsSerial (next g turn) small serial =
      let less = log_grows turn in
      Deed-IsSerial turn (omega arith) (Goes-IsSerial g (omega arith) serial)

  pub quiet-IsSerial :
      (log : List (List ℕ)) (m : Mem) → Models size n k log m → IsSerial n k (quiet_traffic log m)
  quiet-IsSerial log m models = record {
    reached = Interleaved.here;
    inner = λ p i. absurd (cc);
    buffer = record {
      slots = models.ready.slots;
      room = models.ready.room;
      next = models.ready.next;
      logged = Logged-weaken n k (length log) (length log + 1) log m (omega arith) models.logged;
      few = omega arith;
      listed = tt;
    };
    doing = λ p. tt;
  }

  pub latest_newest :
      (log : List (List ℕ)) (m : Mem)
      → 1 < n
      → length log + 1 < 2 ^ 63
      → Partial n k (length log + 1) Any log m
      → get_latest size m ≡ newest log
  unfolding get_latest
  latest_newest [] m two small b = rw b.next
  latest_newest (payload ∷ older) m two small b =
      get_latest_stored size n k (length older) some_slots fits k_small (omega arith) payload m
        b.slots b.room (b.next ∙ omega arith) (b.logged.0 (omega arith))

  -- Any number of processes that publish to one buffer do so one after the other, in whatever order
  -- they take their steps, an access to the memory or to the mutex at a time, and whichever of them wait,
  -- sleep, are woken or are refused: at every point at most one of them is between `acquire` and `release`,
  -- the counter is the number of the messages that were counted, `get_latest` reads the newest of them,
  -- whole, and so do the slots hold all others of the last n - 1. The buffer starts as one of n slots
  -- with a free mutex and nobody in a call; n is at least 2, the slots lie inside the mapping, their size
  -- fits 64 bits and the counter 63.
  pub publishers_serial :
      {s : Traffic} (log : List (List ℕ)) (m : Mem)
      → 1 < n
      → Models size n k log m
      → Goes size (quiet_traffic log m) s
      → length s.log + 1 < 2 ^ 63
      → ((p q : ℕ) → in_body (s.job p) ≡ true → in_body (s.job q) ≡ true → p ≡ q)
        × (msg_idx_bits s.mem ≡ length s.log)
        × (get_latest size s.mem ≡ newest s.log)
        × Logged n k (length s.log + 1) s.log s.mem
  publishers_serial {s} log m two models goes small =
      let serial = Goes-IsSerial goes small (quiet-IsSerial log m models) in
      (
        (λ p q i j.
            mutual_exclusion serial.reached p q (rw (serial.inner p i) refl)
              (rw (serial.inner q j) refl)),
        serial.buffer.next,
        latest_newest s.log s.mem two small serial.buffer,
        serial.buffer.logged,
      )
