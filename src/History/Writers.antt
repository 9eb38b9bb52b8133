-- ===== src/History/Writers.antt =====
-- Several processes that publish to one buffer of src/fastipc/data/named_history_buffer.py: each access
-- to the memory and each access of its mutex is a step of its own.
use pyfastipc.Base.{
  ℕ, ◌+◌, ◌<◌, ◌≡◌, ◌≢◌, Bool, true, false, ◌&&◌, not, List, [], ◌∷◌, Result, ok, err, ◌>>=◌, ltb,
  ◌==◌, if◌then◌else◌, length,
}
use pyfastipc.Memory.{Mem, Write, perform}
use pyfastipc.Primitives.Interleaved.{
  idle, holding, asleep, waking, swapping, Choice, acquire, release, advance, miss, block, stir,
  move, System, put_pc, moved, at_rest,
}
use pyfastipc.History.Header.{num_slots, slot_size, msg_idx_bits, slot_of}
use pyfastipc.History.Buffer.{Writer, get_slot_header}
use pyfastipc.History.Accesses.{field_write, slot_writes, count_write}

-- Where a process is in `publish`.
pub data Job : Type 0 where
  outside : Job
  -- in `acquire`
  calling : (writer : Writer) (payload : List ℕ) → Job
  -- before it looks for its slot; before the stores that are left, of which the last is followed by the
  -- counter or by an exception; before the load of the counter, and before its store
  reading : (writer : Writer) (payload : List ℕ) → Job
  filling : (payload : List ℕ) (left : List Write) (fits : Bool) → Job
  counting : (payload : List ℕ) → Job
  adding : (payload : List ℕ) (count : ℕ) → Job
  -- before `release`; inside it
  leaving returning : Job

pub record Traffic : Type 0 where
  pub lock : System
  pub job : ℕ → Job
  pub mem : Mem
  -- what was counted so far, the newest first
  pub log : List (List ℕ)

abbrev pub put_job : ℕ → Job → (ℕ → Job) → ℕ → Job
put_job p x job q = if q == p then x else job q

-- The choices of a process inside `acquire`.
abbrev pub is_waiting : Choice → Bool
is_waiting (advance _) = true
is_waiting miss = true
is_waiting block = true
is_waiting stir = true
is_waiting _ = false

-- an access to the mutex
abbrev pub locks : ℕ → Choice → Traffic → System
locks p c s = moved p (move p c (s.lock.pc p) s.lock.words) s.lock

module _ (size : ℕ) where
  -- The stores to the slot at `s`; the slice of the payload raises where the mapping ends before it.
  abbrev pub fill_at : Writer → List ℕ → Result ℕ → Job
  fill_at writer payload (err e) = leaving
  fill_at writer payload (ok s) =
      if ltb size (s + 64 + length payload) && not (length payload == 0)
      then filling payload
          (field_write 8 s (length payload) ∷ field_write 8 (s + 8) writer.started ∷ []) false
      else filling payload (slot_writes writer payload s) true

  -- The counter is read, with the number and the size of the slots, which nobody changes.
  unfoldable pub fetch : Writer → List ℕ → Mem → Job
  fetch writer payload m =
      fill_at writer payload
        (slot_of (msg_idx_bits m) 0 (num_slots m) >>= λ i. get_slot_header size i m)

  -- One step of the process `p`.
  pub data Deed (s t : Traffic) : Type 0 where
    -- the check of the length, and the first access of `acquire`, which raises if `p` is the owner
    calls :
        (p : ℕ) (writer : Writer) (payload : List ℕ)
        → 0 < p
        → s.job p ≡ outside
        → ltb (slot_size s.mem) (length payload) ≡ false
        → t ≡ record s {
          lock = locks p acquire s;
          job =
              put_job p (if s.lock.words.owner == p then outside else calling writer payload) s.job;
        }
        → Deed s t
    waits :
        (p : ℕ) (c : Choice) (writer : Writer) (payload : List ℕ)
        → 0 < p
        → s.job p ≡ calling writer payload
        → is_waiting c ≡ true
        → t ≡ record s { lock = locks p c s }
        → Deed s t
    enters :
        (p : ℕ) (writer : Writer) (payload : List ℕ)
        → s.job p ≡ calling writer payload
        → s.lock.pc p ≡ holding
        → t ≡ record s { job = put_job p (reading writer payload) s.job }
        → Deed s t
    reads :
        (p : ℕ) (writer : Writer) (payload : List ℕ)
        → s.job p ≡ reading writer payload
        → t ≡ record s { job = put_job p (fetch writer payload s.mem) s.job }
        → Deed s t
    stores :
        (p : ℕ) (payload : List ℕ) (w : Write) (left : List Write) (fits : Bool)
        → s.job p ≡ filling payload (w ∷ left) fits
        → t ≡ record s { job = put_job p (filling payload left fits) s.job; mem = perform w s.mem }
        → Deed s t
    filled :
        (p : ℕ) (payload : List ℕ) (fits : Bool)
        → s.job p ≡ filling payload [] fits
        → t ≡ record s { job = put_job p (if fits then counting payload else leaving) s.job }
        → Deed s t
    loads :
        (p : ℕ) (payload : List ℕ)
        → s.job p ≡ counting payload
        → t ≡ record s { job = put_job p (adding payload (msg_idx_bits s.mem)) s.job }
        → Deed s t
    counts :
        (p : ℕ) (payload : List ℕ) (count : ℕ)
        → s.job p ≡ adding payload count
        → t ≡ record s {
          job = put_job p leaving s.job;
          mem = perform (count_write count) s.mem;
          log = payload ∷ s.log;
        }
        → Deed s t
    -- `release`, which raises if `p` is not the owner
    releases :
        (p : ℕ)
        → 0 < p
        → s.job p ≡ leaving
        → t ≡ record s {
          lock = locks p release s;
          job = put_job p (if s.lock.words.owner == p then returning else outside) s.job;
        }
        → Deed s t
    returns :
        (p now : ℕ)
        → 0 < p
        → s.job p ≡ returning
        → t ≡ record s { lock = locks p (advance now) s }
        → Deed s t
    wakes :
        (p r : ℕ)
        → s.lock.pc p ≡ waking
        → s.lock.pc r ≡ asleep
        → t ≡ record s { lock = record s.lock { pc = put_pc p idle (put_pc r swapping s.lock.pc) } }
        → Deed s t
    wakes_nobody :
        (p : ℕ)
        → s.lock.pc p ≡ waking
        → ((r : ℕ) → s.lock.pc r ≢ asleep)
        → t ≡ record s { lock = record s.lock { pc = put_pc p idle s.lock.pc } }
        → Deed s t
    ends :
        (p : ℕ)
        → s.job p ≡ returning
        → s.lock.pc p ≡ idle
        → t ≡ record s { job = put_job p outside s.job }
        → Deed s t

  pub data Goes (s : Traffic) : Traffic → Type 0 where
    here : Goes s s
    next : {t u : Traffic} → Goes s t → Deed t u → Goes s u

-- A buffer with a free mutex, and nobody in a call.
abbrev pub quiet_traffic : List (List ℕ) → Mem → Traffic
quiet_traffic log m = record { lock = at_rest; job = λ _. outside; mem = m; log = log }
