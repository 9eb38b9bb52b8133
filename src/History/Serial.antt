-- ===== src/History/Serial.antt =====
-- One step of the processes that publish to one buffer of src/fastipc/data/named_history_buffer.py.
use pyfastipc.Base.{
  ℕ, ◌+◌, ◌%◌, ◌^◌, ◌≤◌, ◌<◌, ◌≡◌, refl, ap, sym, ◌∙◌, inl, inr, Bool, true, false, Bool-cases,
  List, [], ◌∷◌, ◌++◌, ◌==◌, ==_iff, if◌then◌else◌, length, arith,
}
use mathlib.Core.Path.{subst}
use pyfastipc.Memory.{
  Mem, put, of_bytes, store, get-put, get-put-Apart, get-store-Apart, load-store, load-store-Apart,
  Write, replay, replay-append,
}
use pyfastipc.Primitives.Interleaved.{Choice, holding, System, Step, access, Reach, at_rest}
use pyfastipc.Primitives.Exclusion.{mutual_exclusion}
use pyfastipc.History.Header.{msg_idx_bits}
use pyfastipc.History.Buffer.{Writer}
use pyfastipc.History.Publish.{slot_at}
use pyfastipc.History.Log.{Stored, Logged}
use pyfastipc.History.Accesses.{slot_writes}
use pyfastipc.History.Overlap.{Partial}
use pyfastipc.History.Writers.{
  Job, outside, calling, reading, filling, counting, adding, leaving, returning, Traffic, put_job,
  locks,
}

-- Behind `acquire`, and before `release`.
abbrev pub in_body : Job → Bool
in_body (reading _ _) = true
in_body (filling _ _ _) = true
in_body (counting _) = true
in_body (adding _ _) = true
in_body leaving = true
in_body _ = false

-- the slot at `s` after the stores to it
pub replay-slot_writes_at :
    (s : ℕ) (writer : Writer) (payload : List ℕ) (m : Mem)
    → replay (slot_writes writer payload s) m
      ≡ store 8
          (s + 16)
          writer.ended
          (put (s + 64) payload (store 8 (s + 8) writer.started (store 8 s (length payload) m)))
replay-slot_writes_at s writer payload m =
    let m₂ = store 8 (s + 8) writer.started (store 8 s (length payload) m) in
    replay-append (writer.copy.stores (s + 64) payload) _ m₂
    ∙ ap (store 8 (s + 16) writer.ended) (writer.copy.same (s + 64) payload m₂)

-- They leave the counter alone.
pub msg_idx_bits-slot_writes :
    (s : ℕ) (writer : Writer) (payload : List ℕ) (m : Mem)
    → 128 ≤ s
    → msg_idx_bits (replay (slot_writes writer payload s) m) ≡ msg_idx_bits m
msg_idx_bits-slot_writes s writer payload m low =
    ap msg_idx_bits (replay-slot_writes_at s writer payload m)
    ∙ load-store-Apart 8 32 8 (s + 16) writer.ended _ (inl (omega arith))
    ∙ ap of_bytes (get-put-Apart 32 8 (s + 64) payload _ (inl (omega arith)))
    ∙ load-store-Apart 8 32 8 (s + 8) writer.started _ (inl (omega arith))
    ∙ load-store-Apart 8 32 8 s (length payload) m (inl (omega arith))

-- They put the message into it.
pub slot_writes-Stored :
    (k i : ℕ) (writer : Writer) (payload : List ℕ) (m : Mem)
    → length payload ≤ k
    → k < 2 ^ 64
    → Stored k i payload (replay (slot_writes writer payload (slot_at k i)) m)
slot_writes-Stored k i writer payload m short small =
    let s = slot_at k i in
    subst (λ a. Stored k i payload a) (sym (replay-slot_writes_at s writer payload m))
      (
        short,
        load-store-Apart 8 s 8 (s + 16) writer.ended _ (inl (omega arith))
            ∙ ap of_bytes (get-put-Apart s 8 (s + 64) payload _ (inl (omega arith)))
            ∙ load-store-Apart 8 s 8 (s + 8) writer.started _ (inl (omega arith))
            ∙ load-store 8 s (length payload) m (omega arith),
        get-store-Apart (s + 64) (length payload) 8 (s + 16) writer.ended _ (inr (omega arith))
            ∙ get-put (s + 64) payload _,
      )

pub Logged-weaken :
    (n k a b : ℕ) (log : List (List ℕ)) (m : Mem) → a ≤ b → Logged n k a log m → Logged n k b log m
Logged-weaken n k a b [] m le l = tt
Logged-weaken n k a b (payload ∷ older) m le (newer, rest) =
    (λ far. newer (omega arith), Logged-weaken n k a b older m le rest)

-- What is true of the memory where a process is in `publish`.
abbrev pub Doing : ℕ → ℕ → List (List ℕ) → Mem → Job → Type 0
Doing n k log m (calling writer payload) = length payload ≤ k
Doing n k log m (reading writer payload) = length payload ≤ k
Doing n k log m (filling payload left fits) =
    (fits ≡ true)
    × (length payload ≤ k)
    × ((writer : Writer) × (done : List Write) × (begun : Mem) × (done ++ left
          ≡ slot_writes writer payload (slot_at k (length log % n)))
        × (m ≡ replay done begun))
Doing n k log m (counting payload) = Stored k (length log % n) payload m
Doing n k log m (adding payload count) = (count ≡ length log) × Stored k (length log % n) payload m
Doing n k log m _ = Unit

Doing-outside :
    (n k : ℕ) (log log' : List (List ℕ)) (m m' : Mem) (job : Job)
    → in_body job ≡ false
    → Doing n k log m job
    → Doing n k log' m' job
Doing-outside n k log log' m m' outside h d = d
Doing-outside n k log log' m m' (calling writer payload) h d = d
Doing-outside n k log log' m m' (reading writer payload) h d = d
Doing-outside n k log log' m m' (filling payload left fits) h d = absurd (cc)
Doing-outside n k log log' m m' (counting payload) h d = absurd (cc)
Doing-outside n k log log' m m' (adding payload count) h d = absurd (cc)
Doing-outside n k log log' m m' leaving h d = d
Doing-outside n k log log' m m' returning h d = d

abbrev pub Any : List (List ℕ) → Type 0
Any log = Unit

-- The processes, where no two are behind `acquire`, and the buffer, as it is at each point.
pub record IsSerial (n k : ℕ) (s : Traffic) : Type 0 where
  pub reached : Reach at_rest s.lock
  pub inner : (p : ℕ) → in_body (s.job p) ≡ true → s.lock.pc p ≡ holding
  pub buffer : Partial n k (length s.log + 1) Any s.log s.mem
  pub doing : (p : ℕ) → Doing n k s.log s.mem (s.job p)

module _ (n k : ℕ) (s : Traffic) (serial : IsSerial n k s) where
  alone : (p q : ℕ) → in_body (s.job p) ≡ true → (q == p) ≡ false → in_body (s.job q) ≡ false
  alone p q i ne = elim (Bool-cases (in_body (s.job q))) [
    | inr out ↦ out
    | inl j ↦
        let both : p ≡ q =
          mutual_exclusion serial.reached p q (rw (serial.inner p i) refl)
            (rw (serial.inner q j) refl) in
        absurd (let no : (q == p) ≡ true = ground arith in cc)
  ]

  -- A process goes on, and nothing else changes.
  pub job_only :
      (p : ℕ) (x : Job)
      → Doing n k s.log s.mem x
      → (in_body x ≡ true → s.lock.pc p ≡ holding)
      → IsSerial n k (record s { job = put_job p x s.job })
  job_only p x d h = record {
    reached = serial.reached;
    inner = λ q i. elim (Bool-cases (q == p)) [
      | inl e ↦
          let z : q ≡ p = (==_iff q p).0 e in
          rw z (h (subst (λ b. in_body (if b then x else s.job q) ≡ true) e i))
      | inr e ↦ serial.inner q (subst (λ b. in_body (if b then x else s.job q) ≡ true) e i)
    ];
    buffer = serial.buffer;
    doing = λ q. elim (Bool-cases (q == p)) [ inl e ↦ rw e d | inr e ↦ rw e (serial.doing q) ];
  }

  -- The mutex changes, but for the processes behind `acquire`.
  pub lock_only :
      (l : System)
      → Step s.lock l
      → ((q : ℕ) → in_body (s.job q) ≡ true → s.lock.pc q ≡ holding → l.pc q ≡ holding)
      → IsSerial n k (record s { lock = l })
  lock_only l st h = record {
    reached = Reach.next serial.reached st;
    inner = λ q i. h q i (serial.inner q i);
    buffer = serial.buffer;
    doing = serial.doing;
  }

  -- An access to the mutex by a process that is not behind it.
  pub access_only :
      (p : ℕ) (c : Choice)
      → 0 < p
      → in_body (s.job p) ≡ false
      → IsSerial n k (record s { lock = locks p c s })
  access_only p c pos out = lock_only (locks p c s) (access p c pos refl) (λ q i h.
      elim (Bool-cases (q == p)) [
        | inl e ↦
            let z : q ≡ p = (==_iff q p).0 e in
            absurd (let no = ap (λ a. in_body (s.job a)) z in cc)
        | inr e ↦ rw e h
      ])

  -- The process behind `acquire` changes the memory.
  pub mem_only :
      (p : ℕ) (x : Job) (m : Mem) (log : List (List ℕ))
      → in_body (s.job p) ≡ true
      → Partial n k (length log + 1) Any log m
      → Doing n k log m x
      → IsSerial n k (record s { job = put_job p x s.job; mem = m; log = log })
  mem_only p x m log i b d = record {
    reached = serial.reached;
    inner = λ q j. elim (Bool-cases (q == p)) [
      | inl e ↦ let z : q ≡ p = (==_iff q p).0 e in rw z (serial.inner p i)
      | inr e ↦ serial.inner q (subst (λ b. in_body (if b then x else s.job q) ≡ true) e j)
    ];
    buffer = b;
    doing = λ q. elim (Bool-cases (q == p)) [
      | inl e ↦ rw e d
      | inr e ↦
          rw e (Doing-outside n k s.log log s.mem m (s.job q) (alone p q i e) (serial.doing q))
    ];
  }
