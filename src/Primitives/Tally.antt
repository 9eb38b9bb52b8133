-- ===== src/Primitives/Tally.antt =====
-- Several processes at the semaphore of src/fastipc/_primitives/_primitives.c: each access of
-- `FutexSemaphore_wait` and `FutexSemaphore_post` to the count, and each call of futex, is a step of its
-- own.
use pyfastipc.Base.{ℕ, zero, suc, ◌+◌, ◌-◌, ◌≡◌, ◌≢◌, ◌⊎◌, Bool, ltb, ◌==◌, if◌then◌else◌}
use pyfastipc.Primitives.Semaphore.{uint32_max, wake_waiters}

-- The count, and how many tokens were added and taken so far.
pub record Tally : Type 0 where
  pub count : ℕ
  pub added : ℕ
  pub taken : ℕ

-- The arguments of a call of `FutexSemaphore_wait`; `timed` says whether there is a timeout.
pub record Call : Type 0 where
  pub blocking : Bool
  pub timed : Bool
  pub spin : ℕ

-- Where a process is in the code.
pub data Stage : Type 0 where
  -- outside every call
  resting : Stage
  -- before the load of `semaphore_add_tokens`; before its exchange; before so many more wakes
  adding : (add : ℕ) → Stage
  exchanging : (add cur : ℕ) → Stage
  rousing : (wakes : ℕ) → Stage
  -- before the load of a spin, with so many spins left; before the exchange of `v`
  spinning : (call : Call) (left : ℕ) → Stage
  taking : (call : Call) (left v : ℕ) → Stage
  -- before `FUTEX_WAIT`; inside it
  parking : (call : Call) → Stage
  parked : (call : Call) → Stage

-- What a process does next, where the code or the environment has a choice.
pub data Act : Type 0 where
  -- of `n`, which is below 2 ^ 64
  begin_post : (n : ℕ) → Act
  begin_wait : (call : Call) → Act
  -- the next access
  onward : Act
  -- a weak exchange fails for no reason
  slip : Act
  -- `FUTEX_WAIT` ends without a wake: by a signal or no reason; by the timeout
  stirred : Act
  expires : Act

-- behind an exchange that has added the tokens
abbrev pub behind_post : ℕ → Stage
behind_post zero = resting
behind_post (suc n) = rousing (suc n)

-- One access of a process.
unfoldable pub act : Act → Stage → Tally → Stage × Tally
unfolding wake_waiters
act (begin_post n) resting t = (if ltb uint32_max n then resting else adding n, t)
act onward (adding add) t = (
  if add == 0
      then resting
      else if ltb (uint32_max - add) t.count
      then resting
      else exchanging add t.count,
  t,
)
act onward (exchanging add cur) t =
    if t.count == cur
    then (behind_post (wake_waiters cur add), record t { count = cur + add; added = t.added + add })
    else (adding add, t)
act slip (exchanging add cur) t = (adding add, t)
act (begin_wait call) resting t = (spinning call call.spin, t)
act onward (spinning call zero) t = (if call.blocking then parking call else resting, t)
act onward (spinning call (suc left)) t =
    (if ltb 0 t.count then taking call left t.count else spinning call left, t)
act onward (taking call left v) t =
    if t.count == v
    then (resting, record t { count = v - 1; taken = t.taken + 1 })
    else (spinning call left, t)
act slip (taking call left v) t = (spinning call left, t)
act onward (parking call) t = (if t.count == 0 then parked call else spinning call call.spin, t)
act stirred (parked call) t = (spinning call call.spin, t)
act expires (parked call) t = (if call.timed then resting else parked call, t)
act a stage t = (stage, t)

-- All processes, by their numbers.
pub record Crowd : Type 0 where
  pub tally : Tally
  pub stage : ℕ → Stage

abbrev pub put_stage : ℕ → Stage → (ℕ → Stage) → ℕ → Stage
put_stage p x stage q = if q == p then x else stage q

abbrev pub acted : ℕ → Stage × Tally → Crowd → Crowd
acted p (x, t) s = record { tally = t; stage = put_stage p x s.stage }

-- A step: an access of the process `p`, or one of the wakes of its `FUTEX_WAKE`, or the end of that
-- call, when it has no wakes left or nobody sleeps.
pub data Turn (s t : Crowd) : Type 0 where
  acts : (p : ℕ) (a : Act) → t ≡ acted p (act a (s.stage p) s.tally) s → Turn s t
  rouses :
      (p r n : ℕ) (call : Call)
      → s.stage p ≡ rousing (suc n)
      → s.stage r ≡ parked call
      → t ≡ record s {
        stage = put_stage p (rousing n) (put_stage r (spinning call call.spin) s.stage);
      }
      → Turn s t
  roused_all :
      (p n : ℕ)
      → s.stage p ≡ rousing n
      → (n ≡ 0) ⊎ ((r : ℕ) (call : Call) → s.stage r ≢ parked call)
      → t ≡ record s { stage = put_stage p resting s.stage }
      → Turn s t

pub data Goes (s : Crowd) : Crowd → Type 0 where
  here : Goes s s
  next : {t u : Crowd} → Goes s t → Turn t u → Goes s u

-- A semaphore of `c` tokens, and nobody in a call.
abbrev pub opening : ℕ → Crowd
opening c = record { tally = record { count = c; added = 0; taken = 0 }; stage = λ _. resting }
