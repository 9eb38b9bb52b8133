-- ===== src/Primitives/Interleaved.antt =====
-- Several processes at the mutex of src/fastipc/_primitives/_primitives.c: each access of
-- `FutexMutex_acquire_fast`, `FutexMutex_acquire_ns`, `FutexMutex_try_acquire` and
-- `FutexMutex_release` to the shared words, and each call of futex, is a step of its own. Two things have
-- no step: `force_release`, which breaks the lock by design, and an `acquire_ns` of the process that has
-- the mutex and is its owner, which waits for itself (`Primitives/SelfWait`).
use pyfastipc.Base.{ℕ, ◌<◌, ◌≡◌, ◌≢◌, Bool, ◌==◌, if◌then◌else◌}

-- The words of the mutex.
pub record Words : Type 0 where
  pub word : ℕ
  pub owner : ℕ
  pub last : ℕ

-- Where a process is in the code.
pub data Pc : Type 0 where
  -- outside every call; with the mutex, between the calls
  idle holding : Pc
  -- before an exchange of 0 for 1; behind one that failed
  trying failed : Pc
  -- before the exchange for 2; before `FUTEX_WAIT`; inside it
  swapping waiting asleep : Pc
  -- before the store of the owner; before that of the time
  entering stamping : Pc
  -- before the exchange for 0; before the owner is cleared, where the exchange found a contended word
  -- or not; before `FUTEX_WAKE`
  releasing : Pc
  clearing : Bool → Pc
  waking : Pc

-- What a process does next, where the code or the environment has a choice.
pub data Choice : Type 0 where
  -- a call of `acquire`, of `acquire_ns` or `try_acquire`, of `release`
  acquire timed_acquire release : Choice
  -- the next access; `now` is the time it stores, if it does
  advance : (now : ℕ) → Choice
  -- a weak exchange fails, or the load before it finds the word taken
  miss : Choice
  -- behind a failed exchange: again, to the futex, or back with False
  spin block give_up : Choice
  -- `FUTEX_WAIT` ends without a wake
  stir : Choice

-- One access of the process `p`. A holder that is the owner gets an exception from `acquire` and False
-- from `try_acquire`; it does not call `acquire_ns`, which would wait for itself.
unfoldable pub move : ℕ → Choice → Pc → Words → Pc × Words
move p acquire idle m = if m.owner == p then (idle, m) else (trying, m)
move p timed_acquire idle m = (trying, m)
move p release idle m = if m.owner == p then (releasing, m) else (idle, m)
move p acquire holding m = if m.owner == p then (holding, m) else (trying, m)
move p timed_acquire holding m = if m.owner == p then (holding, m) else (trying, m)
move p release holding m = if m.owner == p then (releasing, m) else (holding, m)
move p (advance now) trying m =
    if m.word == 0 then (entering, record m { word = 1 }) else (failed, m)
move p miss trying m = (failed, m)
move p spin failed m = (trying, m)
move p block failed m = (swapping, m)
move p give_up failed m = (idle, m)
move p (advance now) swapping m = (if m.word == 0 then entering else waiting, record m { word = 2 })
move p (advance now) waiting m = if m.word == 2 then (asleep, m) else (swapping, m)
move p stir asleep m = (swapping, m)
move p give_up asleep m = (idle, m)
move p (advance now) entering m = (stamping, record m { owner = p })
move p (advance now) stamping m = (holding, record m { last = now })
move p (advance now) releasing m = (clearing (m.word == 2), record m { word = 0 })
move p (advance now) (clearing contended) m =
    (if contended then waking else idle, record m { owner = 0 })
move p c pc m = (pc, m)

-- All processes, by their numbers.
pub record System : Type 0 where
  pub words : Words
  pub pc : ℕ → Pc

abbrev pub put_pc : ℕ → Pc → (ℕ → Pc) → ℕ → Pc
put_pc p x pc q = if q == p then x else pc q

abbrev pub moved : ℕ → Pc × Words → System → System
moved p (x, m) s = record { words = m; pc = put_pc p x s.pc }

-- A step of the process `p`: an access, or a wake, which rouses one sleeper if there is any.
pub data Step (s t : System) : Type 0 where
  access : (p : ℕ) (c : Choice) → 0 < p → t ≡ moved p (move p c (s.pc p) s.words) s → Step s t
  wake :
      (p r : ℕ)
      → s.pc p ≡ waking
      → s.pc r ≡ asleep
      → t ≡ record s { pc = put_pc p idle (put_pc r swapping s.pc) }
      → Step s t
  wake_nobody :
      (p : ℕ)
      → s.pc p ≡ waking
      → ((r : ℕ) → s.pc r ≢ asleep)
      → t ≡ record s { pc = put_pc p idle s.pc }
      → Step s t

pub data Reach (s : System) : System → Type 0 where
  here : Reach s s
  next : {t u : System} → Reach s t → Step t u → Reach s u

-- A free mutex, and nobody in a call.
abbrev pub at_rest : System
at_rest = record { words = record { word = 0; owner = 0; last = 0 }; pc = λ _. idle }
