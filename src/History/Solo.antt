-- ===== src/History/Solo.antt =====
-- `publish` of src/fastipc/data/named_history_buffer.py as steps of one process, while nobody else acts.
use pyfastipc.Base.{ℕ, ◌≡◌, ◌≢◌, refl, ap, ◌∙◌, true, false, List, ◌==◌, arith}
use pyfastipc.Memory.{Mem}
use pyfastipc.Primitives.Interleaved.{Words, Pc, idle, Choice, move, moved, put_pc}
use pyfastipc.History.Writers.{Job, outside, Traffic, put_job, locks}

pub put_at : (p : ℕ) (x : Job) (job : ℕ → Job) → put_job p x job p ≡ x
put_at p x job = let e : (p == p) ≡ true = ground arith in rw e refl

put_pc_at : (p : ℕ) (x : Pc) (pc : ℕ → Pc) → put_pc p x pc p ≡ x
put_pc_at p x pc = let e : (p == p) ≡ true = ground arith in rw e refl

-- The process `p` is at `x`, and at `c` of the mutex; all others are in no call.
pub record At (p : ℕ) (x : Job) (c : Pc) (w : Words) (m : Mem) (log : List (List ℕ)) (s : Traffic)
    : Type 0 where
  pub job : s.job p ≡ x
  pub out : (q : ℕ) → q ≢ p → s.job q ≡ outside
  pub pc : s.lock.pc p ≡ c
  pub rest : (q : ℕ) → q ≢ p → s.lock.pc q ≡ idle
  pub words : s.lock.words ≡ w
  pub mem : s.mem ≡ m
  pub listed : s.log ≡ log

module _ (p : ℕ) (s : Traffic) where
  away : (q : ℕ) → q ≢ p → (q == p) ≡ false
  away q ne = ground arith

  pub job_At :
      (x y : Job) (c : Pc) (w : Words) (m m' mem' : Mem) (log log' logs : List (List ℕ))
      → At p x c w m log s
      → mem' ≡ m'
      → logs ≡ log'
      → At p y c w m' log' (record s { job = put_job p y s.job; mem = mem'; log = logs })
  job_At x y c w m m' mem' log log' logs a e f = record {
    job = put_at p y s.job;
    out = λ q ne. let far = away q ne in rw far (a.out q ne);
    pc = a.pc;
    rest = a.rest;
    words = a.words;
    mem = e;
    listed = f;
  }

  -- No change to the memory.
  pub pass_At :
      (x y : Job) (c : Pc) (w : Words) (m : Mem) (log : List (List ℕ))
      → At p x c w m log s
      → At p y c w m log (record s { job = put_job p y s.job })
  pass_At x y c w m log a = job_At x y c w m m s.mem log log s.log a a.mem a.listed

  pub lock_At :
      (x y : Job) (b c : Pc) (v w : Words) (m : Mem) (log : List (List ℕ)) (d : Choice)
      → move p d b v ≡ (c, w)
      → At p x b v m log s
      → At p y c w m log (record s { lock = locks p d s; job = put_job p y s.job })
  lock_At x y b c v w m log d h a =
      let e : move p d (s.lock.pc p) s.lock.words ≡ (c, w) =
        ap (λ z. move p d z s.lock.words) a.pc ∙ ap (move p d b) a.words ∙ h in
      record {
        job = put_at p y s.job;
        out = λ q ne. let f = away q ne in rw f (a.out q ne);
        pc = ap (λ z. (moved p z s.lock).pc p) e ∙ put_pc_at p c s.lock.pc;
        rest = λ q ne. let f = away q ne in rw f (a.rest q ne);
        words = ap (λ z. (moved p z s.lock).words) e;
        mem = a.mem;
        listed = a.listed;
      }

  pub still_At :
      (x : Job) (b c : Pc) (v w : Words) (m : Mem) (log : List (List ℕ)) (d : Choice)
      → move p d b v ≡ (c, w)
      → At p x b v m log s
      → At p x c w m log (record s { lock = locks p d s })
  still_At x b c v w m log d h a =
      let l = lock_At x x b c v w m log d h a in
      record {
        job = a.job;
        out = a.out;
        pc = l.pc;
        rest = l.rest;
        words = l.words;
        mem = a.mem;
        listed = a.listed;
      }
