-- ===== src/History/Alone.antt =====
-- The steps of one process in `publish` of src/fastipc/data/named_history_buffer.py, while nobody else acts.
use pyfastipc.Base.{
  ℕ, ◌<◌, ◌≡◌, refl, ap, sym, ◌∙◌, true, List, [], ◌∷◌, ◌==◌, if◌then◌else◌, arith,
}
use mathlib.Core.Path.{subst}
use pyfastipc.Memory.{Mem, Write, perform, replay}
use pyfastipc.Primitives.Interleaved.{Words, Pc, idle, holding, releasing, release, advance, move}
use pyfastipc.History.Header.{msg_idx_bits}
use pyfastipc.History.Buffer.{Writer}
use pyfastipc.History.Accesses.{count_write}
use pyfastipc.History.Writers.{
  Job, outside, calling, reading, filling, counting, adding, leaving, returning, Traffic, put_job,
  fetch, locks, waits, enters, reads, stores, filled, loads, counts, releases, returns, ends, Goes,
  next,
}
use pyfastipc.History.Solo.{At, job_At, lock_At, still_At, pass_At}

module _ (size : ℕ) (start : Traffic) (p : ℕ) (pos : 0 < p) where
  -- Steps from `start` that end there.
  abbrev pub Run : Job → Pc → Words → Mem → List (List ℕ) → Type 0
  Run x c w m log = (s : Traffic) × Goes size start s × At p x c w m log s

  pub wait_Run :
      (writer : Writer) (payload : List ℕ) (b c : Pc) (v w : Words) (m : Mem) (log : List (List ℕ))
      (now : ℕ)
      → move p (advance now) b v ≡ (c, w)
      → Run (calling writer payload) b v m log
      → Run (calling writer payload) c w m log
  wait_Run writer payload b c v w m log now h (s, g, a) = (
    record s { lock = locks p (advance now) s },
    next g (waits p (advance now) writer payload pos a.job refl refl),
    still_At p s (calling writer payload) b c v w m log (advance now) h a,
  )

  pub return_Run :
      (b c : Pc) (v w : Words) (m : Mem) (log : List (List ℕ)) (now : ℕ)
      → move p (advance now) b v ≡ (c, w)
      → Run returning b v m log
      → Run returning c w m log
  return_Run b c v w m log now h (s, g, a) = (
    record s { lock = locks p (advance now) s },
    next g (returns p now pos a.job refl),
    still_At p s returning b c v w m log (advance now) h a,
  )

  -- The stores that are left.
  pub stores_Run :
      (payload : List ℕ) (left : List Write) (c : Pc) (w : Words) (m : Mem) (log : List (List ℕ))
      → Run (filling payload left true) c w m log
      → Run (filling payload [] true) c w (replay left m) log
  stores_Run payload [] c w m log r = r
  stores_Run payload (store ∷ left) c w m log (s, g, a) =
      let y = filling payload left true in
      stores_Run payload left c w (perform store m) log (
        record s { job = put_job p y s.job; mem = perform store s.mem },
        next g (stores p payload store left true a.job refl),
        job_At p s (filling payload (store ∷ left) true) y c w m (perform store m)
            (perform store s.mem) log log s.log a (ap (perform store) a.mem) a.listed,
      )

  pub enter_Run :
      (writer : Writer) (payload : List ℕ) (w : Words) (m : Mem) (log : List (List ℕ))
      → Run (calling writer payload) holding w m log
      → Run (reading writer payload) holding w m log
  enter_Run writer payload w m log (s, g, a) = (
    record s { job = put_job p (reading writer payload) s.job },
    next g (enters p writer payload a.job a.pc refl),
    pass_At p s (calling writer payload) (reading writer payload) holding w m log a,
  )

  pub read_Run :
      (writer : Writer) (payload : List ℕ) (w : Words) (m : Mem) (log : List (List ℕ)) (y : Job)
      → fetch size writer payload m ≡ y
      → Run (reading writer payload) holding w m log
      → Run y holding w m log
  read_Run writer payload w m log y e (s, g, a) = (
    record s { job = put_job p y s.job },
    next g (
        reads p writer payload a.job (
          ap (λ x. record s { job = put_job p x s.job })
            (sym e ∙ ap (fetch size writer payload) (sym a.mem)))),
    pass_At p s (reading writer payload) y holding w m log a,
  )

  pub fill_Run :
      (payload : List ℕ) (w : Words) (m : Mem) (log : List (List ℕ))
      → Run (filling payload [] true) holding w m log
      → Run (counting payload) holding w m log
  fill_Run payload w m log (s, g, a) = (
    record s { job = put_job p (counting payload) s.job },
    next g (filled p payload true a.job refl),
    pass_At p s (filling payload [] true) (counting payload) holding w m log a,
  )

  pub count_Run :
      (payload : List ℕ) (w : Words) (m : Mem) (log : List (List ℕ))
      → Run (counting payload) holding w m log
      → Run leaving holding w (perform (count_write (msg_idx_bits m)) m) (payload ∷ log)
  count_Run payload w m log (s, g, a) =
      let y = adding payload (msg_idx_bits s.mem) in
      let u = record s { job = put_job p y s.job } in
      let b : At p y holding w m log u = pass_At p s (counting payload) y holding w m log a in
      (
        record u {
          job = put_job p leaving u.job;
          mem = perform (count_write (msg_idx_bits s.mem)) u.mem;
          log = payload ∷ u.log;
        },
        next (next g (loads p payload a.job refl))
            (counts p payload (msg_idx_bits s.mem) b.job refl),
        job_At p u y leaving holding w m (perform (count_write (msg_idx_bits m)) m)
            (perform (count_write (msg_idx_bits s.mem)) s.mem) log (payload ∷ log) (payload ∷ s.log)
            b (ap (λ x. perform (count_write (msg_idx_bits x)) x) a.mem)
            (ap (λ l. payload ∷ l) a.listed),
      )

  pub end_Run :
      (w : Words) (m : Mem) (log : List (List ℕ))
      → Run returning idle w m log
      → Run outside idle w m log
  end_Run w m log (s, g, a) = (
    record s { job = put_job p outside s.job },
    next g (ends p a.job a.pc refl),
    pass_At p s returning outside idle w m log a,
  )

  pub release_Run :
      (last : ℕ) (m : Mem) (log : List (List ℕ))
      → Run leaving holding (record { word = 1; owner = p; last = last }) m log
      → Run returning releasing (record { word = 1; owner = p; last = last }) m log
  unfolding move
  release_Run last m log (s, g, a) =
      let w : Words = record { word = 1; owner = p; last = last } in
      let own : (p == p) ≡ true = ground arith in
      let y = if s.lock.words.owner == p then returning else outside in
      let e : y ≡ returning =
        ap (λ v. if v.owner == p then returning else outside) a.words ∙ rw own refl in
      let h : move p release holding w ≡ (releasing, w) = rw own refl in
      (
        record s { lock = locks p release s; job = put_job p y s.job },
        next g (releases p pos a.job refl),
        subst
            (λ x.
              At p x releasing w m log
                (record s { lock = locks p release s; job = put_job p y s.job }))
            e (lock_At p s leaving y holding releasing w w m log release h a),
      )
