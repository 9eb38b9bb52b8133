-- ===== src/Primitives/Clobbered.antt =====
-- The owner that `FutexMutex_release` of src/fastipc/_primitives/_primitives.c clears after it has
-- given the lock back.
use pyfastipc.Base.{
  ℕ, ◌<◌, ◌≡◌, ◌≢◌, refl, ◌⊎◌, inl, inr, Bool, true, false, Bool-cases, ◌==◌, ==_iff, List, [], ◌∷◌,
  arith,
}
use pyfastipc.Primitives.Exclusion.{inside}
use pyfastipc.Primitives.Interleaved.{
  Words, Pc, idle, holding, entering, stamping, releasing, clearing, Choice, acquire, timed_acquire,
  release, advance, move, System, moved, Step, access, wake, wake_nobody, Reach, here, next,
  at_rest,
}

-- A schedule: which process makes its next access, and with which choice.
unfoldable pub run : List (ℕ × Choice) → System → System
unfolding move
run [] s = s
run ((p, c) ∷ rest) s = run rest (moved p (move p c (s.pc p) s.words) s)

abbrev pub Live : List (ℕ × Choice) → Type 0
Live [] = Unit
Live ((p, c) ∷ rest) = (0 < p) × Live rest

pub run-Reach : (l : List (ℕ × Choice)) (s t : System) → Live l → Reach s t → Reach s (run l t)
unfolding run
run-Reach [] s t h r = r
run-Reach ((p, c) ∷ rest) s t (pos, h) r =
    run-Reach rest s (moved p (move p c (t.pc p) t.words) t) h (next r (access p c pos refl))

-- `p` takes the lock and begins to give it back; `q` takes it; `p` clears the owner.
abbrev pub race : ℕ → ℕ → List (ℕ × Choice)
race p q =
    (p, acquire)
    ∷ (p, advance 1)
    ∷ (p, advance 1)
    ∷ (p, advance 1)
    ∷ (p, release)
    ∷ (p, advance 2)
    ∷ (q, acquire)
    ∷ (q, advance 3)
    ∷ (q, advance 3)
    ∷ (q, advance 3)
    ∷ (p, advance 4)
    ∷ []

-- Where the process is neither inside the lock nor about to clear the owner.
abbrev quiet : Pc → Bool
quiet entering = false
quiet stamping = false
quiet holding = false
quiet releasing = false
quiet (clearing _) = false
quiet _ = true

-- The word is taken and the owner nobody; a process is outside the lock, or it is `q`, between its calls.
abbrev Calm : ℕ → ℕ → Pc → Type 0
Calm q r pc = (quiet pc ≡ true) ⊎ ((r ≡ q) × (pc ≡ holding))

record Stuck (q : ℕ) (s : System) : Type 0 where
  ownerless : s.words.owner ≡ 0
  taken : s.words.word ≢ 0
  calm : (r : ℕ) → Calm q r (s.pc r)

move-quiet :
    (r : ℕ) (c : Choice) (pc : Pc) (m : Words)
    → 0 < r
    → quiet pc ≡ true
    → m.owner ≡ 0
    → m.word ≢ 0
    → let (pc', m') = move r c pc m in (quiet pc' ≡ true) × (m'.owner ≡ 0) × (m'.word ≢ 0)
unfolding move
move-quiet r acquire idle m pos h o w = ground arith
move-quiet r c pc m pos h o w = ground arith

-- A holder that is not the owner keeps the lock, or begins to wait for itself.
move_holding :
    (r : ℕ) (c : Choice) (m : Words)
    → 0 < r
    → m.owner ≡ 0
    → let (pc', m') = move r c holding m in ((quiet pc' ≡ true) ⊎ (pc' ≡ holding)) × (m' ≡ m)
unfolding move
move_holding r acquire m pos o = ground arith
move_holding r timed_acquire m pos o = ground arith
move_holding r release m pos o = ground arith
move_holding r c m pos o = ground arith

move-Calm :
    (q r : ℕ) (c : Choice) (pc : Pc) (m : Words)
    → 0 < r
    → Calm q r pc
    → m.owner ≡ 0
    → m.word ≢ 0
    → let (pc', m') = move r c pc m in Calm q r pc' × (m'.owner ≡ 0) × (m'.word ≢ 0)
move-Calm q r c pc m pos (inl h) o w =
    let (h', o', w') = move-quiet r c pc m pos h o w in (inl h', o', w')
move-Calm q r c pc m pos (inr (e, h)) o w =
    let (pc', same) = move_holding r c m pos o in
    rw h (elim pc' [ inl h' ↦ inl h' | inr k ↦ inr (e, k) ], rw same o, rw same w)

Step-Stuck : {s t : System} (q : ℕ) → Stuck q s → Step s t → Stuck q t
Step-Stuck {s} q stuck (access r c pos e) =
    let (h, o, w) =
      move-Calm q r c (s.pc r) s.words pos (stuck.calm r) stuck.ownerless stuck.taken in
    rw e (record {
      ownerless = o;
      taken = w;
      calm = λ a. elim (Bool-cases (a == r)) [
        | inl z ↦ let k : a ≡ r = (==_iff a r).0 z in rw (z, k) h
        | inr z ↦ rw z (stuck.calm a)
      ];
    })
Step-Stuck {s} q stuck (wake p r e f g) = rw g (record {
  ownerless = stuck.ownerless;
  taken = stuck.taken;
  calm = λ a. ground (arith, stuck.calm a);
})
Step-Stuck {s} q stuck (wake_nobody p e f g) = rw g (record {
  ownerless = stuck.ownerless;
  taken = stuck.taken;
  calm = λ a. ground (arith, stuck.calm a);
})

Reach-Stuck : {s t : System} (q : ℕ) → Stuck q s → Reach s t → Stuck q t
Reach-Stuck q stuck here = stuck
Reach-Stuck q stuck (next r st) = Step-Stuck q (Reach-Stuck q stuck r) st

quiet-inside : (q r : ℕ) (pc : Pc) → r ≢ q → Calm q r pc → inside pc ≡ false
quiet-inside q r holding ne h = ground arith
quiet-inside q r pc ne h = ground arith

-- What a process can make of `release` there.
Calm-release :
    (q r : ℕ) (pc : Pc) (m : Words)
    → 0 < r
    → m.owner ≡ 0
    → Calm q r pc
    → move r release pc m ≡ (pc, m)
unfolding move
Calm-release q r idle m pos o h = ground arith
Calm-release q r holding m pos o h = ground arith
Calm-release q r pc m pos o h = ground arith

race_words :
    (p q : ℕ)
    → 0 < p
    → 0 < q
    → p ≢ q
    → let t = run (race p q) at_rest in
      (t.pc q ≡ holding)
      × (t.words.owner ≡ 0)
      × (t.words.word ≡ 1)
      × ((r : ℕ) → r ≢ q → quiet (t.pc r) ≡ true)
unfolding run move
race_words p q pos_p pos_q ne =
    let pp : (p == p) ≡ true = (==_iff p p).1 refl in
    let qq : (q == q) ≡ true = (==_iff q q).1 refl in
    let pq : (p == q) ≡ false = ground arith in
    let qp : (q == p) ≡ false = ground arith in
    let zp : (0 == p) ≡ false = ground arith in
    (
      simp (pp, qq, pq, qp, zp),
      simp (pp, qq, pq, qp, zp),
      simp (pp, qq, pq, qp, zp),
      λ r other.
          let rq : (r == q) ≡ false = ground arith in
          elim (Bool-cases (r == p)) [
            | inl rp ↦ simp (pp, qq, pq, qp, zp, rq, rp)
            | inr rp ↦ simp (pp, qq, pq, qp, zp, rq, rp)
          ],
    )

race-Stuck : (p q : ℕ) → 0 < p → 0 < q → p ≢ q → Stuck q (run (race p q) at_rest)
race-Stuck p q pos_p pos_q ne =
    let (holds, o, w, others) = race_words p q pos_p pos_q ne in
    record {
      ownerless = o;
      taken = λ z. absurd (omega arith);
      calm = λ r. elim (Bool-cases (r == q)) [
        | inl e ↦ let k : r ≡ q = (==_iff r q).0 e in rw k (inr (refl, holds))
        | inr n ↦ inl (others r (ground arith))
      ];
    }

-- For any two processes, whose numbers are not 0, there is an order of accesses after which one of them has
-- the mutex between its calls, and which no order of accesses undoes as long as nobody calls
-- `force_release`, which the steps leave out: whatever the calls of `acquire`, `acquire_ns`, `try_acquire`
-- and `release` of any number of processes make of it, everybody's `release` is refused and changes
-- nothing, the one's that has the mutex too, and nobody else gets in. The steps leave out as well an
-- `acquire_ns` of a process that has the mutex and is its owner.
pub release_refused :
    (p q : ℕ)
    → 0 < p
    → 0 < q
    → p ≢ q
    → {t : System} → Reach (run (race p q) at_rest) t
    → Reach at_rest (run (race p q) at_rest)
      × ((run (race p q) at_rest).pc q ≡ holding)
      × ((r : ℕ)
          → 0 < r
          → (move r release (t.pc r) t.words ≡ (t.pc r, t.words))
            × ((r ≢ q) → inside (t.pc r) ≡ false))
release_refused p q pos_p pos_q ne {t} later =
    let stuck = Reach-Stuck q (race-Stuck p q pos_p pos_q ne) later in
    let (holds, _, _, _) = race_words p q pos_p pos_q ne in
    (
      run-Reach (race p q) at_rest at_rest (omega arith) here,
      holds,
      λ r pos. (
        Calm-release q r (t.pc r) t.words pos stuck.ownerless (stuck.calm r),
        λ other. quiet-inside q r (t.pc r) other (stuck.calm r),
      ),
    )
