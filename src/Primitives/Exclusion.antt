-- ===== src/Primitives/Exclusion.antt =====
-- What holds in every state that processes reach at the mutex of
-- src/fastipc/_primitives/_primitives.c, whatever the order of their accesses.
use pyfastipc.Base.{
  ℕ, ◌<◌, ◌≡◌, ◌≢◌, refl, sym, ap, ◌∙◌, ◌⊎◌, inl, inr, Bool, true, false, Bool-cases, ◌==◌, ==_iff,
  arith,
}
use pyfastipc.Primitives.Interleaved.{
  Words, Pc, idle, holding, trying, failed, swapping, waiting, asleep, entering, stamping,
  releasing, clearing, waking, Choice, acquire, timed_acquire, release, advance, miss, spin, block,
  give_up, stir, move, System, put_pc, moved, Step, access, wake, wake_nobody, Reach, here, next,
  at_rest,
}

-- From the exchange that takes the lock to the one that gives it back.
abbrev pub inside : Pc → Bool
inside entering = true
inside stamping = true
inside holding = true
inside releasing = true
inside _ = false

-- Where the owner can be the process.
abbrev pub owns : Pc → Bool
owns stamping = true
owns holding = true
owns releasing = true
owns (clearing _) = true
owns _ = false

-- Where the process is about to look at the sleepers' word, or to wake one of them.
abbrev pub attentive : Pc → Bool
attentive swapping = true
attentive (clearing true) = true
attentive waking = true
attentive _ = false

-- One access, for the process that makes it, where the lock and the owner were as they should.
record Fair (p : ℕ) (pc : Pc) (m : Words) (pc' : Pc) (m' : Words) : Type 0 where
  enters : inside pc' ≡ true → (inside pc ≡ true) ⊎ (m.word ≡ 0)
  locks : inside pc' ≡ true → m'.word ≢ 0
  frees : m'.word ≡ 0 → (m.word ≡ 0) ⊎ (inside pc ≡ true)
  marks : m'.owner ≡ p → owns pc' ≡ true
  others : (m'.owner ≡ m.owner) ⊎ (m'.owner ≡ p) ⊎ (m'.owner ≡ 0)
  sleeps : pc' ≡ asleep → (m'.word ≡ 2) ⊎ (pc ≡ asleep)
  calls : m.word ≡ 2 → (m'.word ≡ 2) ⊎ (attentive pc' ≡ true)
  stays : attentive pc ≡ true → (m'.word ≡ 2) ⊎ (attentive pc' ≡ true)

move-Fair :
    (p : ℕ) (c : Choice) (pc : Pc) (m : Words)
    → 0 < p
    → (inside pc ≡ true → m.word ≢ 0)
    → (m.owner ≡ p → owns pc ≡ true)
    → let (pc', m') = move p c pc m in Fair p pc m pc' m'
unfolding move
move-Fair p acquire idle m pos locked marked = ground arith
move-Fair p timed_acquire idle m pos locked marked = ground arith
move-Fair p release idle m pos locked marked = ground arith
move-Fair p acquire holding m pos locked marked = ground arith
move-Fair p timed_acquire holding m pos locked marked = ground arith
move-Fair p release holding m pos locked marked = ground arith
move-Fair p (advance now) trying m pos locked marked = ground arith
move-Fair p miss trying m pos locked marked = ground arith
move-Fair p spin failed m pos locked marked = ground arith
move-Fair p block failed m pos locked marked = ground arith
move-Fair p give_up failed m pos locked marked = ground arith
move-Fair p (advance now) swapping m pos locked marked = ground arith
move-Fair p (advance now) waiting m pos locked marked = ground arith
move-Fair p stir asleep m pos locked marked = ground arith
move-Fair p give_up asleep m pos locked marked = ground arith
move-Fair p (advance now) entering m pos locked marked = ground arith
move-Fair p (advance now) stamping m pos locked marked = ground arith
move-Fair p (advance now) releasing m pos locked marked = ground arith
move-Fair p (advance now) (clearing contended) m pos locked marked = ground arith
move-Fair p c pc m pos locked marked = ground arith

-- The invariant of all processes.
pub record Sound (s : System) : Type 0 where
  pub unique : (p q : ℕ) → inside (s.pc p) ≡ true → inside (s.pc q) ≡ true → p ≡ q
  pub locked : (p : ℕ) → inside (s.pc p) ≡ true → s.words.word ≢ 0
  pub marked : (p : ℕ) → 0 < p → s.words.owner ≡ p → owns (s.pc p) ≡ true
  pub heard :
      (p : ℕ) → s.pc p ≡ asleep → (s.words.word ≡ 2) ⊎ ((q : ℕ) × (attentive (s.pc q) ≡ true))

at_rest-Sound : Sound at_rest
at_rest-Sound = record {
  unique = λ p q a b. cc;
  locked = λ p a. cc;
  marked = λ p pos e. absurd (omega arith);
  heard = λ p e. cc;
}

module _ (p : ℕ) (s : System) (pc' : Pc) (m' : Words) (sound : Sound s)
    (fair : Fair p (s.pc p) s.words pc' m') where
  abbrev after : System
  after = moved p (pc', m') s

  mover : after.pc p ≡ pc'
  mover = rw ((==_iff p p).1 refl)

  stander : (q : ℕ) → (q == p) ≡ false → after.pc q ≡ s.pc q
  stander q e = rw e

  moved_unique : (a b : ℕ) → inside (after.pc a) ≡ true → inside (after.pc b) ≡ true → a ≡ b
  moved_unique a b i j = elim (Bool-cases (a == p)) [
    | inl e ↦ elim (Bool-cases (b == p)) [
      | inl f ↦ ground arith
      | inr f ↦ ground (arith, fair.enters, sound.unique p b, sound.locked b)
    ]
    | inr e ↦ elim (Bool-cases (b == p)) [
      | inl f ↦ ground (arith, fair.enters, sound.unique a p, sound.locked a)
      | inr f ↦ ground (arith, sound.unique a b)
    ]
  ]

  moved-locked : (a : ℕ) → inside (after.pc a) ≡ true → m'.word ≢ 0
  moved-locked a i = elim (Bool-cases (a == p)) [
    | inl e ↦ ground (arith, fair.locks)
    | inr e ↦ ground (arith, fair.frees, sound.locked a, sound.unique a p)
  ]

  moved-marked : (a : ℕ) → 0 < a → m'.owner ≡ a → owns (after.pc a) ≡ true
  moved-marked a pos o = elim (Bool-cases (a == p)) [
    | inl e ↦ ground (arith, fair.marks)
    | inr e ↦ ground (arith, fair.others, sound.marked a)
  ]

  -- Somebody attentive stays so, or has set the word to 2.
  heard_still :
      (q : ℕ)
      → attentive (s.pc q) ≡ true
      → (m'.word ≡ 2) ⊎ ((r : ℕ) × (attentive (after.pc r) ≡ true))
  heard_still q h = elim (Bool-cases (q == p)) [
    | inl e ↦ elim (fair.stays (ground (arith, h))) [
      | inl two ↦ inl two
      | inr a ↦ inr (p, rw mover a)
    ]
    | inr e ↦ inr (q, rw (stander q e) h)
  ]

  heard_of_two : s.words.word ≡ 2 → (m'.word ≡ 2) ⊎ ((r : ℕ) × (attentive (after.pc r) ≡ true))
  heard_of_two two = elim (fair.calls two) [ inl e ↦ inl e | inr a ↦ inr (p, rw mover a) ]

  heard_after :
      (a : ℕ) → s.pc a ≡ asleep → (m'.word ≡ 2) ⊎ ((r : ℕ) × (attentive (after.pc r) ≡ true))
  heard_after a e = elim (sound.heard a e) [
    | inl two ↦ heard_of_two two
    | inr (q, h) ↦ heard_still q h
  ]

  moved-heard :
      (a : ℕ) → after.pc a ≡ asleep → (m'.word ≡ 2) ⊎ ((r : ℕ) × (attentive (after.pc r) ≡ true))
  moved-heard a e = elim (Bool-cases (a == p)) [
    | inr other ↦ heard_after a (sym (stander a other) ∙ e)
    | inl same ↦
        let q : a ≡ p = (==_iff a p).0 same in
        elim (fair.sleeps (sym mover ∙ (ap after.pc (sym q) ∙ e))) [
          | inl two ↦ inl two
          | inr before ↦ heard_after p before
        ]
  ]

  moved-Sound : Sound after
  moved-Sound = record {
    unique = moved_unique;
    locked = moved-locked;
    marked = moved-marked;
    heard = moved-heard;
  }

-- A process that wakes another one, or nobody.
waking_done :
    (s : System) (p : ℕ)
    → s.pc p ≡ waking
    → Sound s
    → ((r : ℕ) → s.pc r ≢ asleep)
    → Sound (record s { pc = put_pc p idle s.pc })
waking_done s p e sound nobody = record {
  unique = λ a b i j. ground (arith, sound.unique a b);
  locked = λ a i. ground (arith, sound.locked a);
  marked = λ a pos o. ground (arith, sound.marked a);
  heard = λ a h. ground (arith, nobody a);
}

waking_one :
    (s : System) (p r : ℕ)
    → s.pc p ≡ waking
    → s.pc r ≡ asleep
    → Sound s
    → Sound (record s { pc = put_pc p idle (put_pc r swapping s.pc) })
waking_one s p r e f sound = record {
  unique = λ a b i j. ground (arith, sound.unique a b);
  locked = λ a i. ground (arith, sound.locked a);
  marked = λ a pos o. ground (arith, sound.marked a);
  heard = λ a h. inr (r, ground arith);
}

Step-Sound : {s t : System} → Step s t → Sound s → Sound t
Step-Sound {s} (access p c pos e) sound = rw e (
    moved-Sound p s (move p c (s.pc p) s.words).0 (move p c (s.pc p) s.words).1 sound
      (move-Fair p c (s.pc p) s.words pos (sound.locked p) (sound.marked p pos)))
Step-Sound {s} (wake p r e f g) sound = rw g (waking_one s p r e f sound)
Step-Sound {s} (wake_nobody p e f g) sound = rw g (waking_done s p e sound f)

pub Reach-Sound : {s : System} → Reach at_rest s → Sound s
Reach-Sound here = at_rest-Sound
Reach-Sound (next r st) = Step-Sound st (Reach-Sound r)

-- Two processes are never inside the lock together, from the exchange that takes it to the one that
-- gives it back, whatever the order of the accesses of any number of processes, which wait, spin,
-- give up, and call `release` with or without the mutex.
pub mutual_exclusion :
    {s : System}
    → Reach at_rest s
    → (p q : ℕ) → inside (s.pc p) ≡ true
    → inside (s.pc q) ≡ true
    → p ≡ q
mutual_exclusion r p q i j = (Reach-Sound r).unique p q i j

-- No wakeup is lost: while a process sleeps, the word is 2, so that the next release wakes a sleeper,
-- or some process is on its way to set the word to 2 or to wake a sleeper.
pub no_lost_wakeup :
    {s : System}
    → Reach at_rest s
    → (p : ℕ) → s.pc p ≡ asleep
    → (s.words.word ≡ 2) ⊎ ((q : ℕ) × (attentive (s.pc q) ≡ true))
no_lost_wakeup r p e = (Reach-Sound r).heard p e
