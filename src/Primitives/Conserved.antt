-- ===== src/Primitives/Conserved.antt =====
-- No token of the semaphore in src/fastipc/_primitives/_primitives.c is lost or made up, in any order of
-- the accesses.
use pyfastipc.Base.{
  ℕ, zero, suc, ◌+◌, ◌-◌, ◌≤◌, ◌<◌, ◌≡◌, refl, inl, inr, Bool-cases, ltb, ◌==◌, arith,
}
use pyfastipc.Primitives.Semaphore.{uint32_max}
use pyfastipc.Primitives.Tally.{
  Tally, Stage, resting, adding, exchanging, rousing, spinning, taking, parking, parked, Act,
  begin_post, begin_wait, onward, slip, stirred, expires, behind_post, act, Crowd, put_stage, Turn,
  acts, rouses, roused_all, Goes, here, next, opening,
}

-- What a process knows of the numbers it has read.
abbrev Fits : Stage → Type 0
Fits (adding add) = add ≤ uint32_max
Fits (exchanging add cur) = cur + add ≤ uint32_max
Fits (taking call left v) = 0 < v
Fits _ = Unit

-- The tokens that are there and those that were taken are those of the beginning and those added.
pub record IsBalanced (c : ℕ) (t : Tally) : Type 0 where
  pub sum : t.count + t.taken ≡ c + t.added
  pub small : t.count ≤ uint32_max

behind_post-Fits : (n : ℕ) → Fits (behind_post n)
behind_post-Fits zero = tt
behind_post-Fits (suc n) = tt

act-IsBalanced :
    (c : ℕ) (a : Act) (stage : Stage) (t : Tally)
    → Fits stage
    → IsBalanced c t
    → let (stage', t') = act a stage t in Fits stage' × IsBalanced c t'
unfolding act
act-IsBalanced c (begin_post n) resting t f b = elim (Bool-cases (ltb uint32_max n)) [
  | inl big ↦ rw big (tt, b)
  | inr fine ↦ rw fine (ground arith, b)
]
act-IsBalanced c onward (adding add) t f b = elim (Bool-cases (add == 0)) [
  | inl nothing ↦ rw nothing (tt, b)
  | inr more ↦ elim (Bool-cases (ltb (uint32_max - add) t.count)) [
    | inl big ↦ rw (more, big) (tt, b)
    | inr fine ↦ rw (more, fine) (ground arith, b)
  ]
]
act-IsBalanced c onward (exchanging add cur) t f b = elim (Bool-cases (t.count == cur)) [
  | inl same ↦ rw same (behind_post-Fits _, record { sum = ground (arith, b.sum); small = f })
  | inr other ↦ rw other (omega arith, b)
]
act-IsBalanced c onward (spinning call zero) t f b = elim (Bool-cases call.blocking) [
  | inl set ↦ rw set (tt, b)
  | inr unset ↦ rw unset (tt, b)
]
act-IsBalanced c onward (spinning call (suc left)) t f b = elim (Bool-cases (ltb 0 t.count)) [
  | inl set ↦ rw set (ground arith, b)
  | inr unset ↦ rw unset (tt, b)
]
act-IsBalanced c onward (taking call left v) t f b = elim (Bool-cases (t.count == v)) [
  | inl same ↦ rw same (tt, record { sum = ground (arith, b.sum); small = ground (arith, b.small) })
  | inr other ↦ rw other (tt, b)
]
act-IsBalanced c onward (parking call) t f b = elim (Bool-cases (t.count == 0)) [
  | inl set ↦ rw set (tt, b)
  | inr unset ↦ rw unset (tt, b)
]
act-IsBalanced c expires (parked call) t f b = elim (Bool-cases call.timed) [
  | inl set ↦ rw set (tt, b)
  | inr unset ↦ rw unset (tt, b)
]
act-IsBalanced c slip (exchanging add cur) t f b = (omega arith, b)
act-IsBalanced c (begin_wait call) resting t f b = (tt, b)
act-IsBalanced c stirred (parked call) t f b = (tt, b)
act-IsBalanced c slip (taking call left v) t f b = (tt, b)
act-IsBalanced c a stage t f b = (f, b)

-- The tokens balance, and every process fits.
record IsSettled (c : ℕ) (s : Crowd) : Type 0 where
  balanced : IsBalanced c s.tally
  fitting : (p : ℕ) → Fits (s.stage p)

put_stage-Fits :
    (p : ℕ) (x : Stage) (stage : ℕ → Stage)
    → Fits x
    → ((q : ℕ) → Fits (stage q))
    → (q : ℕ) → Fits (put_stage p x stage q)
put_stage-Fits p x stage h all q = elim (Bool-cases (q == p)) [
  | inl same ↦ rw same h
  | inr other ↦ rw other (all q)
]

Turn-IsSettled : {s t : Crowd} (c : ℕ) → IsSettled c s → Turn s t → IsSettled c t
Turn-IsSettled {s} c w (acts p a e) =
    let (f, b) = act-IsBalanced c a (s.stage p) s.tally (w.fitting p) w.balanced in
    rw e (record { balanced = b; fitting = put_stage-Fits p _ s.stage f w.fitting })
Turn-IsSettled {s} c w (rouses p r n call e g h) = rw h (record {
  balanced = w.balanced;
  fitting =
      put_stage-Fits p (rousing n) _ tt
        (put_stage-Fits r (spinning call call.spin) s.stage tt w.fitting);
})
Turn-IsSettled {s} c w (roused_all p n e g h) =
    rw h (record { balanced = w.balanced; fitting = put_stage-Fits p resting s.stage tt w.fitting })

Goes-IsSettled : {s t : Crowd} (c : ℕ) → IsSettled c s → Goes s t → IsSettled c t
Goes-IsSettled c w here = w
Goes-IsSettled c w (next g turn) = Turn-IsSettled c (Goes-IsSettled c w g) turn

-- In every order of the accesses of any number of processes, which post, wait, spin, sleep and give up,
-- from a semaphore of `c` tokens, the tokens that are there and those that were taken are together the
-- `c` and those that were added, and the count fits 32 bits, if `c` does.
pub tokens_conserved :
    (c : ℕ) {s : Crowd}
    → c ≤ uint32_max
    → Goes (opening c) s
    → (s.tally.count + s.tally.taken ≡ c + s.tally.added) × (s.tally.count ≤ uint32_max)
tokens_conserved c small g =
    let begun : IsSettled c (opening c) = record {
      balanced = record { sum = refl; small = small };
      fitting = λ _. tt;
    } in
    let w = Goes-IsSettled c begun g in (w.balanced.sum, w.balanced.small)
