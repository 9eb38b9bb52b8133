-- ===== src/Primitives/CrowdTests.antt =====
-- Processes 5, 7 and 9 at the semaphore of src/fastipc/_primitives/_primitives.c.
use pyfastipc.Base.{ℕ, ◌+◌, ◌≤◌, ◌≡◌, ◌≢◌, refl, true, false, arith}
use pyfastipc.Primitives.Semaphore.{uint32_max}
use pyfastipc.Primitives.Tally.{
  Call, resting, parked, Act, begin_wait, onward, act, Crowd, acted, acts, Goes, here, next,
  opening,
}
use pyfastipc.Primitives.Conserved.{tokens_conserved}
use pyfastipc.Primitives.Unwoken.{wakeup_lost}

abbrev one_spin : Call
one_spin = record { blocking = true; timed = false; spin = 1 }

abbrev after : ℕ → Act → Crowd → Crowd
after p a s = acted p (act a (s.stage p) s.tally) s

-- Process 5 takes one of two tokens.
abbrev taken_one : Crowd
taken_one = after 5 onward (after 5 onward (after 5 (begin_wait one_spin) (opening 2)))

taken_one-Goes : Goes (opening 2) taken_one
taken_one-Goes =
    next (next (next here (acts 5 (begin_wait one_spin) refl)) (acts 5 onward refl))
      (acts 5 onward refl)

one_left : taken_one.tally.count ≡ 1
unfolding act
one_left = refl

tokens_conserved_example :
    (taken_one.tally.count + taken_one.tally.taken ≡ 2 + taken_one.tally.added)
    × (taken_one.tally.count ≤ uint32_max)
tokens_conserved_example = tokens_conserved 2 {s = taken_one} (omega arith) taken_one-Goes

wakeup_lost_example :
    (t : Crowd) × Goes (opening 0) t
    × (t.stage 9 ≡ parked one_spin)
    × ((x : ℕ) → x ≢ 9 → t.stage x ≡ resting)
    × (t.tally.count ≡ 1 + 3)
wakeup_lost_example =
    wakeup_lost 5 9 7 (omega arith) (omega arith) (omega arith) one_spin 0 3 refl refl (omega arith)
