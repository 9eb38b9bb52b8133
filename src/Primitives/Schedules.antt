-- ===== src/Primitives/Schedules.antt =====
-- Processes 5 and 9 at the mutex of src/fastipc/_primitives/_primitives.c, in two orders.
use pyfastipc.Base.{ℕ, ◌<◌, ◌≡◌, ◌≢◌, ◌⊎◌, refl, true, false, List, [], ◌∷◌, arith}
use pyfastipc.Primitives.Interleaved.{
  holding, asleep, Choice, acquire, release, advance, block, move, System, Reach, here, at_rest,
}
use pyfastipc.Primitives.Exclusion.{inside, attentive, mutual_exclusion, no_lost_wakeup}
use pyfastipc.Primitives.Clobbered.{run, run-Reach, race, release_refused}

-- Process 5 has the lock, and process 9 sleeps until it is given back.
abbrev queued : List (ℕ × Choice)
queued =
    (5, acquire)
    ∷ (5, advance 1)
    ∷ (5, advance 1)
    ∷ (5, advance 1)
    ∷ (9, acquire)
    ∷ (9, advance 2)
    ∷ (9, block)
    ∷ (9, advance 2)
    ∷ (9, advance 2)
    ∷ []

queued-Reach : Reach at_rest (run queued at_rest)
queued-Reach = run-Reach queued at_rest at_rest (omega arith) here

holds_5 : inside ((run queued at_rest).pc 5) ≡ true
unfolding run move
holds_5 = refl

sleeps_9 : (run queued at_rest).pc 9 ≡ asleep
unfolding run move
sleeps_9 = refl

mutual_exclusion_example : ◌≡◌ {A = ℕ} 5 5
mutual_exclusion_example = mutual_exclusion queued-Reach 5 5 holds_5 holds_5

no_lost_wakeup_example :
    ((run queued at_rest).words.word ≡ 2)
    ⊎ ((q : ℕ) × (attentive ((run queued at_rest).pc q) ≡ true))
no_lost_wakeup_example = no_lost_wakeup queued-Reach 9 sleeps_9

abbrev after_race : System
after_race = run (race 5 9) at_rest

release_refused_example :
    Reach at_rest after_race
    × (after_race.pc 9 ≡ holding)
    × ((r : ℕ)
        → 0 < r
        → (move r release (after_race.pc r) after_race.words ≡ (after_race.pc r, after_race.words))
          × ((r ≢ 9) → inside (after_race.pc r) ≡ false))
release_refused_example =
    release_refused 5 9 (omega arith) (omega arith) (omega arith) {t = after_race} here
