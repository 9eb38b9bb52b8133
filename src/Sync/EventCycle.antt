-- ===== src/Sync/EventCycle.antt =====
-- The life of an event of src/fastipc/sync/named_event.py, and what its `wait` returns.
use pyfastipc.Base.{
  ℕ, ◌≤◌, ◌≡◌, refl, Bool, true, false, List, [], ◌∷◌, some, Result, ok, ltb, arith,
}
use pyfastipc.Memory.{Mem, load, store, load-store}
use pyfastipc.Primitives.Futex.{Nap, init_word, wait_word}
use pyfastipc.Sync.NamedEvent.{init_event, set_event, clear_event, wait_event, is_set}

-- A call of `wait` at an event that is set returns False at once, however others act.
wait_of_set :
    (timed : Bool) (naps : List Nap) (m : Mem)
    → is_set m ≡ true
    → wait_event timed naps m ≡ some (ok false, m)
unfolding wait_event wait_word
wait_of_set timed [] m h = ground arith
wait_of_set timed (n ∷ naps) m h = ground arith

-- An event that is created in a segment of four bytes or more is clear. `set` sets it, whether its
-- call of futex fails or not; then `wait` returns False at once, whatever others do. `clear` clears
-- it again.
pub event_cycle :
    (size sleepers : ℕ) (fault timed : Bool) (naps : List Nap) (m : Mem)
    → 4 ≤ size
    → (m₀ : Mem) × (init_event true size m ≡ (ok tt, m₀))
      × (is_set m₀ ≡ false)
      × ((r : Result ℕ) × (m₁ : Mem) × (set_event sleepers fault m₀ ≡ (r, m₁))
          × (is_set m₁ ≡ true)
          × (wait_event timed naps m₁ ≡ some (ok false, m₁))
          × (is_set (clear_event m₁) ≡ false))
unfolding init_event init_word set_event clear_event
event_cycle size sleepers fault timed naps m h =
    let long : ltb size 4 ≡ false = ground arith in
    let m₀ = store 4 0 0 m in
    let m₁ = store 4 0 1 m₀ in
    let zero_left : load 4 0 m₀ ≡ 0 = load-store 4 0 0 m (omega arith) in
    let one_left : load 4 0 m₁ ≡ 1 = load-store 4 0 1 m₀ (omega arith) in
    let zero_again : load 4 0 (store 4 0 0 m₁) ≡ 0 = load-store 4 0 0 m₁ (omega arith) in
    let set_now : is_set m₁ ≡ true = ground (arith, one_left) in
    (
      m₀,
      rw long,
      ground (arith, zero_left),
      (_, m₁, refl, set_now, wait_of_set timed naps m₁ set_now, ground (arith, zero_again)),
    )
