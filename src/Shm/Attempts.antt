-- ===== src/Shm/Attempts.antt =====
-- The attempts of `GuardedSharedMemory.__init__` in src/fastipc/guarded_shared_memory.py, under every
-- weather: what a segment that is found is like, and which descriptors stay open.
use pyfastipc.Base.{
  text_eq_refl, ℕ, ◌+◌, ◌≤◌, ◌≡◌, refl, ◌⊎◌, inl, inr, Bool, true, false, Bool-cases, List, [], ◌∷◌,
  Option, none, some, Option-cases, Result, ok, err, Error, value_error, file_not_found_error, ltb,
  Text, length, All, arith,
}
use pyfastipc.Shm.World.{World, shm_open, shm_open_wrapped, shm_unlink_wrapped, ftruncate}
use pyfastipc.Shm.Open.{
  Weather, Attempt, mapped, raised, map_segment, create_segment, try_attempt, is_retried, discard,
  Found, found, after_attempt, find_segment,
}

-- What other processes do: the descriptors of this one are not theirs, none makes a segment smaller, and
-- new segments get new numbers. Those that are `kind` leave a name to its segment.
pub record IsPolite (kind : Bool) (turn : World → World) : Type 0 where
  pub fds : (w : World) → (turn w).open_fds ≡ w.open_fds
  pub grows : (w : World) (s : ℕ) → length (w.segment s) ≤ length ((turn w).segment s)
  pub numbers : (w : World) → w.next_segment ≤ (turn w).next_segment
  pub spares :
      kind ≡ true
      → (w : World) (name : Text) (s : ℕ) → w.shm name ≡ some s
      → (turn w).shm name ≡ some s

-- They are polite before each of the calls, and as asked once the segment is open.
pub record IsFair (kind : Bool) (weather : Weather) : Type 0 where
  pub before : IsPolite false weather.before
  pub between : IsPolite false weather.between
  pub behind_open : IsPolite kind weather.behind_open
  pub before_stat : IsPolite kind weather.before_stat
  pub before_map : IsPolite kind weather.before_map
  pub before_discard : IsPolite false weather.before_discard

-- The mapping of `n` bytes of the segment `s` is large enough and inside the segment; a segment that was
-- created has a number of `from` or more. If others are kind, the name stands for it.
pub record Fits (kind : Bool) (name : Text) (from size s n : ℕ) (created : Bool) (w : World)
    : Type 0 where
  pub enough : size ≤ n
  pub inside : n ≤ length (w.segment s)
  pub fresh : created ≡ true → from ≤ s
  pub named : kind ≡ true → w.shm name ≡ some s

abbrev held : Option ℕ → ℕ
held none = 0
held (some _) = 1

-- What one attempt leaves, if `fds` descriptors were open before.
abbrev Left : Bool → Text → ℕ → ℕ → ℕ → Attempt × World → Type 0
Left kind name from size fds (mapped s n c, w) =
    (w.open_fds ≡ fds + 2) × (from ≤ w.next_segment) × Fits kind name from size s n c w
Left kind name from size fds (raised e fd c, w) =
    (w.open_fds ≡ fds + held fd) × (from ≤ w.next_segment)

module _ (kind : Bool) (weather : Weather) (name : Text) (from size fds : ℕ)
    (fair : IsFair kind weather) where
  map_segment-Left :
      (s : ℕ) (c : Bool) (w : World)
      → (kind ≡ true → w.shm name ≡ some s)
      → w.open_fds ≡ fds + 1
      → (c ≡ true → from ≤ s)
      → from ≤ w.next_segment
      → Left kind name from size fds (map_segment weather size s c w)
  unfolding map_segment
  map_segment-Left s c w h o z b =
      let w₁ = weather.before_map w in
      let same : w₁.open_fds ≡ w.open_fds = fair.before_map.fds w in
      let more : w.next_segment ≤ w₁.next_segment = fair.before_map.numbers w in
      let grown : length (w.segment s) ≤ length (w₁.segment s) = fair.before_map.grows w s in
      elim (Bool-cases weather.stat_fault) [
        | inl e ↦ rw e (o, b)
        | inr e ↦ elim (Bool-cases (ltb (length (w.segment s)) size)) [
          | inl small ↦ rw (e, small) (o, b)
          | inr fits ↦ elim (Option-cases weather.map_fault) [
            | inr (x, f) ↦ rw (e, fits, f) (omega arith, omega arith)
            | inl f ↦
                rw (e, fits, f)
                  (
                    omega arith,
                    omega arith,
                    record {
                      enough = ground arith;
                      inside = grown;
                      fresh = z;
                      named = λ k. fair.before_map.spares k w name s (h k);
                    },
                  )
          ]
        ]
      ]

-- A call of `shm_open` that fails changes no descriptor, and one that succeeds opens one.
shm_open_wrapped-open_fds :
    (create fault : Bool) (name : Text) (w : World)
    → let (r, w') = shm_open_wrapped create fault name w in
      ((s : ℕ) × (r ≡ ok s)
        × (w'.open_fds ≡ w.open_fds + 1)
        × (w'.shm name ≡ some s)
        × (create ≡ true → w.next_segment ≤ s)
        × (w.next_segment ≤ w'.next_segment))
      ⊎ ((e : Error) × (r ≡ err e)
          × (w'.open_fds ≡ w.open_fds)
          × (w'.next_segment ≡ w.next_segment))
unfolding shm_open_wrapped
shm_open_wrapped-open_fds create true name w = inr (_, refl, refl, refl)
shm_open_wrapped-open_fds false false name w = elim (Option-cases (w.shm name)) [
  | inl e ↦ rw (e, shm_open) (inr (_, refl, refl, refl))
  | inr (s, e) ↦ rw (e, shm_open) (inl (s, refl, refl, e, (λ h. cc), omega arith))
]
shm_open_wrapped-open_fds true false name w = elim (Option-cases (w.shm name)) [
  | inl e ↦
      rw (e, shm_open)
        (inl (w.next_segment, refl, refl, rw (text_eq_refl name), (λ _. omega arith), omega arith))
  | inr (s, e) ↦ rw (e, shm_open) (inr (_, refl, refl, refl))
]

module _ (kind : Bool) (weather : Weather) (name : Text) (from size fds : ℕ)
    (fair : IsFair kind weather) where
  create_segment-Left :
      (w : World)
      → w.open_fds ≡ fds
      → from ≤ w.next_segment
      → Left kind name from size fds (create_segment weather name size w)
  unfolding create_segment ftruncate map_segment
  create_segment-Left w o b =
      let v = weather.between w in
      let same : v.open_fds ≡ w.open_fds = fair.between.fds w in
      let more : w.next_segment ≤ v.next_segment = fair.between.numbers w in
      elim (shm_open_wrapped-open_fds true weather.create_fault name v) [
        | inr (e, r, kept, counted) ↦ rw (r, create_segment) (omega arith, omega arith)
        | inl (s, r, opens, named, new, grown) ↦
            let w' = (shm_open_wrapped true weather.create_fault name v).1 in
            let w₁ = weather.behind_open w' in
            let same₁ : w₁.open_fds ≡ w'.open_fds = fair.behind_open.fds w' in
            let more₁ : w'.next_segment ≤ w₁.next_segment = fair.behind_open.numbers w' in
            let w₂ = ftruncate s size w₁ in
            let w₃ = weather.before_stat w₂ in
            let same₃ : w₃.open_fds ≡ w₁.open_fds = fair.before_stat.fds w₂ in
            let more₃ : w₁.next_segment ≤ w₃.next_segment = fair.before_stat.numbers w₂ in
            let from_s : v.next_segment ≤ s = new refl in
            elim (Bool-cases weather.truncate_fault) [
              | inl fault ↦ rw (r, create_segment, fault) (omega arith, omega arith)
              | inr fine ↦
                  rw (r, create_segment, fine)
                    (map_segment-Left kind weather name from size fds fair s true w₃
                      (λ k.
                        fair.before_stat.spares k w₂ name s
                          (fair.behind_open.spares k w' name s named))
                      (omega arith) (λ _. omega arith) (omega arith))
            ]
      ]

  try_attempt-Left :
      (attach_only : Bool) (w : World)
      → w.open_fds ≡ fds
      → from ≤ w.next_segment
      → Left kind name from size fds (try_attempt weather attach_only name size w)
  unfolding try_attempt
  try_attempt-Left attach_only w o b =
      let v = weather.before w in
      let same : v.open_fds ≡ w.open_fds = fair.before.fds w in
      let more : w.next_segment ≤ v.next_segment = fair.before.numbers w in
      elim (shm_open_wrapped-open_fds false weather.attach_fault name v) [
        | inl (s, r, opens, named, new, grown) ↦
            let w' = (shm_open_wrapped false weather.attach_fault name v).1 in
            let w₁ = weather.behind_open w' in
            let same₁ : w₁.open_fds ≡ w'.open_fds = fair.behind_open.fds w' in
            let more₁ : w'.next_segment ≤ w₁.next_segment = fair.behind_open.numbers w' in
            rw (r, try_attempt)
              (map_segment-Left kind weather name from size fds fair s false w₁
                (λ k. fair.behind_open.spares k w' name s named) (omega arith) (λ h. cc)
                (omega arith))
        | inr (e, r, kept, counted) ↦ go e r (omega arith) (omega arith)
      ]
    where
      w₁ : World
      w₁ = (shm_open_wrapped false weather.attach_fault name (weather.before w)).1

      go :
          (e : Error)
          → (shm_open_wrapped false weather.attach_fault name (weather.before w)).0 ≡ err e
          → w₁.open_fds ≡ fds
          → from ≤ w₁.next_segment
          → Left kind name from size fds (try_attempt weather attach_only name size w)
      go file_not_found_error r q d = elim (Bool-cases attach_only) [
        | inl a ↦ rw (r, try_attempt, a) (omega arith, d)
        | inr a ↦ rw (r, try_attempt, a) (create_segment-Left w₁ q d)
      ]
      go value_error r q d = rw (r, try_attempt) (omega arith, d)
      go _ r q d = rw (r, try_attempt) (omega arith, d)

  discard-open_fds :
      (fd : Option ℕ) (c : Bool) (w : World)
      → w.open_fds ≡ fds + held fd
      → from ≤ w.next_segment
      → ((discard weather name fd c w).open_fds ≡ fds)
        × (from ≤ (discard weather name fd c w).next_segment)
  unfolding discard shm_unlink_wrapped
  discard-open_fds none c w h b = (omega arith, b)
  discard-open_fds (some s) c w h b =
      let v = weather.before_discard w in
      let same : v.open_fds ≡ w.open_fds = fair.before_discard.fds w in
      let more : w.next_segment ≤ v.next_segment = fair.before_discard.numbers w in
      (ground arith, ground arith)

-- What the loop leaves: two more descriptors, the one that was opened and that of the mapping, with a
-- segment that fits, or none.
abbrev pub Settled : Bool → Text → ℕ → ℕ → ℕ → Result Found × World → Type 0
Settled kind name from size fds (ok (found s n c), w) =
    (w.open_fds ≡ fds + 2) × Fits kind name from size s n c w
Settled kind name from size fds (err e, w) = w.open_fds ≡ fds

after_attempt-Settled :
    (kind : Bool) (weather : Weather) (name : Text) (from size fds : ℕ)
    (onward : World → Result Found × World) (x : Attempt × World)
    → IsFair kind weather
    → Left kind name from size fds x
    → ((w₂ : World)
        → w₂.open_fds ≡ fds
        → from ≤ w₂.next_segment
        → Settled kind name from size fds (onward w₂))
    → Settled kind name from size fds (after_attempt weather false name onward x)
after_attempt-Settled kind weather name from size fds onward (mapped s n c, w) fair (o, b, l) next =
    (o, l)
after_attempt-Settled kind weather name from size fds onward (raised x fd c, w) fair (o, b) next =
    let (kept, counted) = discard-open_fds kind weather name from size fds fair fd c w o b in
    elim (Bool-cases (is_retried x)) [
      | inl q ↦ rw q (next (discard weather name fd c w) kept counted)
      | inr q ↦ rw q (next (discard weather name fd c w) kept counted)
    ]

find_segment_from :
    (kind : Bool) (weather : List Weather) (name : Text) (from size fds : ℕ) (w : World)
    → All (IsFair kind) weather
    → w.open_fds ≡ fds
    → from ≤ w.next_segment
    → Settled kind name from size fds (find_segment weather false name size w)
unfolding find_segment
find_segment_from kind [] name from size fds w p o b = o
find_segment_from kind (weather ∷ rest) name from size fds w p o b =
    after_attempt-Settled kind weather name from size fds (find_segment rest false name size)
      (try_attempt weather false name size w) p.0
      (try_attempt-Left kind weather name from size fds p.0 false w o b)
      (λ w₂ o₂ b₂. find_segment_from kind rest name from size fds w₂ p.1 o₂ b₂)

-- Whatever other processes do before each call of the attempts of a constructor that may create, and
-- whichever calls fail, the loop ends with two more descriptors, the one that it opened and the one of the
-- mapping, of a segment that has at least the requested size and as many bytes as are mapped, and that is a
-- new one if the loop says that it created it; or by an exception, with as many descriptors as before. If
-- the others also leave the name to the segment once it is open (`kind`), the name stands for it. The
-- others have descriptors of their own, make no segment smaller, and do not use the number of a segment
-- again.
pub find_segment-Settled :
    (kind : Bool) (weather : List Weather) (name : Text) (size : ℕ) (w : World)
    → All (IsFair kind) weather
    → Settled kind name w.next_segment size w.open_fds (find_segment weather false name size w)
find_segment-Settled kind weather name size w p =
    find_segment_from kind weather name w.next_segment size w.open_fds w p refl (omega arith)
