-- ===== src/Shm/Quiet.antt =====
-- `GuardedSharedMemory.__init__` of src/fastipc/guarded_shared_memory.py when nobody else acts and no
-- call fails for a reason of its own: each way that the constructor can end.
use pyfastipc.Base.{
  text_eq_refl, ℕ, ◌+◌, ◌≤◌, ◌<◌, ◌≡◌, refl, ap, ◌∙◌, Bool, true, false, Bool-cases, inl, inr, List,
  [], ◌∷◌, none, some, ok, err, value_error, no_shm_found_error, file_not_found_error, ltb, ◌==◌,
  if◌then◌else◌, Text, length, replicate, length-replicate, arith,
}
use pyfastipc.Shm.World.{
  World, Entry, update, shm_open_wrapped, ftruncate, ftruncate-zeros, shm_open, makedirs, listdir,
  has_pid, pid_file, touch_pid,
}
use pyfastipc.Shm.Open.{
  Weather, quiet, mapped, raised, map_segment, create_segment, try_attempt, Found, found,
  find_segment, bad_arguments, guarded, init,
}

module _ (attach_only : Bool) (name : Text) (size : ℕ) (w : World) where
  attempt_attaches :
      (s : ℕ)
      → w.shm name ≡ some s
      → size ≤ length (w.segment s)
      → try_attempt quiet attach_only name size w
        ≡ (mapped s (length (w.segment s)) false, record w { open_fds = w.open_fds + 2 })
  unfolding try_attempt shm_open_wrapped map_segment
  attempt_attaches s e le = ground arith

  pub attempt_too_small :
      (s : ℕ)
      → w.shm name ≡ some s
      → length (w.segment s) < size
      → try_attempt quiet attach_only name size w
        ≡ (raised value_error (some s) false, record w { open_fds = w.open_fds + 1 })
  unfolding try_attempt shm_open_wrapped map_segment
  attempt_too_small s e lt = ground arith

  pub attempt_missing :
      w.shm name ≡ none
      → attach_only ≡ true
      → try_attempt quiet attach_only name size w ≡ (raised no_shm_found_error none false, w)
  unfolding try_attempt shm_open_wrapped
  attempt_missing e a = ground arith

  -- the world after the segment is made
  abbrev with_segment : World
  with_segment = ftruncate w.next_segment size (record w {
    shm = update name (some w.next_segment) w.shm;
    segment = λ s. if s == w.next_segment then [] else w.segment s;
    next_segment = w.next_segment + 1;
    open_fds = w.open_fds + 1;
  })

  new_segment-zeros : with_segment.segment w.next_segment ≡ replicate size 0
  new_segment-zeros = ftruncate-zeros w.next_segment size _ (ground arith)

  length-with_segment : length (with_segment.segment w.next_segment) ≡ size
  length-with_segment = ap length new_segment-zeros ∙ length-replicate size 0

  open_missing :
      w.shm name ≡ none → shm_open_wrapped false false name w ≡ (err file_not_found_error, w)
  unfolding shm_open_wrapped
  open_missing e = rw (e, shm_open) refl

  open_new :
      w.shm name ≡ none
      → shm_open_wrapped true false name w ≡ (
        ok w.next_segment,
        record w {
          shm = update name (some w.next_segment) w.shm;
          segment = λ s. if s == w.next_segment then [] else w.segment s;
          next_segment = w.next_segment + 1;
          open_fds = w.open_fds + 1;
        },
      )
  unfolding shm_open_wrapped
  open_new e = rw (e, shm_open) refl

  segment_new :
      w.shm name ≡ none
      → create_segment quiet name size w
        ≡ (mapped w.next_segment size true, record with_segment { open_fds = w.open_fds + 2 })
  unfolding map_segment create_segment ftruncate
  segment_new e =
      let fits : ltb size size ≡ false = ground arith in
      let same : w.open_fds + 1 + 1 ≡ w.open_fds + 2 = omega arith in
      let new = open_new e in
      rw (ap (λ x. x.0) new, create_segment, ap (λ x. x.1) new, length-with_segment, fits, same)
        refl

  attempt_creates :
      w.shm name ≡ none
      → attach_only ≡ false
      → try_attempt quiet attach_only name size w
        ≡ (mapped w.next_segment size true, record with_segment { open_fds = w.open_fds + 2 })
  unfolding try_attempt
  attempt_creates e a =
      let missing = open_missing e in
      rw (ap (λ x. x.0) missing, try_attempt, ap (λ x. x.1) missing, a) (segment_new e)

-- The world differs from the earlier one in the directories alone, and the process is registered.
pub record Registered (path : Text) (pid : ℕ) (before after : World) : Type 0 where
  pub listed : has_pid pid (listdir path after) ≡ true
  pub shm : after.shm ≡ before.shm
  pub segment : after.segment ≡ before.segment
  pub open_fds : after.open_fds ≡ before.open_fds

touch_made :
    (path : Text) (pid : ℕ) (fs : List Entry) (w : World)
    → w.dirs path ≡ some fs
    → (w' : World) × (touch_pid path pid w ≡ (ok tt, w')) × Registered path pid w w'
unfolding touch_pid
touch_made path pid fs w e = elim (Bool-cases (has_pid pid fs)) [
  | inl old ↦ (
    w,
    rw (e, touch_pid, old),
    record { listed = ground arith; shm = refl; segment = refl; open_fds = refl },
  )
  | inr new ↦ (
    record w { dirs = update path (some (pid_file pid ∷ fs)) w.dirs },
    rw (e, touch_pid, new),
    record {
      listed = ground (arith, text_eq_refl path);
      shm = refl;
      segment = refl;
      open_fds = refl;
    },
  )
]

makedirs_made :
    (path : Text) (w : World) → (fs : List Entry) × ((makedirs path w).dirs path ≡ some fs)
unfolding makedirs
makedirs_made path w = (listdir path w, rw (text_eq_refl path))

module _ (rest : List Weather) (pid : ℕ) (path : Text) (attach_only cleanup : Bool) (name : Text)
    (size : ℕ) (w : World) (good : bad_arguments name size ≡ false) where
  -- the end of `init`, when the loop has found a segment and left the directories alone
  init_of_find :
      (f : Found) (w₁ : World)
      → find_segment (quiet ∷ rest) attach_only name size (makedirs path w) ≡ (ok f, w₁)
      → w₁.dirs ≡ (makedirs path w).dirs
      → (w' : World) × (init (quiet ∷ rest) pid path attach_only cleanup name size w
          ≡ (ok (guarded name pid path cleanup f), w'))
        × Registered path pid w₁ w'
  unfolding init
  init_of_find f w₁ e d =
      let (fs, made) = makedirs_made path w in
      let (w', r, reg) = touch_made path pid fs w₁ (ap (λ t. t path) d ∙ made) in
      (w', rw (good, e, r), reg)

  find_attaches :
      (s : ℕ)
      → w.shm name ≡ some s
      → size ≤ length (w.segment s)
      → find_segment (quiet ∷ rest) attach_only name size (makedirs path w) ≡ (
        ok (found s (length (w.segment s)) false),
        record (makedirs path w) { open_fds = w.open_fds + 2 },
      )
  unfolding find_segment makedirs
  find_attaches s e le =
      rw (attempt_attaches attach_only name size (makedirs path w) s e le, find_segment)

  -- An existing segment that is large enough is attached to: nothing is created, the size of the
  -- object is that of the segment, and the process is registered.
  pub init_attaches :
      (s : ℕ)
      → w.shm name ≡ some s
      → size ≤ length (w.segment s)
      → (w' : World) × (init (quiet ∷ rest) pid path attach_only cleanup name size w
          ≡ (ok (guarded name pid path cleanup (found s (length (w.segment s)) false)), w'))
        × Registered path pid (record w { open_fds = w.open_fds + 2 }) w'
  unfolding makedirs
  init_attaches s e le =
      let (w', r, reg) =
        init_of_find (found s (length (w.segment s)) false)
          (record (makedirs path w) { open_fds = w.open_fds + 2 }) (find_attaches s e le) refl in
      (
        w',
        r,
        record {
          listed = reg.listed;
          shm = reg.shm;
          segment = reg.segment;
          open_fds = reg.open_fds;
        },
      )

  find_creates :
      w.shm name ≡ none
      → attach_only ≡ false
      → find_segment (quiet ∷ rest) attach_only name size (makedirs path w) ≡ (
        ok (found w.next_segment size true),
        record (with_segment attach_only name size (makedirs path w)) { open_fds = w.open_fds + 2 },
      )
  unfolding find_segment makedirs
  find_creates e a = rw (attempt_creates attach_only name size (makedirs path w) e a, find_segment)

  -- A name that stands for nothing is given a new segment of the requested number of zeros, unless
  -- the caller asked to attach only.
  pub init_creates :
      w.shm name ≡ none
      → attach_only ≡ false
      → (w' : World) × (init (quiet ∷ rest) pid path attach_only cleanup name size w
          ≡ (ok (guarded name pid path cleanup (found w.next_segment size true)), w'))
        × (w'.shm name ≡ some w.next_segment)
        × (w'.segment w.next_segment ≡ replicate size 0)
        × (w'.open_fds ≡ w.open_fds + 2)
        × (has_pid pid (listdir path w') ≡ true)
  unfolding makedirs ftruncate
  init_creates e a =
      let w₁ : World = record (with_segment attach_only name size (makedirs path w)) {
        open_fds = w.open_fds + 2;
      } in
      let (w', r, reg) = init_of_find (found w.next_segment size true) w₁ (find_creates e a) refl in
      (
        w',
        r,
        ap (λ t. t name) reg.shm ∙ rw (text_eq_refl name),
        ap (λ t. t w.next_segment) reg.segment
            ∙ new_segment-zeros attach_only name size (makedirs path w),
        reg.open_fds,
        reg.listed,
      )
