-- ===== src/Shm/Among.antt =====
-- `close` of src/fastipc/guarded_shared_memory.py, while others act before each of its calls of the
-- operating system.
use pyfastipc.Base.{
  ℕ, ◌+◌, ◌≡◌, refl, ap, ◌∙◌, Bool, true, false, Bool-cases, inl, inr, List, [], ◌∷◌, if◌then◌else◌,
  Text, Result, some, arith, ◌≢◌,
}
use pyfastipc.Shm.World.{World, Entry, pid_file, other_file, listdir, has_pid, unlink_pid, rmdir}
use pyfastipc.Shm.Open.{Guarded}
use pyfastipc.Shm.Close.{
  Killed, alive, remove_dead, cleanup_dead_pids, has_other_alive_pids, remove_pid_file, unlink,
  finish, leave, close,
}
use pyfastipc.Shm.Leave.{
  has_pid-remove_pid, listdir-unlink_pid, shm-unlink_pid, any_other_alive_of, IsLeft, finish-IsLeft,
  finish-shm, finish-listdir,
}

-- What a `close` is about to do: to list the directory, to go on with the loop over the listing, to
-- remove its own file, to list the directory again, to unlink the name, to remove the directory, and to
-- unmap the segment.
pub data Moment : Type 0 where
  listing : Moment
  sweeping : ℕ → Moment
  removing looking unlinking tidying detaching : Moment

-- What others do then, and how `os.kill(pid, 0)` answers.
module _ (kill : Moment → ℕ → Killed) (others : Moment → World → World) where
  unfoldable pub remove_dead_among : ℕ → List Entry → Text → World → World
  remove_dead_among i [] path w = w
  remove_dead_among i (pid_file n ∷ fs) path w =
      let w₁ = others (sweeping i) w in
      remove_dead_among (i + 1) fs path
        (if alive (kill (sweeping i) n) then w₁ else unlink_pid path n w₁)
  remove_dead_among i (other_file _ ∷ fs) path w = remove_dead_among i fs path w

  -- the end of `close` behind `unlink`
  abbrev pub after_unlink_among : Text → Result (Unit {0}) × (Guarded × World) → Guarded × World
  after_unlink_among path (_, (g', w)) =
      finish (g', others detaching (rmdir path (others tidying w)))

  unfoldable pub leave_among : Bool → Guarded → World → Guarded × World
  leave_among fault g w =
      if has_other_alive_pids (kill looking) g w
      then finish (g, others detaching w)
      else after_unlink_among g.pid_dir (unlink fault g (others unlinking w))

  unfoldable pub close_among : Bool → Guarded → World → Guarded × World
  unfolding remove_dead_among leave_among
  close_among fault g w =
      let w₁ = others listing w in
      let w₂ = remove_dead_among 0 (listdir g.pid_dir w₁) g.pid_dir w₁ in
      if g.closed
      then (g, w)
      else leave_among fault g (others looking (remove_pid_file g (others removing w₂)))

-- If nobody else acts, it is `close`.
remove_dead_among_quiet :
    (kill : ℕ → Killed) (i : ℕ) (fs : List Entry) (path : Text) (w : World)
    → remove_dead_among (λ _. kill) (λ _ v. v) i fs path w ≡ remove_dead kill fs path w
unfolding remove_dead_among remove_dead
remove_dead_among_quiet kill i [] path w = refl
remove_dead_among_quiet kill i (other_file t ∷ fs) path w = remove_dead_among_quiet kill i fs path w
remove_dead_among_quiet kill i (pid_file n ∷ fs) path w =
    remove_dead_among_quiet kill (i + 1) fs path _

close_among-close :
    (kill : ℕ → Killed) (fault : Bool) (g : Guarded) (w : World)
    → close_among (λ _. kill) (λ _ v. v) fault g w ≡ close kill fault g w
unfolding close_among leave_among close leave cleanup_dead_pids
close_among-close kill fault g w =
    ap (λ v. if g.closed then (g, w) else leave kill fault g (remove_pid_file g v))
      (remove_dead_among_quiet kill 0 (listdir g.pid_dir w) g.pid_dir w)

-- The process `n` is on the register at `path`, and the name stands for the segment `s`.
abbrev pub Kept : Text → Text → ℕ → ℕ → World → Type 0
Kept path name n s w = (has_pid n (listdir path w) ≡ true) × (w.shm name ≡ some s)

Kept-unlink_pid :
    (path name : Text) (n s p : ℕ) (w : World)
    → n ≢ p
    → Kept path name n s w
    → Kept path name n s (unlink_pid path p w)
Kept-unlink_pid path name n s p w ne (listed, named) = (
  ap (has_pid n) (listdir-unlink_pid path p w)
      ∙ has_pid-remove_pid n p (listdir path w)
      ∙ ground arith,
  ap (λ f. f name) (shm-unlink_pid path p w) ∙ named,
)

module _ (kill : Moment → ℕ → Killed) (others : Moment → World → World) (path name : Text) (n s : ℕ)
    (lives : (a : Moment) → alive (kill a n) ≡ true)
    (spared : (a : Moment) (w : World)
      → Kept path name n s w
      → Kept path name n s (others a w)) where
  Kept-remove_dead_among :
      (i : ℕ) (fs : List Entry) (w : World)
      → Kept path name n s w
      → Kept path name n s (remove_dead_among kill others i fs path w)
  unfolding remove_dead_among
  Kept-remove_dead_among i [] w k = k
  Kept-remove_dead_among i (other_file t ∷ fs) w k = Kept-remove_dead_among i fs w k
  Kept-remove_dead_among i (pid_file m ∷ fs) w k =
      Kept-remove_dead_among (i + 1) fs _ (elim (Bool-cases (alive (kill (sweeping i) m))) [
        | inl a ↦ rw a (spared (sweeping i) w k)
        | inr a ↦ rw a (
            Kept-unlink_pid path name n s m _
              (λ e. absurd (
                let no = ap (λ q. alive (kill (sweeping i) q)) e ∙ a in
                let yes_alive = lives (sweeping i) in cc))
              (spared (sweeping i) w k))
      ])

abbrev before_leave : (Moment → ℕ → Killed) → (Moment → World → World) → Guarded → World → World
before_leave kill others g w =
    let w₁ = others listing w in
    let w₂ = remove_dead_among kill others 0 (listdir g.pid_dir w₁) g.pid_dir w₁ in
    others looking (remove_pid_file g (others removing w₂))

close_among-leave_among :
    (kill : Moment → ℕ → Killed) (others : Moment → World → World) (fault : Bool) (g : Guarded)
    (w : World)
    → g.closed ≡ false
    → close_among kill others fault g w
      ≡ leave_among kill others fault g (before_leave kill others g w)
unfolding close_among
close_among-leave_among kill others fault g w open_still = simp open_still

leave_among-finish :
    (kill : Moment → ℕ → Killed) (others : Moment → World → World) (fault : Bool) (g : Guarded)
    (w : World)
    → has_other_alive_pids (kill looking) g w ≡ true
    → leave_among kill others fault g w ≡ finish (g, others detaching w)
unfolding leave_among
leave_among-finish kill others fault g w seen = simp seen

-- While a process is alive and on the register, `close` by another one leaves the name to the segment,
-- whatever others do before each of its calls, as long as they leave that name and that process's file
-- alone: in the end the name stands for the segment, the process is on the register, and the object is
-- closed with nothing mapped. The object was not closed before.
pub close_among_keeps :
    (kill : Moment → ℕ → Killed) (others : Moment → World → World) (fault : Bool) (g : Guarded)
    (n s : ℕ) (w : World)
    → g.closed ≡ false
    → n ≢ g.pid
    → ((a : Moment) → alive (kill a n) ≡ true)
    → ((a : Moment) (v : World)
        → Kept g.pid_dir g.name n s v
        → Kept g.pid_dir g.name n s (others a v))
    → Kept g.pid_dir g.name n s w
    → let (g', w') = close_among kill others fault g w in Kept g.pid_dir g.name n s w' × IsLeft g g'
unfolding has_other_alive_pids remove_pid_file
close_among_keeps kill others fault g n s w open_still ne lives spared k =
    let w₁ = others listing w in
    let w₂ = remove_dead_among kill others 0 (listdir g.pid_dir w₁) g.pid_dir w₁ in
    let k₂ : Kept g.pid_dir g.name n s w₂ =
      Kept-remove_dead_among kill others g.pid_dir g.name n s lives spared 0 (listdir g.pid_dir w₁)
        w₁ (spared listing w k) in
    let w₃ = before_leave kill others g w in
    let k₃ : Kept g.pid_dir g.name n s w₃ =
      spared looking _ (Kept-unlink_pid g.pid_dir g.name n s g.pid _ ne (spared removing w₂ k₂)) in
    let seen : has_other_alive_pids (kill looking) g w₃ ≡ true =
      any_other_alive_of (kill looking) g.pid n (listdir g.pid_dir w₃) ne k₃.0 (lives looking) in
    let w₄ = others detaching w₃ in
    let (listed, named) = spared detaching w₃ k₃ in
    rw
      (
        close_among-leave_among kill others fault g w open_still,
        leave_among-finish kill others fault g w₃ seen,
      )
      (
        (
          ap (has_pid n) (finish-listdir g.pid_dir g w₄) ∙ listed,
          ap (λ f. f g.name) (finish-shm g w₄) ∙ named,
        ),
        finish-IsLeft g w₄,
      )
