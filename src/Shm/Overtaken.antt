-- ===== src/Shm/Overtaken.antt =====
-- Another process that attaches while `close` of src/fastipc/guarded_shared_memory.py is between its
-- look at the register and its `shm_unlink`.
use pyfastipc.Base.{
  ℕ, ◌≤◌, ◌≡◌, refl, ap, ◌∙◌, Bool, true, false, [], ◌∷◌, none, some, ok, if◌then◌else◌, Text,
  text_eq_refl, length, arith,
}
use pyfastipc.Shm.World.{World, update, shm_unlink_wrapped, listdir, has_pid, rmdir}
use pyfastipc.Shm.Open.{quiet, Guarded, found, bad_arguments, guarded, init}
use pyfastipc.Shm.Close.{Killed, has_other_alive_pids, unlink, detach, finish, after_unlink, leave}
use pyfastipc.Shm.Leave.{finish-shm, finish-listdir}
use pyfastipc.Shm.Quiet.{init_attaches}

-- `leave`, with what others do behind `_has_other_alive_pids`
unfoldable pub leave_overtaken :
    (ℕ → Killed) → Bool → Guarded → (World → World) → World → Guarded × World
leave_overtaken kill fault g others w =
    if has_other_alive_pids kill g w
    then finish (g, others w)
    else after_unlink g (unlink fault g (others w))

leave_overtaken-leave :
    (kill : ℕ → Killed) (fault : Bool) (g : Guarded) (w : World)
    → leave_overtaken kill fault g (λ v. v) w ≡ leave kill fault g w
unfolding leave_overtaken leave
leave_overtaken-leave kill fault g w = refl

-- A directory with a pid file stays.
rmdir-has_pid :
    (path : Text) (q : ℕ) (w : World) → has_pid q (listdir path w) ≡ true → rmdir path w ≡ w
unfolding rmdir has_pid
rmdir-has_pid path q w h = ground arith

finish-segment : (g : Guarded) (w : World) → (finish (g, w)).1.segment ≡ w.segment
unfolding finish detach
finish-segment g w = ground arith

module _ (kill : ℕ → Killed) (g : Guarded) (q : ℕ) (others : World → World) (w w₁ : World)
    (alone : has_other_alive_pids kill g w ≡ false) (linked : g.unlinked ≡ false)
    (acted : others w ≡ w₁) (listed : has_pid q (listdir g.pid_dir w₁) ≡ true) where
  abbrev unlinked_world : World
  unlinked_world = record w₁ { shm = update g.name none w₁.shm }

  leave_overtaken-finish :
      leave_overtaken kill false g others w ≡ finish (record g { unlinked = true }, unlinked_world)
  unfolding leave_overtaken unlink shm_unlink_wrapped
  leave_overtaken-finish =
      let stays : rmdir g.pid_dir unlinked_world ≡ unlinked_world =
        rmdir-has_pid g.pid_dir q unlinked_world listed in
      rw (alone, acted, linked, stays)

  leave_unlinks :
      let w' = (leave_overtaken kill false g others w).1 in
      (w'.shm g.name ≡ none) × (has_pid q (listdir g.pid_dir w') ≡ true) × (w'.segment ≡ w₁.segment)
  leave_unlinks = rw leave_overtaken-finish (
    ap (λ f. f g.name) (finish-shm (record g { unlinked = true }) unlinked_world)
        ∙ rw (text_eq_refl g.name),
    rw (finish-listdir g.pid_dir (record g { unlinked = true }) unlinked_world) listed,
    finish-segment (record g { unlinked = true }) unlinked_world,
  )

-- A process leaves, which finds no other live process on the register; before it unlinks the name,
-- another one attaches to the segment, which is there and large enough, with arguments that pass
-- and without a failure. Its constructor succeeds, with the segment in view, and it is on the
-- register in the end; but the name stands for nothing any more, so that the next process of that
-- name gets another segment. The one that leaves has not unlinked the name before, and `shm_unlink`
-- does not fail.
pub overtaken_unlinks :
    (kill : ℕ → Killed) (g : Guarded) (q size s : ℕ) (attach_only cleanup : Bool) (w : World)
    → has_other_alive_pids kill g w ≡ false
    → g.unlinked ≡ false
    → bad_arguments g.name size ≡ false
    → w.shm g.name ≡ some s
    → size ≤ length (w.segment s)
    → let others : World → World =
        λ v. (init (quiet ∷ []) q g.pid_dir attach_only cleanup g.name size v).1 in
      let w' = (leave_overtaken kill false g others w).1 in
      ((init (quiet ∷ []) q g.pid_dir attach_only cleanup g.name size w).0
        ≡ ok (guarded g.name q g.pid_dir cleanup (found s (length (w.segment s)) false)))
      × (has_pid q (listdir g.pid_dir w') ≡ true)
      × (w'.segment s ≡ w.segment s)
      × (w'.shm g.name ≡ none)
overtaken_unlinks kill g q size s attach_only cleanup w alone linked good named large =
    let others : World → World =
      λ v. (init (quiet ∷ []) q g.pid_dir attach_only cleanup g.name size v).1 in
    let (w₁, e, reg) =
      init_attaches [] q g.pid_dir attach_only cleanup g.name size w good s named large in
    let (gone, listed, kept) =
      leave_unlinks kill g q others w w₁ alone linked (ap (λ x. x.1) e) reg.listed in
    (ap (λ x. x.0) e, listed, ap (λ f. f s) (kept ∙ reg.segment), gone)
