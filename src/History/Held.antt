-- ===== src/History/Held.antt =====
-- Calls of `publish` and `__init__` of src/fastipc/data/named_history_buffer.py on a segment that holds a
-- history buffer. Nobody else acts, and no call fails for a reason of its own.
use pyfastipc.Base.{
  ℕ, zero, suc, ◌-◌, ◌+◌, ◌^◌, ◌≤◌, ◌<◌, ◌≡◌, refl, ap, ◌∙◌, Bool, true, false, List, [], ◌∷◌, some,
  ok, ◌==◌, ==_iff, Text, length, All, arith,
}
use pyfastipc.Memory.{Mem, get}
use pyfastipc.Shm.World.{World}
use pyfastipc.Shm.Open.{quiet, found, has_slash, bad_arguments, guarded, init}
use pyfastipc.Shm.Close.{detach}
use pyfastipc.Shm.Quiet.{init_attaches}
use pyfastipc.History.Header.{header_size, magic, history_magic, calc_total_size}
use pyfastipc.History.Buffer.{Writer, attach}
use pyfastipc.History.Publish.{slot_at}
use pyfastipc.History.Log.{Models, IsCall, publish_all-Models, log_after}
use pyfastipc.History.Reopen.{attach-Models, calc_total_size-Models}
use pyfastipc.History.Named.{mapping_of, write_back, buffer_name, open_named, publish_named}
use pyfastipc.History.Agree.{Agree-get, Models-Agree}

-- The name stands for the segment `s` of `size` bytes, which holds the buffer of the log.
pub record Holds (name : Text) (s size n k : ℕ) (log : List (List ℕ)) (w : World) : Type 0 where
  pub named : w.shm (buffer_name name) ≡ some s
  pub sized : length (w.segment s) ≡ size
  pub held : Models size n k log (mapping_of s w)

length-get : (offset c : ℕ) (m : Mem) → length (get offset c m) ≡ c
unfolding get
length-get offset zero m = refl
length-get offset (suc c) m = ap suc (length-get (suc offset) c m)

pub good_arguments :
    (name : Text) (size : ℕ)
    → has_slash (buffer_name name) ≡ false
    → 0 < size
    → bad_arguments (buffer_name name) size ≡ false
good_arguments name size h pos =
    let some_size : (size == 0) ≡ false = ground arith in rw (some_size, h)

module _ (name : Text) (s size n k : ℕ) (some_slots : 0 < n) (k_small : k < 2 ^ 64)
    (fits : slot_at k n ≤ size) where
  pub write_back-Holds :
      (log : List (List ℕ)) (m : Mem) (w : World)
      → length log < 2 ^ 63
      → Models size n k log m
      → w.shm (buffer_name name) ≡ some s
      → Holds name s size n k log (write_back s size m w)
  write_back-Holds log m w small models named =
      let here : (s == s) ≡ true = (==_iff s s).1 refl in
      record {
        named = named;
        sized = rw here (length-get 0 size m);
        held =
            rw here (
              Models-Agree size n k some_slots k_small m _ (Agree-get size m) fits log small
                models);
      }

  pub publish_named-Holds :
      (pid : ℕ) (path : Text) (made : Bool) (calls : List (Writer × List ℕ)) (log : List (List ℕ))
      (w : World)
      → All (IsCall k) calls
      → length log + length calls < 2 ^ 63
      → length (log_after calls log) < 2 ^ 63
      → Holds name s size n k log w
      → (w' : World) × (publish_named
            (guarded (buffer_name name) pid path false (found s size made))
            calls
            w
          ≡ some (ok tt, w'))
        × Holds name s size n k (log_after calls log) w'
  unfolding publish_named
  publish_named-Holds pid path made calls log w good few few' h =
      let (m, e, models) =
        publish_all-Models size n k some_slots fits k_small calls log (mapping_of s w) good few
          h.held in
      (write_back s size m w, rw e, write_back-Holds (log_after calls log) m w few' models h.named)

  open_named_steps :
      (pid : ℕ) (path : Text) (a b : ℕ) (w w₁ w₃ : World) (m : Mem)
      → init (quiet ∷ []) pid path true false (buffer_name name) header_size w
        ≡ (ok (guarded (buffer_name name) pid path false (found s a false)), w₁)
      → magic (mapping_of s w₁) ≡ history_magic
      → init
          (quiet ∷ [])
          pid
          path
          true
          false
          (buffer_name name)
          (calc_total_size (mapping_of s w₁))
          (record w₁ { open_fds = w₁.open_fds - 1 - 1 })
        ≡ (ok (guarded (buffer_name name) pid path false (found s b false)), w₃)
      → attach (mapping_of s w₃) ≡ (ok tt, m)
      → b ≡ size
      → open_named (quiet ∷ []) (quiet ∷ []) pid path name w ≡ (
        ok (guarded (buffer_name name) pid path false (found s size false)),
        write_back s size m w₃,
      )
  unfolding open_named detach
  open_named_steps pid path a b w w₁ w₃ m e₁ marked e₃ attached sized =
      let magic_good : (magic (mapping_of s w₁) == history_magic) ≡ true = ground (arith, marked) in
      rw (e₁, magic_good, e₃, attached, sized)

  -- `__init__` by the process `pid`
  pub open_named-Holds :
      (pid : ℕ) (path : Text) (log : List (List ℕ)) (w : World)
      → has_slash (buffer_name name) ≡ false
      → length log < 2 ^ 63
      → Holds name s size n k log w
      → (w' : World) × (open_named (quiet ∷ []) (quiet ∷ []) pid path name w
          ≡ (ok (guarded (buffer_name name) pid path false (found s size false)), w'))
        × Holds name s size n k log w'
  open_named-Holds pid path log w good small h =
      let (w₁, e₁, r₁) =
        init_attaches [] pid path true false (buffer_name name) header_size w
          (good_arguments name header_size good (omega arith)) s h.named
          (omega (arith, h.sized, h.held.complete)) in
      let held₁ : Models size n k log (mapping_of s w₁) = rw r₁.segment h.held in
      let sized₁ : length (w₁.segment s) ≡ size = rw r₁.segment h.sized in
      let named₁ : w₁.shm (buffer_name name) ≡ some s = rw r₁.shm h.named in
      let total = calc_total_size (mapping_of s w₁) in
      let total_is = calc_total_size-Models size n k log (mapping_of s w₁) held₁ in
      let w₂ : World = record w₁ { open_fds = w₁.open_fds - 1 - 1 } in
      let (w₃, e₃, r₃) =
        init_attaches [] pid path true false (buffer_name name) total w₂
          (good_arguments name total good (omega (arith, total_is))) s named₁
          (omega (arith, total_is, sized₁, held₁.complete)) in
      let held₃ : Models size n k log (mapping_of s w₃) = rw r₃.segment held₁ in
      let (m, attached, models) = attach-Models size n k log (mapping_of s w₃) held₃ in
      (
        write_back s size m w₃,
        open_named_steps pid path (length (w.segment s)) (length (w₁.segment s)) w w₁ w₃ m e₁
            held₁.marked e₃ attached sized₁,
        write_back-Holds log m w₃ small models (ap (λ f. f (buffer_name name)) r₃.shm ∙ named₁),
      )
