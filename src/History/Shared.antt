-- ===== src/History/Shared.antt =====
-- A history buffer of src/fastipc/data/named_history_buffer.py that processes share by its name, in a
-- segment of src/fastipc/guarded_shared_memory.py. Nobody else acts, and no call fails for a reason of
-- its own.
use pyfastipc.Base.{
  ℕ, ◌+◌, ◌*◌, ◌^◌, ◌≤◌, ◌<◌, ◌≡◌, refl, true, false, List, [], ◌∷◌, none, some, ok, Text, length,
  All, arith,
}
use pyfastipc.Memory.{Mem}
use pyfastipc.Shm.World.{World}
use pyfastipc.Shm.Open.{quiet, found, has_slash, guarded, init}
use pyfastipc.Shm.Quiet.{init_creates}
use pyfastipc.History.Buffer.{Writer, create, shm_size, get_latest}
use pyfastipc.History.Log.{Models, IsCall, log_after, newest}
use pyfastipc.History.Session.{slots_fit, numbers_small, create-Models}
use pyfastipc.History.Named.{
  mapping_of, write_back, buffer_name, create_named, open_named, publish_named,
}
use pyfastipc.History.Held.{
  Holds, good_arguments, write_back-Holds, publish_named-Holds, open_named-Holds,
}

length-log_after :
    (calls : List (Writer × List ℕ)) (log : List (List ℕ))
    → length (log_after calls log) ≡ length log + length calls
length-log_after [] log = omega arith
length-log_after ((writer, payload) ∷ calls) log =
    omega (arith, length-log_after calls (payload ∷ log))

module _ (name : Text) (n k : ℕ) (meta_encoded : List ℕ) (w : World) (some_slots : 0 < n)
    (size_small : shm_size n k meta_encoded < 2 ^ 63) (good : has_slash (buffer_name name) ≡ false)
    (missing : w.shm (buffer_name name) ≡ none) where
  abbrev size : ℕ
  size = shm_size n k meta_encoded

  abbrev s : ℕ
  s = w.next_segment

  create_named_steps :
      (pid : ℕ) (path : Text) (w₁ : World) (m : Mem)
      → init (quiet ∷ []) pid path false false (buffer_name name) size w
        ≡ (ok (guarded (buffer_name name) pid path false (found s size true)), w₁)
      → create n k meta_encoded size (mapping_of s w₁) ≡ (ok tt, m)
      → create_named (quiet ∷ []) pid path name n k meta_encoded w ≡ (
        ok (guarded (buffer_name name) pid path false (found s size true)),
        write_back s size m w₁,
      )
  unfolding create_named
  create_named_steps pid path w₁ m e c = rw (e, c)

  some_size : 128 + n * (64 + k) ≤ size
  some_size = slots_fit n k meta_encoded size (λ _. 0) some_slots (omega arith) size_small

  k_small : k < 2 ^ 64
  k_small = (numbers_small n k meta_encoded size (λ _. 0) some_slots (omega arith) size_small).1

  create_named-Holds :
      (pid : ℕ) (path : Text)
      → (w' : World) × (create_named (quiet ∷ []) pid path name n k meta_encoded w
          ≡ (ok (guarded (buffer_name name) pid path false (found s size true)), w'))
        × Holds name s size n k [] w'
  create_named-Holds pid path =
      let (w₁, e₁, named, zeros, fds, listed) =
        init_creates [] pid path false false (buffer_name name) size w
          (good_arguments name size good (omega (arith, some_size))) missing refl in
      let (m, c, models) =
        create-Models n k meta_encoded size (mapping_of s w₁) some_slots (omega arith) size_small in
      (
        write_back s size m w₁,
        create_named_steps pid path w₁ m e₁ c,
        write_back-Holds name s size n k some_slots k_small some_size [] m w₁ (omega arith) models
            named,
      )

  -- If nobody else acts and no call fails for a reason of its own: a process creates a buffer by a
  -- name that stands for nothing and publishes messages; another one opens it by the name, and
  -- publishes messages too. All calls succeed, and both have the same segment in view, which holds
  -- the buffer of the log of all messages of both, in their order: `get_latest` reads the last one.
  -- The name has no slash; there is a slot; the size of the segment is below 2 ^ 63; the messages
  -- fit the slots and are fewer than 2 ^ 63; the processes that publish have numbers of 32 bits
  -- that are not 0.
  pub shared_by_name :
      (p q : ℕ) (path_p path_q : Text) (calls more : List (Writer × List ℕ))
      → All (IsCall k) calls
      → All (IsCall k) more
      → length calls + length more < 2 ^ 63
      → let g = guarded (buffer_name name) p path_p false (found s size true) in
        let g' = guarded (buffer_name name) q path_q false (found s size false) in
        (w₁ w₂ w₃ w₄ : World) × (create_named (quiet ∷ []) p path_p name n k meta_encoded w
          ≡ (ok g, w₁))
        × (publish_named g calls w₁ ≡ some (ok tt, w₂))
        × (open_named (quiet ∷ []) (quiet ∷ []) q path_q name w₂ ≡ (ok g', w₃))
        × (publish_named g' more w₃ ≡ some (ok tt, w₄))
        × Models size n k (log_after more (log_after calls [])) (mapping_of s w₄)
        × (get_latest size (mapping_of s w₄) ≡ newest (log_after more (log_after calls [])))
  shared_by_name p q path_p path_q calls more good_calls good_more few =
      let count = length-log_after calls [] in
      let count' = length-log_after more (log_after calls []) in
      let (w₁, e₁, h₁) = create_named-Holds p path_p in
      let (w₂, e₂, h₂) =
        publish_named-Holds name s size n k some_slots k_small some_size p path_p true calls [] w₁
          good_calls (omega arith) (omega (arith, count)) h₁ in
      let (w₃, e₃, h₃) =
        open_named-Holds name s size n k some_slots k_small some_size q path_q (log_after calls [])
          w₂ good (omega (arith, count)) h₂ in
      let (w₄, e₄, h₄) =
        publish_named-Holds name s size n k some_slots k_small some_size q path_q false more
          (log_after calls []) w₃ good_more (omega (arith, count)) (omega (arith, count, count'))
          h₃ in
      (w₁, w₂, w₃, w₄, e₁, e₂, e₃, e₄, h₄.held, h₄.held.latest)
