-- ===== src/Queue/Created.antt =====
-- What `NamedQueue.create` of src/fastipc/data/named_queue.py leaves in the segment.
use pyfastipc.Base.{
  ℕ, ◌+◌, ◌^◌, ◌≤◌, ◌<◌, ◌≡◌, refl, sym, ◌∙◌, ◌⊎◌, inl, inr, Bool, true, false, List, ok, err,
  value_error, file_exists_error, Text, length, arith,
}
use pyfastipc.Memory.{Mem, load, store, load-store, load-store-Apart}
use pyfastipc.Primitives.Mutex.{init_mutex}
use pyfastipc.Queue.Modes.{from_str, from_str_lem}
use pyfastipc.Queue.Header.{
  queue_magic, queue_meta_size, queue_num_slots, queue_slot_size, head, tail, mode, queue_size,
  total_size, first_fields, create_queue,
}

-- A queue of the given numbers with no message in it.
pub record IsEmptyQueue (n k meta_len v : ℕ) (m : Mem) : Type 0 where
  pub marked : load 8 0 m ≡ queue_magic
  pub counted : queue_num_slots m ≡ n
  pub slot_len : queue_slot_size m ≡ k
  pub meta_len_is : queue_meta_size m ≡ meta_len
  pub first : head m ≡ 0
  pub last : tail m ≡ 0
  pub of_mode : mode m ≡ v
  pub sized : total_size m ≡ queue_size n k meta_len

module _ (n k : ℕ) (meta_encoded : List ℕ) (m : Mem) (n_small : n < 2 ^ 64) (k_small : k < 2 ^ 64)
    (meta_small : length meta_encoded < 2 ^ 64) where
  abbrev begun : Mem
  begun = first_fields n k (length meta_encoded) m

  abbrev ended : ℕ → Mem
  ended v = store 4 64 1297437784 (store 8 40 0 (store 8 32 0 (store 8 48 v begun)))

  -- the fields below 32 are those of `begun`
  ended-begun : (v p : ℕ) → p + 8 ≤ 32 → load 8 p (ended v) ≡ load 8 p begun
  ended-begun v p h =
      load-store-Apart 8 p 4 64 1297437784 _ (inl (omega arith))
      ∙ load-store-Apart 8 p 8 40 0 _ (inl (omega arith))
      ∙ load-store-Apart 8 p 8 32 0 _ (inl (omega arith))
      ∙ load-store-Apart 8 p 8 48 v begun (inl (omega arith))

  ended-IsEmptyQueue : (v : ℕ) → v ≤ 1 → IsEmptyQueue n k (length meta_encoded) v (ended v)
  unfolding total_size
  ended-IsEmptyQueue v small =
      let slots : queue_num_slots (ended v) ≡ n =
        ended-begun v 16 (omega arith)
        ∙ load-store-Apart 8 16 8 24 k _ (inl (omega arith))
        ∙ load-store 8 16 n _ (omega arith) in
      let room : queue_slot_size (ended v) ≡ k =
        ended-begun v 24 (omega arith) ∙ load-store 8 24 k _ (omega arith) in
      let meta : queue_meta_size (ended v) ≡ length meta_encoded =
        ended-begun v 8 (omega arith)
        ∙ load-store-Apart 8 8 8 24 k _ (inl (omega arith))
        ∙ load-store-Apart 8 8 8 16 n _ (inl (omega arith))
        ∙ load-store 8 8 (length meta_encoded) _ (omega arith) in
      record {
        marked =
            ended-begun v 0 (omega arith)
            ∙ load-store-Apart 8 0 8 24 k _ (inl (omega arith))
            ∙ load-store-Apart 8 0 8 16 n _ (inl (omega arith))
            ∙ load-store-Apart 8 0 8 8 (length meta_encoded) _ (inl (omega arith))
            ∙ load-store 8 0 queue_magic m (omega arith);
        counted = slots;
        slot_len = room;
        meta_len_is = meta;
        first =
            load-store-Apart 8 32 4 64 1297437784 _ (inl (omega arith))
            ∙ load-store-Apart 8 32 8 40 0 _ (inl (omega arith))
            ∙ load-store 8 32 0 _ (omega arith);
        last =
            load-store-Apart 8 40 4 64 1297437784 _ (inl (omega arith))
            ∙ load-store 8 40 0 _ (omega arith);
        of_mode =
            load-store-Apart 8 48 4 64 1297437784 _ (inl (omega arith))
            ∙ load-store-Apart 8 48 8 40 0 _ (inr (omega arith))
            ∙ load-store-Apart 8 48 8 32 0 _ (inr (omega arith))
            ∙ load-store 8 48 v begun (omega arith);
        sized = rw (slots, room, meta);
      }

  -- How the call ends, if the numbers fit 64 bits: on a segment that its constructor made, with a
  -- queue that is empty and of the named mode, or with `ValueError` at a name of no mode, where the
  -- magic number is there already; on a segment that was there, with `FileExistsError` and no
  -- change.
  pub create_queue_lem :
      (created : Bool) (mode_str : Text)
      → ((created ≡ true)
          × ((v : ℕ) × (m' : Mem) × (from_str mode_str ≡ ok v)
              × (create_queue created n k meta_encoded mode_str m ≡ (ok tt, m'))
              × IsEmptyQueue n k (length meta_encoded) v m'))
        ⊎ ((created ≡ true)
            × ((m' : Mem) × (from_str mode_str ≡ err value_error)
                × (create_queue created n k meta_encoded mode_str m ≡ (err value_error, m'))
                × (load 8 0 m' ≡ queue_magic)))
        ⊎ ((created ≡ false)
            × (create_queue created n k meta_encoded mode_str m ≡ (err file_exists_error, m)))
  unfolding create_queue init_mutex
  create_queue_lem false mode_str = inr (inr (refl, refl))
  create_queue_lem true mode_str = elim (from_str_lem mode_str) [
    | inl (v, e, small, _, _) ↦ inl (refl, (v, ended v, e, rw e, ended-IsEmptyQueue v small))
    | inr (e, _, _) ↦ inr (
        inl (
          refl,
          (
            begun,
            e,
            rw e,
            sym (ended-begun 0 0 (omega arith)) ∙ (ended-IsEmptyQueue 0 (omega arith)).marked,
          ),
        ))
  ]
