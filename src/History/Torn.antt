-- ===== src/History/Torn.antt =====
-- What `get_latest` of src/fastipc/data/named_history_buffer.py reads in a buffer of one slot while
-- `publish` is between its stores.
use pyfastipc.Base.{
  ℕ, zero, suc, ◌+◌, ◌%◌, ◌^◌, ◌≤◌, ◌<◌, ◌≡◌, ◌≢◌, refl, ap, sym, ◌∙◌, inl, inr, List, [], ◌∷◌,
  ◌++◌, ok, length, take, arith,
}
use pyfastipc.Memory.{
  Mem, get, of_bytes, store, load-store, put-Apart, Write, replay, length-to_bytes, get_same,
}
use pyfastipc.History.Buffer.{Writer, get_latest}
use pyfastipc.History.Publish.{slot_at}
use pyfastipc.History.Log.{Stored, Models}
use pyfastipc.History.Accesses.{
  field_write, lock_writes, unlock_writes, count_write, publish_writes,
}
use pyfastipc.History.Untorn.{get_latest_stored}

get-take :
    (p i : ℕ) (bs : List ℕ) (m : Mem)
    → i ≤ length bs
    → get p (length bs) m ≡ bs
    → get p i m ≡ take i bs
unfolding get
get-take p zero bs m le h = refl
get-take p (suc i) [] m le h = absurd (omega arith)
get-take p (suc i) (b ∷ bs) m le h =
    let rest : get (suc p) (length bs) m ≡ bs = cc in
    let first : m p ≡ b = cc in rw (first, get-take (suc p) i bs m (omega arith) rest) refl

length-take_le : (i : ℕ) (bs : List ℕ) → i ≤ length bs → length (take i bs) ≡ i
length-take_le zero bs le = refl
length-take_le (suc i) [] le = absurd (omega arith)
length-take_le (suc i) (b ∷ bs) le = ap suc (length-take_le i bs (omega arith))

slot_one : (k j : ℕ) → slot_at k (j % 1) ≡ 128
slot_one k j = let e : j % 1 ≡ 0 = omega arith in grind arith

-- The stores of `publish` in a buffer of one slot, up to that of the length.
abbrev pub first_writes : Writer → List ℕ → List Write
first_writes writer new = lock_writes writer ++ field_write 8 128 (length new) ∷ []

module _ (size k : ℕ) (fits : slot_at k 1 ≤ size) (k_small : k < 2 ^ 64) (writer : Writer)
    (new old : List ℕ) (older : List (List ℕ)) (m : Mem) (id_small : length older + 2 < 2 ^ 63)
    (shorter : length new < length old) (models : Models size 1 k (old ∷ older) m) where
  abbrev locked_one : Mem
  locked_one = replay (lock_writes writer) m

  abbrev measured : Mem
  measured = store 8 128 (length new) locked_one

  head_kept : (x : ℕ) → x < 64 → measured x ≡ m x
  head_kept x h =
      put-Apart 128 _ locked_one x (inl (omega arith))
      ∙ put-Apart 80 _ _ x (inl (omega arith))
      ∙ put-Apart 76 _ _ x (inl (omega arith))
      ∙ put-Apart 72 _ m x (inl (omega arith))

  payload_kept : (x : ℕ) → 192 ≤ x → measured x ≡ m x
  payload_kept x h =
      put-Apart 128 _ locked_one x (inr (omega (arith, length-to_bytes 8 (length new))))
      ∙ put-Apart 80 _ _ x (inr (omega (arith, length-to_bytes 8 writer.realtime)))
      ∙ put-Apart 76 _ _ x (inr (omega (arith, length-to_bytes 4 writer.pid)))
      ∙ put-Apart 72 _ m x (inr (omega (arith, length-to_bytes 4 1)))

  measured-Stored : Stored k (length older % 1) (take (length new) old) measured
  measured-Stored =
      let (short, _, bytes) = models.logged.0 (omega arith) in
      let here = slot_one k (length older) in
      let cut = length-take_le (length new) old (omega arith) in
      let bytes₀ : get 192 (length old) measured ≡ old =
        get_same 192 (length old) m measured (λ x low high. payload_kept x low)
        ∙ ap (λ s. get (s + 64) (length old) m) (sym here)
        ∙ bytes in
      rw (here, cut)
        (
          omega arith,
          load-store 8 128 (length new) locked_one (omega arith),
          get-take 192 (length new) old measured (omega arith) bytes₀,
        )

  -- In a buffer of one slot, when `publish` of a message that is shorter than the last one has stored
  -- the length, and nothing else of the slot, `get_latest` returns the first bytes of the last message,
  -- as many as the new one has: neither message, if these are not the new one's. The slot lies inside
  -- the mapping, its size fits 64 bits and the counter 63.
  pub torn_read :
      take (length new) old ≢ new
      → let seen = get_latest size (replay (first_writes writer new) m) in
        ((rest : List Write) × (publish_writes 1 k (length older + 1) writer new
            ≡ first_writes writer new ++ rest))
        × (seen ≡ ok (take (length new) old))
        × (seen ≢ ok old)
        × (seen ≢ ok new)
  torn_read differs =
      let here = slot_one k (length older + 1) in
      let rest : List Write =
        field_write 8 136 writer.started
        ∷ ((writer.copy.stores 192 new ++ field_write 8 144 writer.ended ∷ [])
            ++ count_write (length older + 1) ∷ unlock_writes) in
      let seen : get_latest size (replay (first_writes writer new) m) ≡ ok (take (length new) old) =
        get_latest_stored size 1 k (length older) (omega arith) fits k_small (omega arith) _
          measured
          (ap of_bytes (get_same 16 8 m measured (λ x low high. head_kept x (omega arith)))
            ∙ models.ready.slots)
          (ap of_bytes (get_same 24 8 m measured (λ x low high. head_kept x (omega arith)))
            ∙ models.ready.room)
          (ap of_bytes (get_same 32 8 m measured (λ x low high. head_kept x (omega arith)))
            ∙ models.ready.next
            ∙ omega arith)
          measured-Stored in
      (
        (rest, rw here refl),
        seen,
        (λ e.
            let same : take (length new) old ≡ old = cc in
            let cut = length-take_le (length new) old (omega arith) in
            absurd (let long = ap length same in omega arith)),
        (λ e. differs (let same : take (length new) old ≡ new = cc in same)),
      )
