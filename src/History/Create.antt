-- ===== src/History/Create.antt =====
-- `create` of src/fastipc/data/named_history_buffer.py on a mapping, whatever it holds.
use pyfastipc.Base.{
  ℕ, ◌+◌, ◌^◌, ◌≤◌, ◌<◌, ◌≡◌, ap, sym, ◌∙◌, inl, inr, false, List, ok, err, value_error, ltb,
  length, replicate, arith,
}
use pyfastipc.Memory.{
  Mem, get, put, of_bytes, load, store, load-store, get-store-Apart, get-put-Apart, get-put,
}
use pyfastipc.Primitives.Mutex.{init_mutex, force_release}
use pyfastipc.History.Header.{magic, meta_size, history_magic}
use pyfastipc.History.Buffer.{assign, write_header, fill, create, get_meta, get_latest}
use pyfastipc.History.Publish.{Ready}

-- A new buffer: ready for its first message, with its metadata, and with nothing to read.
pub record Fresh (size n k : ℕ) (meta_encoded : List ℕ) (m : Mem) : Type 0 where
  pub ready : Ready n k 0 m
  pub meta : get_meta size m ≡ meta_encoded
  pub meta_len : meta_size m ≡ length meta_encoded
  pub marked : magic m ≡ history_magic
  pub empty : get_latest size m ≡ err value_error

module _ (size n k : ℕ) (meta_encoded : List ℕ) (m : Mem) (n_small : n < 2 ^ 64)
    (k_small : k < 2 ^ 64) (meta_small : length meta_encoded < 2 ^ 64)
    (meta_fits : 128 + length meta_encoded ≤ size) where
  abbrev headed : Mem
  headed = write_header (length meta_encoded) n k m

  abbrev blank : Mem
  blank = store 4 64 1297437784 (put 64 (replicate 64 0) headed)

  abbrev unlocked : Mem
  unlocked = store 4 76 0 (store 4 72 0 blank)

  abbrev written : Mem
  written = put 128 meta_encoded unlocked

  abbrev made : Mem
  made = store 4 64 1297437784 written

  made_same : (offset c : ℕ) → offset + c ≤ 64 → get offset c made ≡ get offset c headed
  made_same offset c h =
      get-store-Apart offset c 4 64 1297437784 _ (inl h)
      ∙ get-put-Apart offset c 128 meta_encoded _ (inl (omega arith))
      ∙ get-store-Apart offset c 4 76 0 _ (inl (omega arith))
      ∙ get-store-Apart offset c 4 72 0 _ (inl (omega arith))
      ∙ get-store-Apart offset c 4 64 1297437784 _ (inl h)
      ∙ get-put-Apart offset c 64 (replicate 64 0) _ (inl h)

  field : (p v : ℕ) → p + 8 ≤ 64 → load 8 p headed ≡ v → load 8 p made ≡ v
  field p v h e = ap of_bytes (made_same p 8 h) ∙ e

  made-meta_size : meta_size made ≡ length meta_encoded
  made-meta_size = field 8 _ (omega arith) (
      ap of_bytes (
        get-store-Apart 8 8 8 32 0 _ (inl (omega arith))
        ∙ get-store-Apart 8 8 8 24 k _ (inl (omega arith))
        ∙ get-store-Apart 8 8 8 16 n _ (inl (omega arith)))
      ∙ load-store 8 8 (length meta_encoded) _ (omega arith))

  made-magic : magic made ≡ history_magic
  made-magic = field 0 _ (omega arith) (
      ap of_bytes (
        get-store-Apart 0 8 8 32 0 _ (inl (omega arith))
        ∙ get-store-Apart 0 8 8 24 k _ (inl (omega arith))
        ∙ get-store-Apart 0 8 8 16 n _ (inl (omega arith))
        ∙ get-store-Apart 0 8 8 8 (length meta_encoded) _ (inl (omega arith)))
      ∙ load-store 8 0 history_magic _ (omega arith))

  made-Ready : Ready n k 0 made
  made-Ready = record {
    free = record {
      unlocked =
          ap of_bytes (
            get-store-Apart 72 4 4 64 1297437784 _ (inr (omega arith))
            ∙ get-put-Apart 72 4 128 meta_encoded _ (inl (omega arith))
            ∙ get-store-Apart 72 4 4 76 0 _ (inl (omega arith)))
          ∙ load-store 4 72 0 _ (omega arith);
      unowned =
          ap of_bytes (
            get-store-Apart 76 4 4 64 1297437784 _ (inr (omega arith))
            ∙ get-put-Apart 76 4 128 meta_encoded _ (inl (omega arith)))
          ∙ load-store 4 76 0 _ (omega arith);
    };
    slots = field 16 _ (omega arith) (
        ap of_bytes (
          get-store-Apart 16 8 8 32 0 _ (inl (omega arith))
          ∙ get-store-Apart 16 8 8 24 k _ (inl (omega arith)))
        ∙ load-store 8 16 n _ (omega arith));
    room = field 24 _ (omega arith) (
        ap of_bytes (get-store-Apart 24 8 8 32 0 _ (inl (omega arith)))
        ∙ load-store 8 24 k _ (omega arith));
    next = field 32 _ (omega arith) (load-store 8 32 0 _ (omega arith));
  }

  create-made : create n k meta_encoded size m ≡ (ok tt, made)
  unfolding create fill init_mutex force_release assign
  create-made =
      let room : ltb size (128 + length meta_encoded) ≡ false = ground arith in
      let good : magic written ≡ history_magic =
        sym (ap of_bytes (get-store-Apart 0 8 4 64 1297437784 written (inl (omega arith))))
        ∙ made-magic in
      rw (room, good)

  made-get_meta : get_meta size made ≡ meta_encoded
  unfolding get_meta
  made-get_meta =
      let inside : ltb size (128 + length meta_encoded) ≡ false = ground arith in
      rw (made-meta_size, inside)
        (get-store-Apart 128 (length meta_encoded) 4 64 1297437784 _ (inr (omega arith))
          ∙ get-put 128 meta_encoded unlocked)

  made-get_latest : get_latest size made ≡ err value_error
  unfolding get_latest
  made-get_latest = rw made-Ready.next

  -- Whatever the mapping held, `create` makes a buffer whose header has the given numbers, whose
  -- mutex is free, whose metadata is what `get_meta` reads, and whose `get_latest` raises
  -- `ValueError`, if the metadata fits the mapping and the numbers fit 64 bits.
  pub create-Fresh :
      (m' : Mem) × (create n k meta_encoded size m ≡ (ok tt, m')) × Fresh size n k meta_encoded m'
  create-Fresh = (
    made,
    create-made,
    record {
      ready = made-Ready;
      meta = made-get_meta;
      meta_len = made-meta_size;
      marked = made-magic;
      empty = made-get_latest;
    },
  )
