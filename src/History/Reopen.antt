-- ===== src/History/Reopen.antt =====
-- `NamedHistoryBuffer.__init__` of src/fastipc/data/named_history_buffer.py on a segment that holds a
-- history buffer.
use pyfastipc.Base.{
  sym, ℕ, ◌+◌, ◌-◌, ◌*◌, ◌≤◌, ◌≡◌, ap, ◌∙◌, inl, inr, false, Bool-cases, List, [], ◌∷◌, some,
  Result-cases, ok, ltb, ◌==◌, length, arith,
}
use pyfastipc.Memory.{Mem, get, of_bytes, load, store, get-store-Apart, Apart}
use pyfastipc.Primitives.Mutex.{init_mutex}
use pyfastipc.History.Header.{
  meta_size, meta_space, num_slots, slot_size, msg_idx_bits, calc_slot_offset, calc_total_size,
  slot_of,
}
use pyfastipc.History.Buffer.{view, get_latest, attach, open_existing}
use pyfastipc.History.Publish.{slot_at}
use pyfastipc.History.Log.{Logged, Models}

-- The memory is the same outside the magic number of the mutex.
abbrev SameButMagic : Mem → Mem → Type 0
SameButMagic m m' = (offset c : ℕ) → Apart offset c 64 4 → get offset c m' ≡ get offset c m

view_same :
    (size offset c : ℕ) (m m' : Mem)
    → SameButMagic m m'
    → 128 ≤ offset
    → view size offset c m' ≡ view size offset c m
view_same size offset c m m' same h = elim (Bool-cases (ltb size (offset + c))) [
  | inl cut ↦ rw cut (same offset (size - offset) (inr (omega arith)))
  | inr whole ↦ rw whole (same offset c (inr (omega arith)))
]

get_latest_same :
    (size : ℕ) (m m' : Mem) → SameButMagic m m' → get_latest size m' ≡ get_latest size m
unfolding get_latest calc_slot_offset
get_latest_same size m m' same =
    rw (same 32 8 (inl (omega arith)), same 16 8 (inl (omega arith)), same 24 8 (inl (omega arith)))
      (elim (Bool-cases (msg_idx_bits m == 0)) [
        | inl nothing ↦ rw nothing
        | inr more ↦ elim (Result-cases (slot_of (msg_idx_bits m) 1 (num_slots m))) [
          | inr (x, e) ↦ rw (more, e)
          | inl (i, e) ↦ elim (Bool-cases (ltb size (128 + i * (64 + slot_size m) + 64))) [
            | inl outside ↦ rw (more, e, outside)
            | inr inside ↦
                let s = 128 + i * (64 + slot_size m) in
                let measured : load 8 s m' ≡ load 8 s m =
                  ap of_bytes (same s 8 (inr (omega arith))) in
                rw (more, e, inside)
                  (ap (λ c. ok (view size (s + 64) c m')) measured
                    ∙ ap ok (view_same size (s + 64) (load 8 s m) m m' same (omega arith)))
          ]
        ]
      ])

Logged-same :
    (n k total : ℕ) (log : List (List ℕ)) (m m' : Mem)
    → SameButMagic m m'
    → Logged n k total log m
    → Logged n k total log m'
Logged-same n k total [] m m' same l = tt
Logged-same n k total (payload ∷ older) m m' same (here, rest) = (
  (λ recent.
      let (short, measured, stored) = here recent in
      (
        short,
        ap of_bytes (same _ 8 (inr (omega arith))) ∙ measured,
        same _ (length payload) (inr (omega arith)) ∙ stored,
      )),
  Logged-same n k total older m m' same rest,
)

pub attach-Models :
    (size n k : ℕ) (log : List (List ℕ)) (m : Mem)
    → Models size n k log m
    → (m' : Mem) × (attach m ≡ (ok tt, m')) × Models size n k log m'
unfolding init_mutex
attach-Models size n k log m models =
    let m' = store 4 64 1297437784 m in
    let same : SameButMagic m m' = λ offset c h. get-store-Apart offset c 4 64 1297437784 m h in
    let load_same : (p c : ℕ) → Apart p c 64 4 → load c p m' ≡ load c p m =
      λ p c h. ap of_bytes (same p c h) in
    (
      m',
      rw models.marked,
      record {
        ready = record {
          free = record {
            unlocked = load_same 72 4 (inr (omega arith)) ∙ models.ready.free.unlocked;
            unowned = load_same 76 4 (inr (omega arith)) ∙ models.ready.free.unowned;
          };
          slots = load_same 16 8 (inl (omega arith)) ∙ models.ready.slots;
          room = load_same 24 8 (inl (omega arith)) ∙ models.ready.room;
          next = load_same 32 8 (inl (omega arith)) ∙ models.ready.next;
        };
        logged = Logged-same n k (length log) log m m' same models.logged;
        latest = get_latest_same size m m' same ∙ models.latest;
        marked = load_same 0 8 (inl (omega arith)) ∙ models.marked;
        complete = rw (load_same 8 8 (inl (omega arith))) models.complete;
      },
    )

-- The size that the header asks for.
pub calc_total_size-Models :
    (size n k : ℕ) (log : List (List ℕ)) (m : Mem)
    → Models size n k log m
    → calc_total_size m ≡ slot_at k n + meta_space (meta_size m)
unfolding calc_total_size
calc_total_size-Models size n k log m models = rw (models.ready.slots, models.ready.room)

-- A process that opens a segment that holds a history buffer succeeds, and finds the buffer of the
-- same log.
pub open_existing-Models :
    (size n k : ℕ) (log : List (List ℕ)) (m : Mem)
    → Models size n k log m
    → (m' : Mem) × (open_existing (some (size, m)) ≡ (ok tt, some (size, m')))
      × Models size n k log m'
unfolding open_existing
open_existing-Models size n k log m models =
    let (m', e, models') = attach-Models size n k log m models in
    let long : ltb size 128 ≡ false = ground (arith, models.complete) in
    let total = calc_total_size-Models size n k log m models in
    let whole : ltb size (calc_total_size m) ≡ false = ground (arith, total, models.complete) in
    let begun : attach m ≡ init_mutex 64 64 m = rw models.marked in
    (
      m',
      rw (long, models.marked, whole) (ap (λ x. (x.0, some (size, x.1))) (sym begun ∙ e)),
      models',
    )
