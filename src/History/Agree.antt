-- ===== src/History/Agree.antt =====
-- Two mappings with the same bytes hold the same history buffer of
-- src/fastipc/data/named_history_buffer.py.
use native.Mathlib.Nat.{mod-lt}
use pyfastipc.Base.{
  ℕ, zero, suc, ◌+◌, ◌%◌, ◌^◌, ◌≤◌, ◌<◌, ◌≡◌, ap, ◌∙◌, List, [], ◌∷◌, length, arith,
}
use pyfastipc.Memory.{Mem, get, of_bytes, load, get_same}
use pyfastipc.History.Buffer.{get_latest}
use pyfastipc.History.Publish.{slot_at, slot_room}
use pyfastipc.History.Log.{Stored, Logged, Models, newest}
use pyfastipc.History.Overlap.{Stored-same}
use pyfastipc.History.Untorn.{get_latest_stored}
use pyfastipc.History.Named.{byte_at}

byte_at-get : (offset c i : ℕ) (m : Mem) → i < c → byte_at (get offset c m) i ≡ m (i + offset)
unfolding get
byte_at-get offset zero i m h = absurd (omega arith)
byte_at-get offset (suc c) zero m h = let e : 0 + offset ≡ offset = omega arith in rw e
byte_at-get offset (suc c) (suc i) m h =
    let e : i + suc offset ≡ suc i + offset = omega arith in
    byte_at-get (suc offset) c i m (omega arith) ∙ ap m e

-- The first `size` bytes are the same.
abbrev pub Agree : ℕ → Mem → Mem → Type 0
Agree size m m' = (x : ℕ) → x < size → m' x ≡ m x

pub Agree-get : (size : ℕ) (m : Mem) → Agree size m (byte_at (get 0 size m))
Agree-get size m x h = let e : x + 0 ≡ x = omega arith in byte_at-get 0 size x m h ∙ ap m e

module _ (size n k : ℕ) (some_slots : 0 < n) (k_small : k < 2 ^ 64) (m m' : Mem)
    (agree : Agree size m m') (fits : slot_at k n ≤ size) where
  load_agree : (p c : ℕ) → p + c ≤ size → load c p m' ≡ load c p m
  load_agree p c h = ap of_bytes (get_same p c m m' (λ x low high. agree x (omega arith)))

  Stored-Agree :
      (i : ℕ) (payload : List ℕ) → Stored k (i % n) payload m → Stored k (i % n) payload m'
  Stored-Agree i payload =
      Stored-same n k i payload m m' (λ x (low, high).
        agree x (omega (arith, slot_room (i % n) n (64 + k) (mod-lt i some_slots))))

  Logged-Agree :
      (total : ℕ) (log : List (List ℕ)) → Logged n k total log m → Logged n k total log m'
  Logged-Agree total [] l = tt
  Logged-Agree total (payload ∷ older) (here, rest) =
      ((λ recent. Stored-Agree (length older) payload (here recent)), Logged-Agree total older rest)

  latest_agrees :
      (log : List (List ℕ))
      → length log < 2 ^ 63
      → Models size n k log m
      → get_latest size m' ≡ newest log
  unfolding get_latest
  latest_agrees [] small models =
      let none_yet = load_agree 32 8 (omega arith) ∙ models.ready.next in rw none_yet
  latest_agrees (payload ∷ older) small models =
      get_latest_stored size n k (length older) some_slots fits k_small (omega arith) payload m'
        (load_agree 16 8 (omega arith) ∙ models.ready.slots)
        (load_agree 24 8 (omega arith) ∙ models.ready.room)
        (load_agree 32 8 (omega arith) ∙ models.ready.next ∙ omega arith)
        (Stored-Agree (length older) payload (models.logged.0 (omega arith)))

  pub Models-Agree :
      (log : List (List ℕ)) → length log < 2 ^ 63 → Models size n k log m → Models size n k log m'
  Models-Agree log small models = record {
    ready = record {
      free = record {
        unlocked = load_agree 72 4 (omega arith) ∙ models.ready.free.unlocked;
        unowned = load_agree 76 4 (omega arith) ∙ models.ready.free.unowned;
      };
      slots = load_agree 16 8 (omega arith) ∙ models.ready.slots;
      room = load_agree 24 8 (omega arith) ∙ models.ready.room;
      next = load_agree 32 8 (omega arith) ∙ models.ready.next;
    };
    logged = Logged-Agree (length log) log models.logged;
    latest = latest_agrees log small models;
    marked = load_agree 0 8 (omega arith) ∙ models.marked;
    complete = rw (load_agree 8 8 (omega arith)) models.complete;
  }
