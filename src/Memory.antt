-- ===== src/Memory.antt =====
-- Shared memory as src/fastipc/data and src/fastipc/_primitives see it: a mapping of a fixed number
-- of bytes, with the little-endian fields that ctypes structures and C code keep in it.
use native.Mathlib.Nat.{pow-suc}
use pyfastipc.Base.{
  ℕ, zero, suc, ◌+◌, ◌*◌, ◌/◌, ◌%◌, ◌^◌, ◌≤◌, ◌<◌, ◌≡◌, refl, ap, sym, ◌∙◌, ◌⊎◌, List, [], ◌∷◌,
  ◌==◌, if◌then◌else◌, inl, inr, Bool-cases, ◌++◌, length, All, arith,
}

-- the byte at each offset
abbrev pub Mem : Type 0
Mem = ℕ → ℕ

-- `buf[offset : offset + n]`, inside the mapping
unfoldable pub get : ℕ → ℕ → Mem → List ℕ
get offset zero m = []
get offset (suc n) m = m offset ∷ get (suc offset) n m

-- `buf[offset : offset + len(bytes)] = bytes`, inside the mapping
unfoldable pub put : ℕ → List ℕ → Mem → Mem
put offset [] m = m
put offset (b ∷ bs) m = λ i. if i == offset then b else put (suc offset) bs m i

-- An unsigned number in `width` bytes, which keeps its value modulo `256 ^ width`, and back.
unfoldable pub to_bytes : ℕ → ℕ → List ℕ
to_bytes zero v = []
to_bytes (suc width) v = v % 256 ∷ to_bytes width (v / 256)

unfoldable pub of_bytes : List ℕ → ℕ
of_bytes [] = 0
of_bytes (b ∷ bs) = b + 256 * of_bytes bs

abbrev pub load : ℕ → ℕ → Mem → ℕ
load width offset m = of_bytes (get offset width m)

abbrev pub store : ℕ → ℕ → ℕ → Mem → Mem
store width offset v m = put offset (to_bytes width v) m

pub length-to_bytes : (width v : ℕ) → length (to_bytes width v) ≡ width
unfolding to_bytes
length-to_bytes zero v = refl
length-to_bytes (suc w) v = ap suc (length-to_bytes w (v / 256))

of_bytes-to_bytes : (width v : ℕ) → v < 256 ^ width → of_bytes (to_bytes width v) ≡ v
unfolding to_bytes of_bytes
of_bytes-to_bytes zero v h = omega arith
of_bytes-to_bytes (suc w) v h =
    let below : v / 256 < 256 ^ w = omega (arith, pow-suc 256 w) in
    omega (arith, of_bytes-to_bytes w (v / 256) below)

-- The ranges of `n` bytes at `offset` and of `k` bytes at `p` do not meet.
abbrev pub Apart : ℕ → ℕ → ℕ → ℕ → Type 0
Apart offset n p k = (offset + n ≤ p) ⊎ (p + k ≤ offset)

pub put-Apart :
    (p : ℕ) (bs : List ℕ) (m : Mem) (i : ℕ) → Apart i 1 p (length bs) → put p bs m i ≡ m i
unfolding put
put-Apart p [] m i h = refl
put-Apart p (b ∷ bs) m i h = ground (arith, put-Apart (suc p) bs m i)

pub get-put-Apart :
    (offset n p : ℕ) (bs : List ℕ) (m : Mem)
    → Apart offset n p (length bs)
    → get offset n (put p bs m) ≡ get offset n m
unfolding get
get-put-Apart offset zero p bs m h = refl
get-put-Apart offset (suc n) p bs m h =
    rw (put-Apart p bs m offset (ground arith), get-put-Apart (suc offset) n p bs m (ground arith))

get_put_below :
    (offset n p b : ℕ) (m : Mem)
    → p < offset
    → get offset n (λ i. if i == p then b else m i) ≡ get offset n m
unfolding get
get_put_below offset zero p b m h = refl
get_put_below offset (suc n) p b m h = ground (arith, get_put_below (suc offset) n p b m)

pub get-put : (offset : ℕ) (bs : List ℕ) (m : Mem) → get offset (length bs) (put offset bs m) ≡ bs
unfolding get put
get-put offset [] m = refl
get-put offset (b ∷ bs) m = ground (
  arith,
  get_put_below (suc offset) (length bs) offset b (put (suc offset) bs m),
  get-put (suc offset) bs m,
)

pub load-store :
    (width offset v : ℕ) (m : Mem)
    → v < 256 ^ width
    → load width offset (store width offset v m) ≡ v
load-store width offset v m h =
    ap (λ n. of_bytes (get offset n (put offset (to_bytes width v) m)))
      (sym (length-to_bytes width v))
    ∙ ap of_bytes (get-put offset (to_bytes width v) m)
    ∙ of_bytes-to_bytes width v h

pub get-store-Apart :
    (offset n width p v : ℕ) (m : Mem)
    → Apart offset n p width
    → get offset n (store width p v m) ≡ get offset n m
get-store-Apart offset n width p v m h =
    get-put-Apart offset n p (to_bytes width v) m (rw (length-to_bytes width v) h)

pub load-store-Apart :
    (k p width q v : ℕ) (m : Mem) → Apart p k q width → load k p (store width q v m) ≡ load k p m
load-store-Apart k p width q v m h = ap of_bytes (get-store-Apart p k width q v m h)

-- One store of these bytes at this place, and stores one after the other.
pub record Write : Type 0 where
  pub place : ℕ
  pub bytes : List ℕ

abbrev pub perform : Write → Mem → Mem
perform w m = put w.place w.bytes m

abbrev pub replay : List Write → Mem → Mem
replay [] m = m
replay (w ∷ ws) m = replay ws (perform w m)

-- A copy of bytes, one byte at a time.
abbrev pub bytewise : ℕ → List ℕ → List Write
bytewise p [] = []
bytewise p (b ∷ bs) = record { place = p; bytes = b ∷ [] } ∷ bytewise (suc p) bs

pub replay-append : (ws vs : List Write) (m : Mem) → replay (ws ++ vs) m ≡ replay vs (replay ws m)
replay-append [] vs m = refl
replay-append (w ∷ ws) vs m = replay-append ws vs (perform w m)

pub put_local : (p i : ℕ) (bs : List ℕ) (m m' : Mem) → m i ≡ m' i → put p bs m i ≡ put p bs m' i
unfolding put
put_local p i [] m m' h = h
put_local p i (b ∷ bs) m m' h = ground (arith, put_local (suc p) i bs m m' h)

put_first :
    (p b : ℕ) (bs : List ℕ) (m : Mem) (i : ℕ)
    → put (suc p) bs (put p (b ∷ []) m) i ≡ put p (b ∷ bs) m i
unfolding put
put_first p b bs m i = elim (Bool-cases (i == p)) [
  | inl e ↦ rw e (put-Apart (suc p) bs (put p (b ∷ []) m) i (inl (ground arith)) ∙ rw e)
  | inr n ↦ rw n (put_local (suc p) i bs (put p (b ∷ []) m) m (rw n))
]

pub replay-bytewise : (p : ℕ) (bs : List ℕ) (m : Mem) → replay (bytewise p bs) m ≡ put p bs m
unfolding put
replay-bytewise p [] m = refl
replay-bytewise p (b ∷ bs) m =
    replay-bytewise (suc p) bs (put p (b ∷ []) m) ∙ (λ i x. put_first p b bs m x i)

-- Bytes that are the same one by one are the same together.
pub get_same :
    (offset c : ℕ) (m m' : Mem)
    → ((x : ℕ) → offset ≤ x → x < offset + c → m' x ≡ m x)
    → get offset c m' ≡ get offset c m
unfolding get
get_same offset zero m m' h = refl
get_same offset (suc c) m m' h = rw (
  h offset (omega arith) (omega arith),
  get_same (suc offset) c m m' (λ x low high. h x (omega arith) (omega arith)),
)

-- The store goes to these `c` bytes at `p`.
abbrev pub Within : ℕ → ℕ → Write → Type 0
Within p c w = (p ≤ w.place) × (w.place + length w.bytes ≤ p + c)

-- How the C library copies bytes: by stores inside the destination, of any size and in any order, which
-- leave the bytes there.
pub record Copy : Type 0 where
  pub stores : ℕ → List ℕ → List Write
  pub inside : (p : ℕ) (bs : List ℕ) → All (Within p (length bs)) (stores p bs)
  pub same : (p : ℕ) (bs : List ℕ) (m : Mem) → replay (stores p bs) m ≡ put p bs m

pub bytewise-Within :
    (p c q : ℕ) (bs : List ℕ) → p ≤ q → q + length bs ≤ p + c → All (Within p c) (bytewise q bs)
bytewise-Within p c q [] low high = tt
bytewise-Within p c q (b ∷ bs) low high =
    ((low, omega arith), bytewise-Within p c (suc q) bs (omega arith) (omega arith))

-- One that takes a byte at a time.
abbrev pub bytewise_copy : Copy
bytewise_copy = record {
  stores = bytewise;
  inside = λ p bs. bytewise-Within p (length bs) p bs (omega arith) (omega arith);
  same = replay-bytewise;
}
