-- ===== src/Nptree/Laid.antt =====
-- The layout of a list of arrays from some offset on: what `build_nptree_layout` and
-- `calc_buffer_size` of src/fastipc/nptree/schema.py compute on the leaves.
use pyfastipc.Base.{
  ℕ, ◌+◌, ◌≤◌, ◌≡◌, refl, Bool, true, List, [], ◌∷◌, ok, ltb, Text, if◌then◌else◌, All, arith,
}
use pyfastipc.Utils.{align_up}
use pyfastipc.Nptree.Numpy.{Numpy, IsNumpy}
use pyfastipc.Nptree.Optree.{map_leaves}
use pyfastipc.Nptree.Layout.{
  Leaf, array, other, ArrDesc, arr_desc, parse_arr_desc, update_max_offset, format_desc,
}
use pyfastipc.Nptree.Desc.{parse-format_desc}

-- A leaf that is an array of a plain dtype.
abbrev pub IsPlain : (np : Numpy) (plain : np.DType → Bool) → Leaf np.NdArray → Type 0
IsPlain np plain (array a) = plain (np.dtype a) ≡ true
IsPlain np plain other = ⊥

-- The entry of `a` in a layout, at `offset`.
abbrev pub desc_at : (np : Numpy) → ℕ → np.NdArray → ArrDesc np.DType
desc_at np offset a = record {
  dtype = np.dtype a;
  shape = np.shape a;
  offset = offset;
  size = np.nbytes a;
}

-- Where the array behind `a` begins, if `a` begins at `offset`.
abbrev pub next_offset : (np : Numpy) → ℕ → ℕ → np.NdArray → ℕ
next_offset np alignment offset a = align_up (offset + np.nbytes a) alignment

-- The texts describe the leaves, one behind the other from `offset` on.
abbrev pub Laid :
    (np : Numpy) (plain : np.DType → Bool) → ℕ → ℕ → List (Leaf np.NdArray) → List Text → Type 0
Laid np plain alignment offset [] [] = Unit
Laid np plain alignment offset (array a ∷ ls) (t ∷ ts) =
    (plain (np.dtype a) ≡ true)
    × (parse_arr_desc np t ≡ ok (desc_at np offset a))
    × Laid np plain alignment (next_offset np alignment offset a) ls ts
Laid np plain alignment offset _ _ = ⊥

-- The bytes of the leaves end at `size` or before.
abbrev pub Fits : (np : Numpy) → ℕ → ℕ → ℕ → List (Leaf np.NdArray) → Type 0
Fits np alignment size offset [] = Unit
Fits np alignment size offset (array a ∷ ls) =
    (offset + np.nbytes a ≤ size) × Fits np alignment size (next_offset np alignment offset a) ls
Fits np alignment size offset (other ∷ ls) = ⊥

pub Fits-le :
    (np : Numpy) (alignment m n offset : ℕ) (ls : List (Leaf np.NdArray))
    → m ≤ n
    → Fits np alignment m offset ls
    → Fits np alignment n offset ls
Fits-le np alignment m n offset [] h f = tt
Fits-le np alignment m n offset (array a ∷ ls) h f =
    (omega arith, Fits-le np alignment m n (next_offset np alignment offset a) ls h f.1)
Fits-le np alignment m n offset (other ∷ ls) h f = f

module _ (np : Numpy) {plain : np.DType → Bool} (law : IsNumpy np plain) (alignment : ℕ) where
  open np use {NdArray, nbytes, dtype, shape}

  parse-arr_desc :
      (a : NdArray) (offset : ℕ)
      → plain (dtype a) ≡ true
      → parse_arr_desc np (format_desc np (dtype a) (shape a) offset) ≡ ok (desc_at np offset a)
  parse-arr_desc a offset h = rw (law.nbytes_lem a) (
      parse-format_desc np law (dtype a) (shape a) offset h
        (omega (arith, law.nbytes_lt a, law.nbytes_lem a)))

  -- Building succeeds on plain arrays.
  pub map_leaves-Laid :
      (ls : List (Leaf NdArray)) (offset : ℕ)
      → All (IsPlain np plain) ls
      → (ts : List Text) × (end : ℕ) × (map_leaves (arr_desc np alignment) offset ls ≡ ok (ts, end))
        × Laid np plain alignment offset ls ts
  unfolding map_leaves arr_desc
  map_leaves-Laid [] offset h = ([], offset, refl, tt)
  map_leaves-Laid (array a ∷ ls) offset h =
      let (ts, end, e, l) = map_leaves-Laid ls (next_offset np alignment offset a) h.1 in
      (_ ∷ ts, end, rw e, (h.0, parse-arr_desc a offset h.0, l))
  map_leaves-Laid (other ∷ ls) offset h = absurd h.0

  -- The size of a layout covers every array.
  pub map_leaves-Fits :
      (ls : List (Leaf NdArray)) (ts : List Text) (offset m : ℕ)
      → Laid np plain alignment offset ls ts
      → (us : List (Unit {0})) × (size : ℕ) × (map_leaves (update_max_offset np) m ts
          ≡ ok (us, size))
        × (m ≤ size)
        × Fits np alignment size offset ls
  unfolding map_leaves update_max_offset
  map_leaves-Fits [] [] offset m l = ([], m, refl, omega arith, tt)
  map_leaves-Fits [] (t ∷ ts) offset m l = absurd l
  map_leaves-Fits (array a ∷ ls) [] offset m l = absurd l
  map_leaves-Fits (other ∷ ls) [] offset m l = absurd l
  map_leaves-Fits (other ∷ ls) (t ∷ ts) offset m l = absurd l
  map_leaves-Fits (array a ∷ ls) (t ∷ ts) offset m l =
      let m' = if ltb m (offset + nbytes a) then offset + nbytes a else m in
      let (us, size, e, le, f) = map_leaves-Fits ls ts (next_offset np alignment offset a) m' l.2 in
      (tt ∷ us, size, rw (l.1, e), ground arith, (ground arith, f))
