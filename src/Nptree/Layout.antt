-- ===== src/Nptree/Layout.antt =====
-- Layouts in src/fastipc/nptree/schema.py: one line of text for each array, with its dtype, its
-- shape and the offset of its bytes in the buffer. Alignments are natural numbers: that the guard
-- refuses those below 0 is left out.
use Prim.Native.Nat.{bit_and}
use pyfastipc.Base.{
  ℕ, ◌+◌, ◌-◌, ◌*◌, ◌^◌, Bool, ◌||◌, not, List, [], ◌∷◌, ◌++◌, map, Result, ok, err, value_error,
  type_error, unmodelled, ◌>>=◌, ◌>>◌, raise_if, ltb, ◌==◌, if◌then◌else◌, Text, tab, comma, split,
  join, show, read_int, product,
}
use pyfastipc.Utils.{align_up}
use pyfastipc.Nptree.Numpy.{Numpy}
use pyfastipc.Nptree.Optree.{Optree, tree_map}

-- A leaf of a NumpyTree: an array, or an object that is none.
pub data Leaf (A : Type 0) : Type 0 where
  array : A → Leaf A
  other : Leaf A

-- What `_parse_arr_desc` returns.
pub record ArrDesc (D : Type 0) : Type 0 where
  pub dtype : D
  pub shape : List ℕ
  pub offset : ℕ
  pub size : ℕ

-- `tuple(map(int, shape_str.split(",")))`
unfoldable pub read_ints : List Text → Result (List ℕ)
read_ints [] = ok []
read_ints (p ∷ ps) = do n ← read_int p; ns ← read_ints ps; ok (n ∷ ns)

unfoldable pub parse_shape : Text → Result (List ℕ)
parse_shape [] = ok []
parse_shape (c ∷ s) = read_ints (split comma (c ∷ s))

-- `dtype_str, shape_str, offset_str = …`
abbrev pub unpack_three : List Text → Result (Text × Text × Text)
unpack_three (p ∷ q ∷ r ∷ []) = ok (p, q, r)
unpack_three _ = err value_error

-- `int(np.prod(shape) * dtype.itemsize)`, which numpy computes in 64 bits; the model says nothing
-- of a product that does not fit.
unfoldable pub size_of : List ℕ → ℕ → Result ℕ
size_of dims itemsize =
    let size = product dims * itemsize in if ltb size (2 ^ 63) then ok size else err unmodelled

-- `alignment <= 0 or (alignment & (alignment - 1)) != 0`
unfoldable pub bad_alignment : ℕ → Bool
bad_alignment alignment = alignment == 0 || not (bit_and alignment (alignment - 1) == 0)

module _ (np : Numpy) where
  open np use {DType, NdArray, dtype_str, np_dtype, itemsize, dtype, shape, nbytes}

  -- the f-string of `_arr_desc`
  unfoldable pub format_desc : DType → List ℕ → ℕ → Text
  format_desc d dims offset =
      dtype_str d ++ (tab ∷ (join comma (map show dims) ++ (tab ∷ show offset)))

  -- `_arr_desc`; the state is `offset`
  unfoldable pub arr_desc : ℕ → ℕ → Leaf NdArray → Result (Text × ℕ)
  arr_desc alignment offset (array a) =
      ok (format_desc (dtype a) (shape a) offset, align_up (offset + nbytes a) alignment)
  arr_desc alignment offset other = err type_error

  unfoldable pub parse_arr_desc : Text → Result (ArrDesc DType)
  parse_arr_desc text = do
    (dtype_text, shape_text, offset_text) ← unpack_three (split tab text)
    d ← np_dtype dtype_text
    dims ← parse_shape shape_text
    offset ← read_int offset_text
    size ← size_of dims (itemsize d)
    ok (record { dtype = d; shape = dims; offset = offset; size = size })

  -- `_update_max_offset`; the state is `max_offset`
  unfoldable pub update_max_offset : ℕ → Text → Result (Unit {0} × ℕ)
  update_max_offset max_offset text = do
    desc ← parse_arr_desc text
    let end_offset = desc.offset + desc.size
    ok (tt, if ltb max_offset end_offset then end_offset else max_offset)

  module _ (op : Optree) where
    open op use {Tree}

    unfoldable pub build_nptree_layout : Tree (Leaf NdArray) → ℕ → Result (Tree Text)
    unfolding bad_alignment arr_desc
    build_nptree_layout tree alignment = do
      raise_if (bad_alignment alignment) value_error
      (layout, _) ← tree_map op (arr_desc alignment) 0 tree
      ok layout

    unfoldable pub calc_buffer_size : Tree Text → Result ℕ
    calc_buffer_size layout = do
      (_, max_offset) ← tree_map op update_max_offset 0 layout
      ok max_offset
