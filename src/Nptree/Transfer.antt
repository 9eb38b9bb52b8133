-- ===== src/Nptree/Transfer.antt =====
-- The checks and the copies of src/fastipc/nptree/schema.py: `validate_layout`, `serialize_nptree`
-- and `deserialize_nptree`. A buffer is the list of its bytes.
use pyfastipc.Base.{
  ℕ, Bool, true, false, ◌&&◌, not, List, [], ◌∷◌, Option, none, some, Result, ok, err, value_error,
  type_error, attribute_error, ◌>>=◌, ◌>>◌, raise_if, ltb, ◌==◌, if◌then◌else◌, Text, length, slice,
  assign_slice, replicate,
}
use pyfastipc.Nptree.Numpy.{Numpy}
use pyfastipc.Nptree.Optree.{Optree, tree_map, tree_map₂}
use pyfastipc.Nptree.Layout.{Leaf, array, other, ArrDesc, parse_arr_desc, calc_buffer_size}

abbrev pub Bytes : Type 0
Bytes = List ℕ

-- `==` on tuples of dimensions
abbrev pub shape_eq : List ℕ → List ℕ → Bool
shape_eq [] [] = true
shape_eq [] (n ∷ ns) = false
shape_eq (m ∷ ms) [] = false
shape_eq (m ∷ ms) (n ∷ ns) = m == n && shape_eq ms ns

-- The buffer that a call works on: its own argument, or a new one of zeros.
abbrev pub take_buffer : ℕ → Option Bytes → Result Bytes
take_buffer size none = ok (replicate size 0)
take_buffer size (some buffer) = if ltb (length buffer) size then err value_error else ok buffer

module _ (np : Numpy) where
  open np use {
    DType, NdArray, dtype_eq, dtype, shape, c_contiguous, ascontiguousarray, cast_bytes, frombuffer,
  }

  -- `_check`; an object that is no array has no `dtype`
  unfoldable pub check_leaf : Unit {0} → Leaf NdArray → Text → Result (Unit {0})
  check_leaf _ leaf text = do
    desc ← parse_arr_desc np text
    elim leaf [
      | other ↦ err attribute_error
      | array a ↦
          raise_if (not (dtype_eq (dtype a) desc.dtype)) type_error
          >> raise_if (not (shape_eq (shape a) desc.shape)) value_error
    ]

  -- the copy in `_serialize_leaf`, behind its early return
  unfoldable pub copy_leaf : Bytes → ArrDesc DType → Leaf NdArray → Result Bytes
  copy_leaf buffer desc other = err attribute_error
  copy_leaf buffer desc (array a) = do
    bytes ← cast_bytes (if c_contiguous a then a else ascontiguousarray a)
    ok (assign_slice desc.offset desc.size bytes buffer)

  -- `_serialize_leaf`; the state is `buffer`
  unfoldable pub serialize_leaf : Bytes → Leaf NdArray → Text → Result Bytes
  serialize_leaf buffer leaf text = do
    desc ← parse_arr_desc np text
    if desc.size == 0 then ok buffer else copy_leaf buffer desc leaf

  -- `_desc_to_arr`
  unfoldable pub desc_to_arr : Bytes → Unit {0} → Text → Result (NdArray × Unit {0})
  desc_to_arr buffer _ text = do
    desc ← parse_arr_desc np text
    a ← frombuffer (slice desc.offset desc.size buffer) desc.dtype desc.shape
    ok (a, tt)

  module _ (op : Optree) where
    open op use {Tree, tree_structure, structure_eq}

    unfoldable pub validate_layout : Tree (Leaf NdArray) → Tree Text → Result (Unit {0})
    validate_layout tree layout = do
      raise_if (not (structure_eq (tree_structure tree) (tree_structure layout))) value_error
      tree_map₂ op check_leaf tt tree layout

    unfoldable pub serialize_nptree : Tree (Leaf NdArray) → Tree Text → Option Bytes → Result Bytes
    serialize_nptree nptree layout buffer = do
      raise_if (not (structure_eq (tree_structure nptree) (tree_structure layout))) value_error
      buffer_size ← calc_buffer_size np op layout
      target ← take_buffer buffer_size buffer
      tree_map₂ op serialize_leaf target nptree layout

    unfoldable pub deserialize_nptree : Tree Text → Option Bytes → Result (Tree NdArray)
    deserialize_nptree layout buffer = do
      min_buffer_size ← calc_buffer_size np op layout
      source ← take_buffer min_buffer_size buffer
      (tree, _) ← tree_map op (desc_to_arr source) tt layout
      ok tree
