-- ===== src/Nptree/Tests.antt =====
-- A small numpy and a small optree that meet the assumptions, and the theorems at concrete trees.
use native.Mathlib.Decide.{dec_lt, ℕ_discrete}
use pyfastipc.Base.{
  ℕ, ◌*◌, ◌^◌, ◌<◌, ◌≡◌, refl, sym, Bool, true, false, List, [], ◌∷◌, none, some, Result, ok, err,
  value_error, ◌↔◌, Text, ◌==◌, ==_iff, length, product, show, show-Lacks, read_int, read_int-show,
  codes, split, join, All₂, arith,
}
use pyfastipc.Utils.{align_up}
use pyfastipc.Nptree.Numpy.{Numpy, IsNumpy}
use pyfastipc.Nptree.Optree.{Optree, IsOptree, map_leaves, map_leaves₂, tree_map, tree_map₂}
use pyfastipc.Nptree.Layout.{
  Leaf, array, ArrDesc, build_nptree_layout, calc_buffer_size, format_desc, update_max_offset,
  parse_arr_desc, parse_shape, read_ints, size_of, bad_alignment,
}
use pyfastipc.Nptree.Transfer.{serialize_nptree, serialize_leaf, copy_leaf, validate_layout}
use pyfastipc.Nptree.Desc.{parse-format_desc}
use pyfastipc.Nptree.RoundTrip.{PlainTree, ReadBack, validate-build, deserialize-serialize}
use pyfastipc.Nptree.Alignment.{bad_alignment_iff}
use pyfastipc.Nptree.Offsets.{Separated, Describes, build-Separated}

-- Arrays of numbers of `item` bytes each, with the proof that the bytes are as many as they should.
record Sample : Type 0 where
  item : ℕ
  dims : List ℕ
  elems : List ℕ
  contiguous : Bool
  sized : length elems ≡ product dims * item
  small : length elems < 2 ^ 63

module _ (b : List ℕ) (d : ℕ) (dims : List ℕ) where
  abbrev read_small : length b ≡ product dims * d → Dec (length b < 2 ^ 63) → Result Sample
  read_small e (yes l) =
      ok (record { item = d; dims = dims; elems = b; contiguous = true; sized = e; small = l })
  read_small e (no _) = err value_error

  abbrev read_sized : Dec (length b ≡ product dims * d) → Result Sample
  unfolding dec_lt
  read_sized (yes e) = read_small e (dec_lt (length b) (2 ^ 63))
  read_sized (no _) = err value_error

  -- The array that is read.
  abbrev Reads : Result Sample → Type 0
  Reads r = (a : Sample) × (r ≡ ok a) × (a.item ≡ d) × (a.dims ≡ dims) × (a.elems ≡ b)

  read_small_lem :
      (e : length b ≡ product dims * d) (x : Dec (length b < 2 ^ 63))
      → length b < 2 ^ 63
      → Reads (read_small e x)
  read_small_lem e (yes l) h = (_, refl, refl, refl, refl)
  read_small_lem e (no n) h = absurd (n h)

  read_sized_lem :
      (x : Dec (length b ≡ product dims * d))
      → length b ≡ product dims * d
      → length b < 2 ^ 63
      → Reads (read_sized x)
  unfolding dec_lt
  read_sized_lem (yes e) h l = read_small_lem e (dec_lt (length b) (2 ^ 63)) l
  read_sized_lem (no n) h l = absurd (n h)

-- Numbers of any size in a buffer of the right length.
abbrev read_array : List ℕ → ℕ → List ℕ → Result Sample
unfolding ℕ_discrete dec_lt
read_array b d dims = read_sized b d dims (ℕ_discrete (length b) (product dims * d))

abbrev numpy : Numpy
numpy = record {
  DType = ℕ;
  NdArray = Sample;
  dtype_str = show;
  np_dtype = read_int;
  itemsize = λ d. d;
  dtype_eq = ◌==◌;
  dtype = λ a. a.item;
  shape = λ a. a.dims;
  nbytes = λ a. length a.elems;
  c_contiguous = λ a. a.contiguous;
  tobytes = λ a. a.elems;
  ascontiguousarray = λ a. record a { contiguous = true };
  cast_bytes = λ a. ok a.elems;
  frombuffer = read_array;
}

read_array_lem :
    (b : List ℕ) (d : ℕ) (dims : List ℕ)
    → length b ≡ product dims * d
    → length b < 2 ^ 63
    → Reads b d dims (read_array b d dims)
unfolding ℕ_discrete dec_lt
read_array_lem b d dims e l = read_sized_lem b d dims _ e l

numpy-IsNumpy : IsNumpy numpy (λ _. true)
numpy-IsNumpy = record {
  dtype_eq_iff = ==_iff;
  dtype_str-Lacks = λ d _. show-Lacks d 9 refl;
  np_dtype-dtype_str = λ d _. read_int-show d;
  nbytes_lem = λ a. a.sized;
  nbytes_lt = λ a. a.small;
  length-tobytes = λ a. refl;
  ascontiguousarray-contiguous = λ a. refl;
  tobytes-ascontiguousarray = λ a. refl;
  dtype-ascontiguousarray = λ a. refl;
  nbytes-ascontiguousarray = λ a. refl;
  cast_bytes_lem = λ a _ _ _. refl;
  frombuffer_lem = λ b d dims _ e l. read_array_lem b d dims e l;
}

-- Trees that are lists: the structure is the number of leaves.
abbrev optree : Optree
optree = record {
  Tree = List;
  Structure = ℕ;
  tree_structure = length;
  tree_leaves = λ t. t;
  tree_unflatten = λ _ l. l;
  structure_eq = ◌==◌;
}

optree-IsOptree : IsOptree optree
optree-IsOptree = record {
  structure_eq_iff = ==_iff;
  structure-length = λ t u e. e;
  leaves-unflatten = λ t bs e. refl;
  structure-unflatten = λ t bs e. sym e;
}

-- An array of three two-byte numbers that is not contiguous, an empty one, and one byte.
abbrev triple : Sample
triple = record {
  item = 2;
  dims = 3 ∷ [];
  elems = 1 ∷ 2 ∷ 3 ∷ 4 ∷ 5 ∷ 6 ∷ [];
  contiguous = false;
  sized = refl;
  small = omega arith;
}

abbrev nothing : Sample
nothing = record {
  item = 4;
  dims = 0 ∷ 7 ∷ [];
  elems = [];
  contiguous = true;
  sized = refl;
  small = omega arith;
}

abbrev one_byte : Sample
one_byte = record {
  item = 1;
  dims = [];
  elems = 9 ∷ [];
  contiguous = true;
  sized = refl;
  small = omega arith;
}

abbrev tree : List (Leaf Sample)
tree = array triple ∷ array nothing ∷ array one_byte ∷ []

abbrev layout : List Text
layout = codes "2\t3\t0" ∷ codes "4\t0,7\t8" ∷ codes "1\t\t8" ∷ []

build_tree : build_nptree_layout numpy optree tree 8 ≡ ok layout
unfolding build_nptree_layout tree_map map_leaves format_desc join show align_up
build_tree = refl

calc_tree : calc_buffer_size numpy optree layout ≡ ok 9
unfolding calc_buffer_size tree_map map_leaves update_max_offset parse_arr_desc parse_shape
    read_ints read_int split size_of
calc_tree = refl

serialize_tree :
    serialize_nptree numpy optree tree layout none ≡ ok (1 ∷ 2 ∷ 3 ∷ 4 ∷ 5 ∷ 6 ∷ 0 ∷ 0 ∷ 9 ∷ [])
unfolding serialize_nptree calc_buffer_size tree_map tree_map₂ map_leaves map_leaves₂
    update_max_offset parse_arr_desc parse_shape read_ints read_int split size_of serialize_leaf
    copy_leaf
serialize_tree = refl

tree_plain : PlainTree numpy numpy-IsNumpy optree optree-IsOptree tree
tree_plain = (refl, (refl, (refl, tt)))

parse-format_desc_example :
    parse_arr_desc numpy (format_desc numpy 2 (3 ∷ 5 ∷ []) 64)
    ≡ ok (record { dtype = 2; shape = 3 ∷ 5 ∷ []; offset = 64; size = 30 })
parse-format_desc_example =
    parse-format_desc numpy numpy-IsNumpy 2 (3 ∷ 5 ∷ []) 64 refl (omega arith)

validate-build_example :
    (l : List Text) × (build_nptree_layout numpy optree tree 8 ≡ ok l)
    × (length l ≡ 3)
    × (validate_layout numpy optree tree l ≡ ok tt)
unfolding bad_alignment
validate-build_example =
    validate-build numpy numpy-IsNumpy optree optree-IsOptree tree 8 refl tree_plain

abbrev big_buffer : List ℕ
big_buffer = 7 ∷ 7 ∷ 7 ∷ 7 ∷ 7 ∷ 7 ∷ 7 ∷ 7 ∷ 7 ∷ 7 ∷ 7 ∷ []

deserialize-serialize_example :
    (after : List ℕ) × (serialize_nptree numpy optree tree layout (some big_buffer) ≡ ok after)
    × (length after ≡ 11)
    × ReadBack numpy numpy-IsNumpy optree optree-IsOptree tree layout after
deserialize-serialize_example =
    deserialize-serialize numpy numpy-IsNumpy optree optree-IsOptree tree 8 layout 9 big_buffer
      tree_plain build_tree calc_tree (omega arith)

build-Separated_example :
    (size : ℕ) × (calc_buffer_size numpy optree layout ≡ ok size)
    × ((ds : List (ArrDesc ℕ)) × All₂ (λ t d. parse_arr_desc numpy t ≡ ok d) layout ds
        × All₂ (Describes numpy) tree ds
        × Separated 8 0 size ds)
build-Separated_example =
    build-Separated numpy numpy-IsNumpy optree optree-IsOptree tree 8 layout tree_plain build_tree

bad_alignment_iff_example : (bad_alignment 24 ≡ false) ↔ ((k : ℕ) × (24 ≡ 2 ^ k))
bad_alignment_iff_example = bad_alignment_iff 24
