-- ===== src/Nptree/Refusals.antt =====
-- What src/fastipc/nptree/schema.py refuses: trees that do not fit a layout, buffers that are too
-- small, leaves that are no arrays, alignments that are no power of two.
use pyfastipc.Base.{
  ℕ, ◌+◌, ◌<◌, ◌≡◌, ◌≢◌, refl, true, false, Bool-cases, inl, inr, List, [], ◌∷◌, Option, some, ok,
  err, value_error, type_error, Text, lt→ltb, length,
}
use pyfastipc.Utils.{align_up}
use pyfastipc.Nptree.Numpy.{Numpy}
use pyfastipc.Nptree.Optree.{Optree, IsOptree, map_leaves, tree_map}
use pyfastipc.Nptree.Layout.{
  Leaf, array, other, bad_alignment, arr_desc, build_nptree_layout, calc_buffer_size,
}
use pyfastipc.Nptree.Transfer.{Bytes, validate_layout, serialize_nptree, deserialize_nptree}

-- Some leaf is no array.
abbrev pub HasOther : {A : Type 0} → List (Leaf A) → Type 0
HasOther [] = ⊥
HasOther (array a ∷ ls) = HasOther ls
HasOther (other ∷ ls) = Unit

module _ (np : Numpy) (op : Optree) where
  open op use {Tree, tree_structure, tree_leaves, structure_eq}

  map_leaves-HasOther :
      (alignment offset : ℕ) (ls : List (Leaf np.NdArray))
      → HasOther ls
      → map_leaves (arr_desc np alignment) offset ls ≡ err type_error
  unfolding map_leaves arr_desc
  map_leaves-HasOther alignment offset [] h = absurd h
  map_leaves-HasOther alignment offset (array a ∷ ls) h =
      rw (map_leaves-HasOther alignment (align_up (offset + np.nbytes a) alignment) ls h)
  map_leaves-HasOther alignment offset (other ∷ ls) h = refl

  -- Building raises `ValueError` at a bad alignment, whatever the tree, and `TypeError` at a good
  -- one if some leaf of the tree is no array.
  pub build_refuses :
      (tree : Tree (Leaf np.NdArray)) (alignment : ℕ)
      → HasOther (tree_leaves tree)
      → build_nptree_layout np op tree alignment
        ≡ err (elim (bad_alignment alignment) [ true ↦ value_error | false ↦ type_error ])
  unfolding build_nptree_layout tree_map
  build_refuses tree alignment h = elim (Bool-cases (bad_alignment alignment)) [
    | inl bad ↦ rw bad
    | inr good ↦ rw (good, map_leaves-HasOther alignment 0 (tree_leaves tree) h)
  ]

  module _ (tree_law : IsOptree op) where
    structure_eq-ne :
        {A B : Type 0} (t : Tree A) (u : Tree B)
        → tree_structure t ≢ tree_structure u
        → structure_eq (tree_structure t) (tree_structure u) ≡ false
    structure_eq-ne t u h = elim (Bool-cases (structure_eq (tree_structure t) (tree_structure u))) [
      | inl same ↦ absurd (h ((tree_law.structure_eq_iff _ _).0 same))
      | inr differ ↦ differ
    ]

    -- A tree of another structure than the layout is refused with `ValueError`, by the validation
    -- and by the serialization, whatever the buffer.
    pub mismatch_refused :
        (tree : Tree (Leaf np.NdArray)) (layout : Tree Text) (buffer : Option Bytes)
        → tree_structure tree ≢ tree_structure layout
        → (validate_layout np op tree layout ≡ err value_error)
          × (serialize_nptree np op tree layout buffer ≡ err value_error)
    unfolding validate_layout serialize_nptree
    mismatch_refused tree layout buffer h =
        (rw (structure_eq-ne tree layout h), rw (structure_eq-ne tree layout h))

    -- A buffer below the computed size is refused with `ValueError` in both directions.
    pub short_buffer_refused :
        (tree : Tree (Leaf np.NdArray)) (layout : Tree Text) (buffer : Bytes) (size : ℕ)
        → calc_buffer_size np op layout ≡ ok size
        → length buffer < size
        → (serialize_nptree np op tree layout (some buffer) ≡ err value_error)
          × (deserialize_nptree np op layout (some buffer) ≡ err value_error)
    unfolding serialize_nptree deserialize_nptree
    short_buffer_refused tree layout buffer size e h = (
      elim (Bool-cases (structure_eq (tree_structure tree) (tree_structure layout))) [
        | inl same ↦ rw (same, e, lt→ltb _ _ h)
        | inr differ ↦ rw differ
      ],
      rw (e, lt→ltb _ _ h),
    )
