-- ===== src/Nptree/Offsets.antt =====
-- Where the arrays of a built layout lie, src/fastipc/nptree/schema.py.
use pyfastipc.Base.{ℕ, ◌+◌, ◌%◌, ◌≤◌, ◌<◌, ◌≡◌, refl, Bool, List, [], ◌∷◌, ok, Text, All₂, arith}
use pyfastipc.Utils.{align_up_bounds, align_up-mod}
use pyfastipc.Nptree.Numpy.{Numpy, IsNumpy}
use pyfastipc.Nptree.Optree.{Optree, IsOptree}
use pyfastipc.Nptree.Layout.{
  Leaf, array, other, ArrDesc, parse_arr_desc, build_nptree_layout, calc_buffer_size,
}
use pyfastipc.Nptree.Laid.{desc_at, next_offset, Laid, Fits}
use pyfastipc.Nptree.RoundTrip.{PlainTree, LaidTree-of_build, calc_buffer_size-Fits}

-- The entries begin at `low` or behind it, at multiples of the alignment, each behind the end of
-- the one before, and end at `size` or before.
abbrev pub Separated : {D : Type 0} → ℕ → ℕ → ℕ → List (ArrDesc D) → Type 0
Separated alignment low size [] = Unit
Separated alignment low size (d ∷ ds) =
    (d.offset % alignment ≡ 0)
    × (low ≤ d.offset)
    × (d.offset + d.size ≤ size)
    × Separated alignment (d.offset + d.size) size ds

-- The entry gives the dtype, the shape and the number of bytes of the array.
abbrev pub Describes : (np : Numpy) → Leaf np.NdArray → ArrDesc np.DType → Type 0
Describes np (array a) d = (d.dtype ≡ np.dtype a) × (d.shape ≡ np.shape a) × (d.size ≡ np.nbytes a)
Describes np other d = ⊥

module _ (np : Numpy) (plain : np.DType → Bool) (alignment : ℕ) (positive : 0 < alignment) where
  Laid-Separated :
      (ls : List (Leaf np.NdArray)) (ts : List Text) (low offset size : ℕ)
      → offset % alignment ≡ 0
      → low ≤ offset
      → Laid np plain alignment offset ls ts
      → Fits np alignment size offset ls
      → (ds : List (ArrDesc np.DType)) × All₂ (λ t d. parse_arr_desc np t ≡ ok d) ts ds
        × All₂ (Describes np) ls ds
        × Separated alignment low size ds
  Laid-Separated [] [] low offset size e le l f = ([], tt, tt, tt)
  Laid-Separated [] (t ∷ ts) low offset size e le l f = absurd l
  Laid-Separated (array a ∷ ls) [] low offset size e le l f = absurd l
  Laid-Separated (other ∷ ls) [] low offset size e le l f = absurd l
  Laid-Separated (other ∷ ls) (t ∷ ts) low offset size e le l f = absurd l
  Laid-Separated (array a ∷ ls) (t ∷ ts) low offset size e le l f =
      let (ds, parsed, described, separated) =
        Laid-Separated ls ts (offset + np.nbytes a) (next_offset np alignment offset a) size
          (align_up-mod (offset + np.nbytes a) alignment)
          (align_up_bounds (offset + np.nbytes a) alignment positive).0 l.2 f.1 in
      (
        desc_at np offset a ∷ ds,
        (l.1, parsed),
        ((refl, refl, refl), described),
        (e, le, f.0, separated),
      )

module _ (np : Numpy) {plain : np.DType → Bool} (law : IsNumpy np plain) (op : Optree)
    (tree_law : IsOptree op) where
  open op use {Tree, tree_leaves}

  -- In a layout built for a tree of plain arrays each leaf reads back as an entry with the dtype,
  -- shape and size of its array. The entries lie at multiples of the alignment, in the order of the
  -- leaves, none overlaps another, and all end within the size that `calc_buffer_size` returns.
  pub build-Separated :
      (tree : Tree (Leaf np.NdArray)) (alignment : ℕ) (layout : Tree Text)
      → PlainTree np law op tree_law tree
      → build_nptree_layout np op tree alignment ≡ ok layout
      → (size : ℕ) × (calc_buffer_size np op layout ≡ ok size)
        × ((ds : List (ArrDesc np.DType)) × All₂
              (λ t d. parse_arr_desc np t ≡ ok d)
              (tree_leaves layout)
              ds
            × All₂ (Describes np) (tree_leaves tree) ds
            × Separated alignment 0 size ds)
  build-Separated tree alignment layout h e =
      let (t, pos) = LaidTree-of_build np law op tree_law h e in
      let (size, s, f) = calc_buffer_size-Fits np law op tree_law t in
      (
        size,
        s,
        Laid-Separated np plain alignment pos (tree_leaves tree) (tree_leaves layout) 0 0 size
            (omega arith) (omega arith) t.laid f,
      )
