-- ===== src/Nptree/RoundTrip.antt =====
-- src/fastipc/nptree/schema.py on whole trees: a layout that is built for a tree fits that tree, and
-- the tree travels through a buffer of the computed size.
use pyfastipc.Base.{
  ℕ, suc, ◌≤◌, ◌<◌, ◌≡◌, refl, sym, ap, ◌∙◌, Bool, true, false, Bool-cases, inl, inr, List, [], ◌∷◌,
  Option, none, some, ok, Text, All, All₂, length, length-All₂, length-replicate, replicate, le→ltb,
  ok-injective, arith,
}
use pyfastipc.Nptree.Numpy.{Numpy, IsNumpy}
use pyfastipc.Nptree.Optree.{Optree, IsOptree, map_leaves, tree_map, tree_map₂}
use pyfastipc.Nptree.Layout.{
  Leaf, array, other, bad_alignment, build_nptree_layout, calc_buffer_size,
}
use pyfastipc.Nptree.Laid.{
  IsPlain, next_offset, Laid, Fits, Fits-le, map_leaves-Laid, map_leaves-Fits,
}
use pyfastipc.Nptree.Transfer.{
  Bytes, take_buffer, validate_layout, serialize_nptree, deserialize_nptree, desc_to_arr,
}
use pyfastipc.Nptree.Copies.{
  Holds, SameArray, map_leaves₂-Holds, map_leaves-SameArray, map_leaves₂-check_leaf,
}

length-Laid :
    (np : Numpy) (plain : np.DType → Bool) (alignment : ℕ) (offset : ℕ)
    (ls : List (Leaf np.NdArray)) (ts : List Text)
    → Laid np plain alignment offset ls ts
    → length ls ≡ length ts
length-Laid np plain alignment offset [] [] l = refl
length-Laid np plain alignment offset [] (t ∷ ts) l = absurd l
length-Laid np plain alignment offset (array a ∷ ls) [] l = absurd l
length-Laid np plain alignment offset (other ∷ ls) [] l = absurd l
length-Laid np plain alignment offset (other ∷ ls) (t ∷ ts) l = absurd l
length-Laid np plain alignment offset (array a ∷ ls) (t ∷ ts) l =
    ap suc (length-Laid np plain alignment (next_offset np alignment offset a) ls ts l.2)

length-zeros : (n : ℕ) → length {A = ℕ} (replicate n 0) ≡ n
length-zeros n = length-replicate n 0

bad_alignment-pos : (alignment : ℕ) → bad_alignment alignment ≡ false → 0 < alignment
unfolding bad_alignment
bad_alignment-pos alignment h = ground arith

module _ (np : Numpy) {plain : np.DType → Bool} (law : IsNumpy np plain) (op : Optree)
    (tree_law : IsOptree op) where
  open np use {DType, NdArray}
  open op use {Tree, tree_structure, tree_leaves, tree_unflatten, structure_eq}

  abbrev pub PlainTree : Tree (Leaf NdArray) → Type 0
  PlainTree tree = All (IsPlain np plain) (tree_leaves tree)

  -- A layout of the structure of `tree`, whose texts lay the arrays out from offset 0 on.
  pub record LaidTree (tree : Tree (Leaf NdArray)) (alignment : ℕ) (layout : Tree Text)
      : Type 0 where
    pub same : tree_structure layout ≡ tree_structure tree
    pub laid : Laid np plain alignment 0 (tree_leaves tree) (tree_leaves layout)

  build_LaidTree :
      (tree : Tree (Leaf NdArray)) (alignment : ℕ)
      → bad_alignment alignment ≡ false
      → PlainTree tree
      → (layout : Tree Text) × (build_nptree_layout np op tree alignment ≡ ok layout)
        × LaidTree tree alignment layout
  unfolding build_nptree_layout tree_map
  build_LaidTree tree alignment good h =
      let (ts, end, e, l) = map_leaves-Laid np law alignment (tree_leaves tree) 0 h in
      let len = length-Laid np plain alignment 0 (tree_leaves tree) ts l in
      (
        tree_unflatten (tree_structure tree) ts,
        rw (good, e),
        record {
          same = tree_law.structure-unflatten tree ts len;
          laid = rw (tree_law.leaves-unflatten tree ts len) l;
        },
      )

  pub LaidTree-of_build :
      {tree : Tree (Leaf NdArray)} {alignment : ℕ} {layout : Tree Text}
      → PlainTree tree
      → build_nptree_layout np op tree alignment ≡ ok layout
      → LaidTree tree alignment layout × (0 < alignment)
  LaidTree-of_build {tree} {alignment} h e = elim (Bool-cases (bad_alignment alignment)) [
    | inl bad ↦ absurd (refused bad e)
    | inr good ↦
        let (layout', e', laid) = build_LaidTree tree alignment good h in
        (rw (ok-injective (sym e ∙ e')) laid, bad_alignment-pos alignment good)
  ]
    where
      refused :
          {layout : Tree Text}
          → bad_alignment alignment ≡ true
          → build_nptree_layout np op tree alignment ≡ ok layout
          → ⊥
      refused bad eq = unfold build_nptree_layout in (let e₂ = rw bad at eq in cc)

  structure_eq_same :
      {tree : Tree (Leaf NdArray)} {alignment : ℕ} {layout : Tree Text}
      → LaidTree tree alignment layout
      → structure_eq (tree_structure tree) (tree_structure layout) ≡ true
  structure_eq_same t = (tree_law.structure_eq_iff _ _).1 (sym t.same)

  -- A layout that was built for a tree of plain arrays has a size, which covers every array.
  pub calc_buffer_size-Fits :
      {tree : Tree (Leaf NdArray)} {alignment : ℕ} {layout : Tree Text}
      → LaidTree tree alignment layout
      → (size : ℕ) × (calc_buffer_size np op layout ≡ ok size)
        × Fits np alignment size 0 (tree_leaves tree)
  unfolding calc_buffer_size tree_map
  calc_buffer_size-Fits {tree} {alignment} {layout} t =
      let (us, size, e, le, f) =
        map_leaves-Fits np law alignment (tree_leaves tree) (tree_leaves layout) 0 0 t.laid in
      (size, rw e, f)

  -- Building a layout succeeds for every tree of plain arrays and every alignment that passes the
  -- guard; the layout has the structure of the tree, and the tree passes its validation.
  pub validate-build :
      (tree : Tree (Leaf NdArray)) (alignment : ℕ)
      → bad_alignment alignment ≡ false
      → PlainTree tree
      → (layout : Tree Text) × (build_nptree_layout np op tree alignment ≡ ok layout)
        × (tree_structure layout ≡ tree_structure tree)
        × (validate_layout np op tree layout ≡ ok tt)
  unfolding validate_layout tree_map₂
  validate-build tree alignment good h =
      let (layout, e, t) = build_LaidTree tree alignment good h in
      (
        layout,
        e,
        t.same,
        rw (structure_eq_same t) (
            map_leaves₂-check_leaf np law alignment (bad_alignment-pos alignment good)
              (tree_leaves tree) (tree_leaves layout) 0 t.laid),
      )

  -- The tree that is read back from `after`: the same structure and the same arrays.
  pub record ReadBack (tree : Tree (Leaf NdArray)) (layout : Tree Text) (after : Bytes)
      : Type 0 where
    pub result : Tree NdArray
    pub read : deserialize_nptree np op layout (some after) ≡ ok result
    pub same_structure : tree_structure result ≡ tree_structure tree
    pub same_arrays : All₂ (SameArray np) (tree_leaves tree) (tree_leaves result)

  deserialize-Holds :
      {tree : Tree (Leaf NdArray)} {alignment : ℕ} {layout : Tree Text} {size : ℕ} (after : Bytes)
      → 0 < alignment
      → LaidTree tree alignment layout
      → calc_buffer_size np op layout ≡ ok size
      → size ≤ length after
      → Holds np alignment 0 (tree_leaves tree) after
      → ReadBack tree layout after
  unfolding deserialize_nptree tree_map
  deserialize-Holds {tree} {alignment} {layout} {size} after pos t e le holds = record {
    result = tree_unflatten (tree_structure layout) bs;
    read = rw (e, le→ltb (length after) size le, eq);
    same_structure = tree_law.structure-unflatten layout bs len ∙ t.same;
    same_arrays = rw (tree_law.leaves-unflatten layout bs len) same;
  }
    where
      main :
          (bs : List NdArray) × (map_leaves (desc_to_arr np after) tt (tree_leaves layout)
            ≡ ok (bs, tt))
          × All₂ (SameArray np) (tree_leaves tree) bs
      main =
          map_leaves-SameArray np law alignment pos (tree_leaves tree) (tree_leaves layout) 0 after
            t.laid holds

      bs : List NdArray
      bs = main.0

      eq : map_leaves (desc_to_arr np after) tt (tree_leaves layout) ≡ ok (bs, tt)
      eq = main.1

      same : All₂ (SameArray np) (tree_leaves tree) bs
      same = main.2

      len : length (tree_leaves layout) ≡ length bs
      len =
          sym (length-Laid np plain alignment 0 (tree_leaves tree) (tree_leaves layout) t.laid)
          ∙ length-All₂ (SameArray np) (tree_leaves tree) bs same

  serialize-Holds :
      {tree : Tree (Leaf NdArray)} {alignment : ℕ} {layout : Tree Text} {size : ℕ}
      (given : Option Bytes) (buffer : Bytes)
      → 0 < alignment
      → LaidTree tree alignment layout
      → calc_buffer_size np op layout ≡ ok size
      → take_buffer size given ≡ ok buffer
      → size ≤ length buffer
      → (after : Bytes) × (serialize_nptree np op tree layout given ≡ ok after)
        × (length after ≡ length buffer)
        × ReadBack tree layout after
  unfolding serialize_nptree tree_map₂
  serialize-Holds {tree} {alignment} {layout} {size} given buffer pos t e taken le =
      let (size', e', f) = calc_buffer_size-Fits t in
      let fits =
        Fits-le np alignment size' (length buffer) 0 (tree_leaves tree)
          (omega (arith, ok-injective (sym e' ∙ e))) f in
      let (after, eq, len, kept, holds) =
        map_leaves₂-Holds np law alignment pos (tree_leaves tree) (tree_leaves layout) 0 buffer
          t.laid fits in
      (
        after,
        rw (structure_eq_same t, e, taken) eq,
        len,
        deserialize-Holds after pos t e (omega (arith, len)) holds,
      )

  -- A tree of plain arrays survives the way through any buffer that is large enough: serializing
  -- succeeds and keeps the length of the buffer, and reading it gives the same structure with arrays
  -- of the same dtypes, shapes and elements.
  pub deserialize-serialize :
      (tree : Tree (Leaf NdArray)) (alignment : ℕ) (layout : Tree Text) (size : ℕ) (buffer : Bytes)
      → PlainTree tree
      → build_nptree_layout np op tree alignment ≡ ok layout
      → calc_buffer_size np op layout ≡ ok size
      → size ≤ length buffer
      → (after : Bytes) × (serialize_nptree np op tree layout (some buffer) ≡ ok after)
        × (length after ≡ length buffer)
        × ReadBack tree layout after
  deserialize-serialize tree alignment layout size buffer h e s le =
      let (t, pos) = LaidTree-of_build h e in
      serialize-Holds (some buffer) buffer pos t s (rw (le→ltb (length buffer) size le)) le

  -- The same with the buffer that the call makes, which has the computed size.
  pub deserialize-serialize_new :
      (tree : Tree (Leaf NdArray)) (alignment : ℕ) (layout : Tree Text)
      → PlainTree tree
      → build_nptree_layout np op tree alignment ≡ ok layout
      → (after : Bytes) × (serialize_nptree np op tree layout none ≡ ok after)
        × (calc_buffer_size np op layout ≡ ok (length after))
        × ReadBack tree layout after
  deserialize-serialize_new tree alignment layout h e =
      let (t, pos) = LaidTree-of_build h e in
      let (size, s, f) = calc_buffer_size-Fits t in
      let (after, eq, len, back) =
        serialize-Holds none (replicate size 0) pos t s refl (omega (arith, length-zeros size)) in
      (after, eq, rw (len ∙ length-zeros size) s, back)
