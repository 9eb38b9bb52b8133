-- ===== src/Nptree/Copies.antt =====
-- `serialize_nptree`, `deserialize_nptree` and `validate_layout` of src/fastipc/nptree/schema.py on
-- the leaves: what one copy does to the buffer, and the induction over the leaves.
use pyfastipc.Base.{
  ℕ, ◌+◌, ◌≤◌, ◌<◌, ◌≡◌, refl, sym, ap, ◌∙◌, Bool, true, Bool-cases, inl, inr, List, [], ◌∷◌, ok,
  ◌==◌, ==_iff, Text, All₂, length, slice, assign_slice, take, length-assign_slice,
  take-assign_slice, slice-assign_slice, slice-take, take-take, arith,
}
use pyfastipc.Utils.{align_up_bounds}
use pyfastipc.Nptree.Numpy.{Numpy, IsNumpy}
use pyfastipc.Nptree.Optree.{map_leaves, map_leaves₂}
use pyfastipc.Nptree.Layout.{Leaf, array, other, parse_arr_desc}
use pyfastipc.Nptree.Laid.{desc_at, next_offset, Laid, Fits}
use pyfastipc.Nptree.Transfer.{Bytes, shape_eq, check_leaf, copy_leaf, serialize_leaf, desc_to_arr}

-- The buffer holds the bytes of each array at its place.
abbrev pub Holds : (np : Numpy) → ℕ → ℕ → List (Leaf np.NdArray) → Bytes → Type 0
Holds np alignment offset [] buffer = Unit
Holds np alignment offset (array a ∷ ls) buffer =
    (slice offset (np.nbytes a) buffer ≡ np.tobytes a)
    × Holds np alignment (next_offset np alignment offset a) ls buffer
Holds np alignment offset (other ∷ ls) buffer = ⊥

-- `b` is the array `a` again: its dtype, its shape and its elements.
abbrev pub SameArray : (np : Numpy) → Leaf np.NdArray → np.NdArray → Type 0
SameArray np (array a) b =
    (np.dtype b ≡ np.dtype a) × (np.shape b ≡ np.shape a) × (np.tobytes b ≡ np.tobytes a)
SameArray np other b = ⊥

shape_eq_refl : (ns : List ℕ) → shape_eq ns ns ≡ true
shape_eq_refl [] = refl
shape_eq_refl (n ∷ ns) = ground (arith, shape_eq_refl ns)

module _ (np : Numpy) {plain : np.DType → Bool} (law : IsNumpy np plain) (alignment : ℕ)
    (positive : 0 < alignment) where
  open np use {NdArray, nbytes, dtype, shape, tobytes}

  -- The bytes of an array, contiguous or not, are copied to the place of its entry.
  copy_leaf_lem :
      (a : NdArray) (offset : ℕ) (buffer : Bytes)
      → plain (dtype a) ≡ true
      → 0 < nbytes a
      → copy_leaf np buffer (desc_at np offset a) (array a)
        ≡ ok (assign_slice offset (nbytes a) (tobytes a) buffer)
  unfolding copy_leaf
  copy_leaf_lem a offset buffer h p = elim (Bool-cases (np.c_contiguous a)) [
    | inl contiguous ↦ rw (contiguous, law.cast_bytes_lem a h contiguous p)
    | inr not_contiguous ↦ rw (
      not_contiguous,
      law.cast_bytes_lem (np.ascontiguousarray a) (rw (law.dtype-ascontiguousarray a) h)
          (law.ascontiguousarray-contiguous a) (omega (arith, law.nbytes-ascontiguousarray a)),
      law.tobytes-ascontiguousarray a,
    )
  ]

  -- What a copy leaves: the array at its place, and all before that place as it was.
  record Copied (a : NdArray) (offset : ℕ) (buffer after : Bytes) : Type 0 where
    size_kept : length after ≡ length buffer
    before : take offset after ≡ take offset buffer
    here : slice offset (nbytes a) after ≡ tobytes a

  length-eq-zero : (bytes : Bytes) → length bytes ≡ 0 → bytes ≡ []
  length-eq-zero [] h = refl
  length-eq-zero (x ∷ bytes) h = absurd (omega arith)

  serialize_leaf_lem :
      (a : NdArray) (offset : ℕ) (buffer : Bytes) (t : Text)
      → plain (dtype a) ≡ true
      → parse_arr_desc np t ≡ ok (desc_at np offset a)
      → offset + nbytes a ≤ length buffer
      → (after : Bytes) × (serialize_leaf np buffer (array a) t ≡ ok after)
        × Copied a offset buffer after
  unfolding serialize_leaf
  serialize_leaf_lem a offset buffer t h e fits = elim (Bool-cases (nbytes a == 0)) [
    | inl empty ↦ (
      buffer,
      rw (e, empty),
      record {
        size_kept = refl;
        before = refl;
        here = rw ((==_iff _ 0).0 empty) (
            sym (
              length-eq-zero (tobytes a)
                (omega (arith, law.length-tobytes a, (==_iff _ 0).0 empty))));
      },
    )
    | inr full ↦ (
      assign_slice offset (nbytes a) (tobytes a) buffer,
      rw (e, full) (copy_leaf_lem a offset buffer h (ground arith)),
      record {
        size_kept =
            length-assign_slice offset (nbytes a) (tobytes a) buffer (law.length-tobytes a) fits;
        before = take-assign_slice offset (nbytes a) (tobytes a) buffer (law.length-tobytes a) fits;
        here = slice-assign_slice offset (nbytes a) (tobytes a) buffer (law.length-tobytes a) fits;
      },
    )
  ]

  -- The copies of the later arrays leave the earlier one alone.
  slice_kept :
      (offset size next : ℕ) (b c : Bytes)
      → offset + size ≤ next
      → take next c ≡ take next b
      → slice offset size c ≡ slice offset size b
  slice_kept offset size next b c h e =
      sym (slice-take offset size next c h)
      ∙ ap (slice offset size) e
      ∙ slice-take offset size next b h

  take_kept :
      (n next : ℕ) (b c : Bytes) → n ≤ next → take next c ≡ take next b → take n c ≡ take n b
  take_kept n next b c h e = sym (take-take n next c h) ∙ ap (take n) e ∙ take-take n next b h

  pub map_leaves₂-Holds :
      (ls : List (Leaf NdArray)) (ts : List Text) (offset : ℕ) (buffer : Bytes)
      → Laid np plain alignment offset ls ts
      → Fits np alignment (length buffer) offset ls
      → (after : Bytes) × (map_leaves₂ (serialize_leaf np) buffer ls ts ≡ ok after)
        × (length after ≡ length buffer)
        × (take offset after ≡ take offset buffer)
        × Holds np alignment offset ls after
  unfolding map_leaves₂
  map_leaves₂-Holds [] [] offset buffer l f = (buffer, refl, refl, refl, tt)
  map_leaves₂-Holds [] (t ∷ ts) offset buffer l f = absurd l
  map_leaves₂-Holds (array a ∷ ls) [] offset buffer l f = absurd l
  map_leaves₂-Holds (other ∷ ls) [] offset buffer l f = absurd l
  map_leaves₂-Holds (other ∷ ls) (t ∷ ts) offset buffer l f = absurd l
  map_leaves₂-Holds (array a ∷ ls) (t ∷ ts) offset buffer (h, e, l) (fits, f) =
      let next = next_offset np alignment offset a in
      let (mid, e₁, c) = serialize_leaf_lem a offset buffer t h e fits in
      let (after, e₂, len, kept, holds) = map_leaves₂-Holds ls ts next mid l (rw c.size_kept f) in
      let le : offset + nbytes a ≤ next =
        (align_up_bounds (offset + nbytes a) alignment positive).0 in
      (
        after,
        rw (e₁, e₂),
        len ∙ c.size_kept,
        take_kept offset next mid after (omega arith) kept ∙ c.before,
        (slice_kept offset (nbytes a) next mid after le kept ∙ c.here, holds),
      )

  pub map_leaves-SameArray :
      (ls : List (Leaf NdArray)) (ts : List Text) (offset : ℕ) (buffer : Bytes)
      → Laid np plain alignment offset ls ts
      → Holds np alignment offset ls buffer
      → (bs : List NdArray) × (map_leaves (desc_to_arr np buffer) tt ts ≡ ok (bs, tt))
        × All₂ (SameArray np) ls bs
  unfolding map_leaves desc_to_arr
  map_leaves-SameArray [] [] offset buffer l f = ([], refl, tt)
  map_leaves-SameArray [] (t ∷ ts) offset buffer l f = absurd l
  map_leaves-SameArray (array a ∷ ls) [] offset buffer l f = absurd l
  map_leaves-SameArray (other ∷ ls) [] offset buffer l f = absurd l
  map_leaves-SameArray (other ∷ ls) (t ∷ ts) offset buffer l f = absurd l
  map_leaves-SameArray (array a ∷ ls) (t ∷ ts) offset buffer (h, e, l) (here, rest) =
      let (bs, e₂, same) =
        map_leaves-SameArray ls ts (next_offset np alignment offset a) buffer l rest in
      let (b, e₁, d, s, bytes) =
        law.frombuffer_lem (slice offset (nbytes a) buffer) (dtype a) (shape a) h
          (ap length here ∙ law.length-tobytes a ∙ law.nbytes_lem a)
          (omega (arith, ap length here, law.length-tobytes a, law.nbytes_lt a)) in
      (b ∷ bs, rw (e, e₁, e₂), ((d, s, bytes ∙ here), same))

  pub map_leaves₂-check_leaf :
      (ls : List (Leaf NdArray)) (ts : List Text) (offset : ℕ)
      → Laid np plain alignment offset ls ts
      → map_leaves₂ (check_leaf np) tt ls ts ≡ ok tt
  unfolding map_leaves₂ check_leaf
  map_leaves₂-check_leaf [] [] offset l = refl
  map_leaves₂-check_leaf [] (t ∷ ts) offset l = absurd l
  map_leaves₂-check_leaf (array a ∷ ls) [] offset l = absurd l
  map_leaves₂-check_leaf (other ∷ ls) [] offset l = absurd l
  map_leaves₂-check_leaf (other ∷ ls) (t ∷ ts) offset l = absurd l
  map_leaves₂-check_leaf (array a ∷ ls) (t ∷ ts) offset (h, e, l) =
      rw (e, (law.dtype_eq_iff (dtype a) (dtype a)).1 refl, shape_eq_refl (shape a))
        (map_leaves₂-check_leaf ls ts (next_offset np alignment offset a) l)
