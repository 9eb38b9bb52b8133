-- ===== src/Nptree/Desc.antt =====
-- The text of a layout leaf, `_arr_desc` and `_parse_arr_desc` of src/fastipc/nptree/schema.py.
use pyfastipc.Base.{
  ℕ, ◌*◌, ◌^◌, ◌<◌, ◌≡◌, ◌≢◌, refl, ap, ◌∙◌, Bool, true, List, [], ◌∷◌, map, ok, lt→ltb, Text,
  Lacks, All, All-append, tab, comma, split, split-append, split_whole, split-join, join, show,
  read_int-show, show-Lacks, show-ne-nil, product, arith,
}
use pyfastipc.Nptree.Numpy.{Numpy, IsNumpy}
use pyfastipc.Nptree.Layout.{read_ints, parse_shape, size_of, format_desc, parse_arr_desc}

All-show-Lacks : (dims : List ℕ) → All (Lacks comma) (map show dims)
All-show-Lacks [] = tt
All-show-Lacks (n ∷ dims) = (show-Lacks n comma refl, All-show-Lacks dims)

read_ints-show : (dims : List ℕ) → read_ints (map show dims) ≡ ok dims
unfolding read_ints
read_ints-show [] = refl
read_ints-show (n ∷ dims) = rw (read_int-show n, read_ints-show dims)

join-ne-nil : (sep : ℕ) (p : Text) (ps : List Text) → p ≢ [] → join sep (p ∷ ps) ≢ []
unfolding join
join-ne-nil sep p [] h = h
join-ne-nil sep [] (q ∷ ps) h = absurd (h refl)
join-ne-nil sep (c ∷ p) (q ∷ ps) h = ground arith

parse_shape_of_ne_nil : (s : Text) → s ≢ [] → parse_shape s ≡ read_ints (split comma s)
unfolding parse_shape
parse_shape_of_ne_nil [] h = absurd (h refl)
parse_shape_of_ne_nil (c ∷ s) h = refl

parse_shape-join : (dims : List ℕ) → parse_shape (join comma (map show dims)) ≡ ok dims
parse_shape-join [] = unfold parse_shape join in refl
parse_shape-join (n ∷ dims) =
    parse_shape_of_ne_nil _ (join-ne-nil comma (show n) (map show dims) (show-ne-nil n))
    ∙ ap read_ints (split-join comma (show n) (map show dims) (All-show-Lacks (n ∷ dims)))
    ∙ read_ints-show (n ∷ dims)

join-Lacks : (sep c : ℕ) (ps : List Text) → sep ≢ c → All (Lacks c) ps → Lacks c (join sep ps)
unfolding join
join-Lacks sep c [] h l = tt
join-Lacks sep c (p ∷ []) h l = l.0
join-Lacks sep c (p ∷ q ∷ ps) h l =
    All-append (λ x. x ≢ c) p _ l.0 (h, join-Lacks sep c (q ∷ ps) h l.1)

All-show-Lacks-tab : (dims : List ℕ) → All (Lacks tab) (map show dims)
All-show-Lacks-tab [] = tt
All-show-Lacks-tab (n ∷ dims) = (show-Lacks n tab refl, All-show-Lacks-tab dims)

module _ (np : Numpy) {plain : np.DType → Bool} (law : IsNumpy np plain) where
  open np use {DType, itemsize, dtype_str}

  split-format_desc :
      (d : DType) (dims : List ℕ) (offset : ℕ)
      → plain d ≡ true
      → split tab (format_desc np d dims offset)
        ≡ dtype_str d ∷ join comma (map show dims) ∷ show offset ∷ []
  unfolding format_desc
  split-format_desc d dims offset h = rw (
    split-append tab (dtype_str d) _ (law.dtype_str-Lacks d h),
    split-append tab (join comma (map show dims)) _
        (join-Lacks comma tab _ (omega arith) (All-show-Lacks-tab dims)),
    split_whole tab (show offset) (show-Lacks offset tab refl),
  )

  -- A leaf text that a layout is built with is read back as it was meant, for every plain dtype
  -- and every shape and offset, if the size of the array fits 63 bits.
  pub parse-format_desc :
      (d : DType) (dims : List ℕ) (offset : ℕ)
      → plain d ≡ true
      → product dims * itemsize d < 2 ^ 63
      → parse_arr_desc np (format_desc np d dims offset)
        ≡ ok (record { dtype = d; shape = dims; offset = offset; size = product dims * itemsize d })
  unfolding parse_arr_desc size_of
  parse-format_desc d dims offset h fits = rw (
    split-format_desc d dims offset h,
    law.np_dtype-dtype_str d h,
    parse_shape-join dims,
    read_int-show offset,
    lt→ltb _ _ fits,
  )
