-- ===== src/Nptree/Numpy.antt =====
-- What src/fastipc/nptree/schema.py uses of numpy: a parameter of the model, with the documented
-- behaviour that its callers rely on.
use pyfastipc.Base.{
  ℕ, ◌*◌, ◌<◌, ◌^◌, ◌≡◌, ◌↔◌, Bool, true, List, Result, ok, Text, Lacks, tab, length, product,
}

pub record Numpy : Type 1 where
  pub DType : Type 0
  pub NdArray : Type 0
  -- `dtype.str`, `np.dtype(s)`, `dtype.itemsize` and `==` on dtypes
  pub dtype_str : DType → Text
  pub np_dtype : Text → Result DType
  pub itemsize : DType → ℕ
  pub dtype_eq : DType → DType → Bool
  -- the attributes of an array, and `arr.flags["C_CONTIGUOUS"]`
  pub dtype : NdArray → DType
  pub shape : NdArray → List ℕ
  pub nbytes : NdArray → ℕ
  pub c_contiguous : NdArray → Bool
  -- `arr.tobytes()`: the elements in C order
  pub tobytes : NdArray → List ℕ
  pub ascontiguousarray : NdArray → NdArray
  -- the bytes that `memoryview(arr).cast("B")` shows
  pub cast_bytes : NdArray → Result (List ℕ)
  -- `np.frombuffer(b, dtype).reshape(shape)`
  pub frombuffer : List ℕ → DType → List ℕ → Result NdArray

-- The dtypes that travel through a buffer, `plain` (numbers and Booleans in native byte order), and
-- what numpy documents.
pub record IsNumpy (np : Numpy) (plain : np.DType → Bool) : Type 0 where
  pub dtype_eq_iff : (d e : np.DType) → (np.dtype_eq d e ≡ true) ↔ (d ≡ e)
  -- numpy prints a plain dtype without a tab, and reads it back
  pub dtype_str-Lacks : (d : np.DType) → plain d ≡ true → Lacks tab (np.dtype_str d)
  pub np_dtype-dtype_str : (d : np.DType) → plain d ≡ true → np.np_dtype (np.dtype_str d) ≡ ok d
  pub nbytes_lem : (a : np.NdArray) → np.nbytes a ≡ product (np.shape a) * np.itemsize (np.dtype a)
  -- sizes are `npy_intp`
  pub nbytes_lt : (a : np.NdArray) → np.nbytes a < 2 ^ 63
  pub length-tobytes : (a : np.NdArray) → length (np.tobytes a) ≡ np.nbytes a
  -- a copy in C order has the same elements
  pub ascontiguousarray-contiguous :
      (a : np.NdArray) → np.c_contiguous (np.ascontiguousarray a) ≡ true
  pub tobytes-ascontiguousarray :
      (a : np.NdArray) → np.tobytes (np.ascontiguousarray a) ≡ np.tobytes a
  pub dtype-ascontiguousarray : (a : np.NdArray) → np.dtype (np.ascontiguousarray a) ≡ np.dtype a
  pub nbytes-ascontiguousarray : (a : np.NdArray) → np.nbytes (np.ascontiguousarray a) ≡ np.nbytes a
  -- the view of a contiguous array that is not empty shows its elements
  pub cast_bytes_lem :
      (a : np.NdArray)
      → plain (np.dtype a) ≡ true
      → np.c_contiguous a ≡ true
      → 0 < np.nbytes a
      → np.cast_bytes a ≡ ok (np.tobytes a)
  -- a buffer of the right length is read as an array with these elements
  pub frombuffer_lem :
      (b : List ℕ) (d : np.DType) (dims : List ℕ)
      → plain d ≡ true
      → length b ≡ product dims * np.itemsize d
      → length b < 2 ^ 63
      → (a : np.NdArray) × (np.frombuffer b d dims ≡ ok a)
        × (np.dtype a ≡ d)
        × (np.shape a ≡ dims)
        × (np.tobytes a ≡ b)
