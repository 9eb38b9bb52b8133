-- ===== src/Base/Slices.antt =====
-- Slices of a list and assignment to a slice, as Python has them on a bytearray.
use Prim.Native.Nat.{ℕ, zero, suc, ◌+◌, ◌≤◌}
use mathlib.Core.Path.{◌≡◌, refl, ap, ◌∙◌}
use mathlib.Core.List.{List, [], ◌∷◌, ◌++◌}
use native.Mathlib.Omega.{arith}
use pyfastipc.Base.Lists.{length, take, drop, length-append, length-take, length-drop}

module _ {ℓ} {A : Type ℓ} where
  -- `buffer[start : start + size]`
  abbrev pub slice : ℕ → ℕ → List A → List A
  slice start size buffer = take size (drop start buffer)

  -- `buffer[start : start + size] = bytes` on a bytearray, which takes bytes of any number
  abbrev pub assign_slice : ℕ → ℕ → List A → List A → List A
  assign_slice start size bytes buffer = take start buffer ++ (bytes ++ drop (start + size) buffer)

  pub length-slice :
      (start size : ℕ) (b : List A) → start + size ≤ length b → length (slice start size b) ≡ size
  length-slice start size b h = omega (arith, length-take size (drop start b), length-drop start b)

  pub take-append : (n : ℕ) (xs ys : List A) → length xs ≡ n → take n (xs ++ ys) ≡ xs
  take-append zero [] ys h = refl
  take-append zero (x ∷ xs) ys h = absurd (omega arith)
  take-append (suc n) [] ys h = absurd (omega arith)
  take-append (suc n) (x ∷ xs) ys h = ap (λ l. x ∷ l) (take-append n xs ys (omega arith))

  pub drop-append : (n : ℕ) (xs ys : List A) → length xs ≡ n → drop n (xs ++ ys) ≡ ys
  drop-append zero [] ys h = refl
  drop-append zero (x ∷ xs) ys h = absurd (omega arith)
  drop-append (suc n) [] ys h = absurd (omega arith)
  drop-append (suc n) (x ∷ xs) ys h = drop-append n xs ys (omega arith)

  pub take_all : (n : ℕ) (xs : List A) → length xs ≤ n → take n xs ≡ xs
  take_all zero [] h = refl
  take_all zero (x ∷ xs) h = absurd (omega arith)
  take_all (suc n) [] h = refl
  take_all (suc n) (x ∷ xs) h = ap (λ l. x ∷ l) (take_all n xs (omega arith))

  pub take-take : (m n : ℕ) (xs : List A) → m ≤ n → take m (take n xs) ≡ take m xs
  take-take zero n xs h = refl
  take-take (suc m) zero xs h = absurd (omega arith)
  take-take (suc m) (suc n) [] h = refl
  take-take (suc m) (suc n) (x ∷ xs) h = ap (λ l. x ∷ l) (take-take m n xs (omega arith))

  -- A slice inside the first `n` bytes depends on those alone.
  pub slice-take :
      (start size n : ℕ) (b : List A)
      → start + size ≤ n
      → slice start size (take n b) ≡ slice start size b
  slice-take zero size n b h = take-take size n b (omega arith)
  slice-take (suc s) size zero b h = absurd (omega arith)
  slice-take (suc s) size (suc n) [] h = refl
  slice-take (suc s) size (suc n) (x ∷ b) h = slice-take s size n b (omega arith)

  module _ (start size : ℕ) (bytes b : List A) (len : length bytes ≡ size)
      (fits : start + size ≤ length b) where
    length-take_start : length (take start b) ≡ start
    length-take_start = omega (arith, length-take start b)

    pub length-assign_slice : length (assign_slice start size bytes b) ≡ length b
    length-assign_slice = omega (
      arith,
      length-append (take start b) (bytes ++ drop (start + size) b),
      length-append bytes (drop (start + size) b),
      length-take start b,
      length-drop (start + size) b,
    )

    pub take-assign_slice : take start (assign_slice start size bytes b) ≡ take start b
    take-assign_slice = take-append start (take start b) _ length-take_start

    -- What is read back is what was written.
    pub slice-assign_slice : slice start size (assign_slice start size bytes b) ≡ bytes
    slice-assign_slice =
        ap (take size) (drop-append start (take start b) _ length-take_start)
        ∙ take-append size bytes _ len
