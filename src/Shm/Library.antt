-- ===== src/Shm/Library.antt =====
-- `_load_posix_shm_lib` of src/fastipc/guarded_shared_memory.py: the search for a library that has
-- `shm_open` and `shm_unlink`. What `ctypes` does is a parameter.
use mathlib.Core.Path.{subst}
use pyfastipc.Base.{
  ◌≡◌, ◌⊎◌, refl, inl, inr, Bool, true, false, Bool-cases, ◌&&◌, ◌||◌, List, [], ◌∷◌, ◌++◌, Option,
  none, some, Result, ok, err, runtime_error, if◌then◌else◌, Text, codes, All, All-append, arith,
}

-- `load` is `ctypes.CDLL`, of the program itself or of a file, which can raise `OSError`; `find_library`
-- gives a name that is not empty, or None; `same` is the equality of libraries; `has` says whether a
-- library has a function.
module _ (Library : Type 0) (load : Option Text → Option Library)
    (find_library : Text → Option Text) (same : Library → Library → Bool)
    (has : Library → Text → Bool) where
  -- `candidates.append(ctypes.CDLL(file))`, where `OSError` is passed over
  abbrev append_loaded : Option Library → List Library → List Library
  append_loaded none candidates = candidates
  append_loaded (some lib) candidates = candidates ++ lib ∷ []

  -- `lib in candidates`
  unfoldable pub is_in : Library → List Library → Bool
  is_in lib [] = false
  is_in lib (c ∷ cs) = same lib c || is_in lib cs

  abbrev append_new : Option Library → List Library → List Library
  append_new none candidates = candidates
  append_new (some lib) candidates =
      if is_in lib candidates then candidates else candidates ++ lib ∷ []

  -- the file of a library, if there is one
  abbrev loaded : Option Text → Option Library
  loaded none = none
  loaded (some file) = load (some file)

  unfoldable pub candidates : List Library
  candidates =
      append_new (loaded (find_library (codes "c")))
        (append_loaded (loaded (find_library (codes "rt"))) (append_loaded (load none) []))

  abbrev pub has_both : Library → Bool
  has_both lib = has lib (codes "shm_open") && has lib (codes "shm_unlink")

  -- the loop over the candidates
  unfoldable pub first_with_both : List Library → Result Library
  first_with_both [] = err runtime_error
  first_with_both (lib ∷ libs) = if has_both lib then ok lib else first_with_both libs

  unfoldable pub load_posix_shm_lib : Result Library
  load_posix_shm_lib = first_with_both candidates

  -- The library is one of the three that are looked for.
  pub data IsSource (lib : Library) : Type 0 where
    of_program : load none ≡ some lib → IsSource lib
    of_librt : loaded (find_library (codes "rt")) ≡ some lib → IsSource lib
    of_libc : loaded (find_library (codes "c")) ≡ some lib → IsSource lib

  All-append_loaded :
      (P : Library → Type 0) (o : Option Library) (cs : List Library)
      → ((lib : Library) → o ≡ some lib → P lib)
      → All P cs
      → All P (append_loaded o cs)
  All-append_loaded P none cs h all = all
  All-append_loaded P (some lib) cs h all = All-append P cs (lib ∷ []) all (h lib refl, tt)

  All-append_new :
      (P : Library → Type 0) (o : Option Library) (cs : List Library)
      → ((lib : Library) → o ≡ some lib → P lib)
      → All P cs
      → All P (append_new o cs)
  All-append_new P none cs h all = all
  All-append_new P (some lib) cs h all = elim (Bool-cases (is_in lib cs)) [
    | inl old ↦ rw old all
    | inr new ↦ rw new (All-append P cs (lib ∷ []) all (h lib refl, tt))
  ]

  candidates-IsSource : All IsSource candidates
  unfolding candidates
  candidates-IsSource =
      All-append_new IsSource _ _ (λ lib e. of_libc e)
        (All-append_loaded IsSource _ _ (λ lib e. of_librt e)
          (All-append_loaded IsSource (load none) [] (λ lib e. of_program e) tt))

  first_with_both_of :
      (cs : List Library)
      → All IsSource cs
      → ((lib : Library) × (first_with_both cs ≡ ok lib) × IsSource lib × (has_both lib ≡ true))
        ⊎ ((first_with_both cs ≡ err runtime_error) × All (λ lib. has_both lib ≡ false) cs)
  unfolding first_with_both
  first_with_both_of [] all = inr (refl, tt)
  first_with_both_of (lib ∷ cs) (source, all) = elim (Bool-cases (has_both lib)) [
    | inl both ↦ inl (lib, rw both, source, both)
    | inr lacks ↦ elim (first_with_both_of cs all) [
      | inl (l, e, from, both) ↦ inl (l, rw lacks e, from, both)
      | inr (e, none_has) ↦ inr (rw lacks e, (lacks, none_has))
    ]
  ]

  All-front : (P : Library → Type 0) (cs ds : List Library) → All P (cs ++ ds) → All P cs × All P ds
  All-front P [] ds all = (tt, all)
  All-front P (c ∷ cs) ds (h, all) = let (front, back) = All-front P cs ds all in ((h, front), back)

  front_of_loaded :
      (P : Library → Type 0) (o : Option Library) (cs : List Library)
      → All P (append_loaded o cs)
      → All P cs × ((lib : Library) → o ≡ some lib → P lib)
  front_of_loaded P none cs all = (all, λ lib e. absurd (cc))
  front_of_loaded P (some l) cs all =
      let (front, (last, _)) = All-front P cs (l ∷ []) all in
      (front, λ lib e. let k : l ≡ lib = cc in rw (← k) last)

  module _ (sound : (a b : Library) → same a b ≡ true → a ≡ b) where
    is_in-All :
        (P : Library → Type 0) (lib : Library) (cs : List Library)
        → is_in lib cs ≡ true
        → All P cs
        → P lib
    unfolding is_in
    is_in-All P lib [] e all = absurd (cc)
    is_in-All P lib (c ∷ cs) e (h, all) = elim (Bool-cases (same lib c)) [
      | inl here ↦ rw (sound lib c here) h
      | inr further ↦
          let later : is_in lib cs ≡ true = ground (arith, further, e) in
          is_in-All P lib cs later all
    ]

    front_of_new :
        (P : Library → Type 0) (o : Option Library) (cs : List Library)
        → All P (append_new o cs)
        → All P cs × ((lib : Library) → o ≡ some lib → P lib)
    front_of_new P none cs all = (all, λ lib e. absurd (cc))
    front_of_new P (some l) cs all = elim (Bool-cases (is_in l cs)) [
      | inl old ↦
          let kept : All P cs = subst (λ b. All P (if b then cs else cs ++ l ∷ [])) old all in
          (kept, λ lib e. let k : l ≡ lib = cc in rw (← k) (is_in-All P l cs old kept))
      | inr new ↦
          let longer : All P (cs ++ l ∷ []) =
            subst (λ b. All P (if b then cs else cs ++ l ∷ [])) new all in
          front_of_loaded P (some l) cs longer
    ]

    IsSource-All :
        (P : Library → Type 0) → All P candidates → (lib : Library) → IsSource lib → P lib
    unfolding candidates
    IsSource-All P all lib source =
        let (two, by_c) = front_of_new P _ _ all in
        let (one, by_rt) = front_of_loaded P _ _ two in
        let (nil, by_program) = front_of_loaded P (load none) [] one in
        elim source [
          | of_program e ↦ by_program lib e
          | of_librt e ↦ by_rt lib e
          | of_libc e ↦ by_c lib e
        ]

    -- The search ends with one of the three libraries, which has both functions, or with
    -- `RuntimeError`, and then none of the three has both. Libraries that count as equal are the same.
    pub load_posix_shm_lib_lem :
        ((lib : Library) × (load_posix_shm_lib ≡ ok lib) × IsSource lib × (has_both lib ≡ true))
        ⊎ ((load_posix_shm_lib ≡ err runtime_error)
            × ((lib : Library) → IsSource lib → has_both lib ≡ false))
    unfolding load_posix_shm_lib
    load_posix_shm_lib_lem = elim (first_with_both_of candidates candidates-IsSource) [
      | inl found ↦ inl found
      | inr (e, all) ↦ inr (e, IsSource-All (λ lib. has_both lib ≡ false) all)
    ]
