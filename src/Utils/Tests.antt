-- ===== src/Utils/Tests.antt =====
-- src/fastipc/utils.py at concrete sizes.
use pyfastipc.Base.{
  ℕ, ◌*◌, ◌%◌, ◌≤◌, ◌≡◌, refl, ◌⊎◌, some, ok, err, zero_division_error, Text, codes, read_int,
}
use pyfastipc.Utils.{align_to_cacheline_size, align_to_cacheline_size_lem}

abbrev sixteen : Text
sixteen = codes "16"

align_to_cacheline_size_lem_example :
    (◌≡◌ {A = ℕ} 16 0 × (align_to_cacheline_size (some sixteen) 17 ≡ err zero_division_error))
    ⊎ ((aligned : ℕ) × (align_to_cacheline_size (some sixteen) 17 ≡ ok aligned)
        × (aligned % 16 ≡ 0)
        × (17 ≤ aligned)
        × ((k : ℕ) → 17 ≤ k * 16 → aligned ≤ k * 16))
unfolding read_int
align_to_cacheline_size_lem_example = align_to_cacheline_size_lem (some sixteen) 17 16 refl
