-- ===== src/Utils.antt =====
-- src/fastipc/utils.py: sizes rounded up to the cache line; the same rounding, at another unit,
-- separates the arrays of a layout in src/fastipc/nptree/schema.py.
mod Tests
use native.Mathlib.Nat.{mul-mod_left}
use pyfastipc.Base.{
  ℕ, ◌+◌, ◌-◌, ◌*◌, ◌/◌, ◌%◌, ◌≤◌, ◌<◌, ◌≡◌, refl, Option, none, some, Result, ok, err,
  zero_division_error, ◌>>=◌, ◌>>◌, raise_if, ◌==◌, Text, codes, read_int, Bool-cases, ==_iff, ◌⊎◌,
  inl, inr, arith,
}

-- `(size + unit - 1) // unit * unit`, at a unit that is not 0
unfoldable pub align_up : ℕ → ℕ → ℕ
align_up size unit = (size + unit - 1) / unit * unit

-- `int(os.environ.get("CACHE_LINE_SIZE", 64))`
abbrev pub line_size : Option Text → Result ℕ
line_size none = ok 64
line_size (some s) = read_int s

-- `environ` is the value of CACHE_LINE_SIZE in the environment, if it is set. `//` raises at 0.
unfoldable pub align_to_cacheline_size : Option Text → ℕ → Result ℕ
unfolding align_up
align_to_cacheline_size environ size = do
  cache_line_size ← line_size environ
  raise_if (cache_line_size == 0) zero_division_error
  ok (align_up size cache_line_size)

pub align_up_bounds :
    (size unit : ℕ) → 0 < unit → (size ≤ align_up size unit) × (align_up size unit < size + unit)
unfolding align_up
align_up_bounds size unit h = grind arith

pub align_up-mod : (size unit : ℕ) → align_up size unit % unit ≡ 0
unfolding align_up
align_up-mod size unit = mul-mod_left _ unit

-- No multiple of the unit lies between.
pub align_up_least : (size unit k : ℕ) → 0 < unit → size ≤ k * unit → align_up size unit ≤ k * unit
unfolding align_up
align_up_least size unit k h le = grind arith

-- With a cache line size above 0 in the environment, or none, a size is rounded up to the least
-- multiple of the line size (64 by default) that is not below it; a line size of 0 raises.
pub align_to_cacheline_size_lem :
    (environ : Option Text) (size line : ℕ)
    → line_size environ ≡ ok line
    → ((line ≡ 0) × (align_to_cacheline_size environ size ≡ err zero_division_error))
      ⊎ ((aligned : ℕ) × (align_to_cacheline_size environ size ≡ ok aligned)
          × (aligned % line ≡ 0)
          × (size ≤ aligned)
          × ((k : ℕ) → size ≤ k * line → aligned ≤ k * line))
unfolding align_to_cacheline_size
align_to_cacheline_size_lem environ size line e = elim (Bool-cases (line == 0)) [
  | inl zero_line ↦ inl ((==_iff line 0).0 zero_line, rw (e, zero_line))
  | inr more ↦
      let pos : 0 < line = ground arith in
      inr (
        align_up size line,
        rw (e, more),
        align_up-mod size line,
        (align_up_bounds size line pos).0,
        λ k le. align_up_least size line k pos le,
      )
]
