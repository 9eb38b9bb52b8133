-- ===== src/Nptree/Alignment.antt =====
-- The guard of `build_nptree_layout` in src/fastipc/nptree/schema.py: `alignment & (alignment - 1)`
-- tells the powers of two apart.
use Prim.Native.Nat.{min, bit_and, digits, bit_and-bitwise}
use native.Mathlib.Nat.{pow-suc}
use native.Mathlib.Decide.{dec_le, dec_lt}
use pyfastipc.Base.{
  ℕ, zero, suc, ◌+◌, ◌-◌, ◌*◌, ◌/◌, ◌%◌, ◌^◌, ◌≤◌, ◌<◌, ◌≡◌, ◌↔◌, refl, sym, ◌∙◌, false, arith,
}
use pyfastipc.Nptree.Layout.{bad_alignment}

-- The recursion that `bit_and` stands for; more fuel than the first number changes nothing.
and_digits : ℕ → ℕ → ℕ → ℕ
and_digits fuel a b = digits (λ _. zero) min fuel a b

and_digits-suc : (f a b : ℕ) → a ≤ f → and_digits (suc f) a b ≡ and_digits f a b
unfolding and_digits
and_digits-suc zero zero b h = refl
and_digits-suc zero (suc a) b h = absurd (omega arith)
and_digits-suc (suc f) zero b h = refl
and_digits-suc (suc f) (suc a) b h =
    omega (arith, and_digits-suc f (suc a / 2) (b / 2) (omega arith))

and_digits-bit_and : (f a b : ℕ) → a ≤ f → and_digits f a b ≡ bit_and a b
unfolding and_digits
and_digits-bit_and zero zero b h = sym (bit_and-bitwise 0 b)
and_digits-bit_and zero (suc a) b h = absurd (omega arith)
and_digits-bit_and (suc f) a b h = elim (dec_le a f) [
  | yes le ↦ and_digits-suc f a b le ∙ and_digits-bit_and f a b le
  | no gt ↦ let e : suc f ≡ a = omega arith in rw e (sym (bit_and-bitwise a b))
]

-- The lowest binary digit of `a & b`, and the others.
bit_and_halves : (a b : ℕ) → bit_and a b ≡ bit_and (a / 2) (b / 2) * 2 + min (a % 2) (b % 2)
bit_and_halves zero b = omega (arith, bit_and-bitwise 0 b, bit_and-bitwise 0 (b / 2))
bit_and_halves (suc a) b =
    sym (and_digits-bit_and (suc a) (suc a) b (omega arith))
    ∙ unfold and_digits in omega (arith, and_digits-bit_and a (suc a / 2) (b / 2) (omega arith))

-- `a & a` is `a`.
bit_and_self : (f a : ℕ) → a ≤ f → bit_and a a ≡ a
bit_and_self zero a h = let e : a ≡ 0 = omega arith in rw e (bit_and-bitwise 0 0)
bit_and_self (suc f) a h = omega (arith, bit_and_halves a a, bit_and_self f (a / 2) (omega arith))

bit_and_even : (n : ℕ) → n % 2 ≡ 0 → 0 < n → bit_and n (n - 1) ≡ bit_and (n / 2) (n / 2 - 1) * 2
bit_and_even n h p =
    let q : (n - 1) / 2 ≡ n / 2 - 1 = omega arith in bit_and_halves n (n - 1) ∙ rw q (omega arith)

bit_and_odd : (n : ℕ) → n % 2 ≡ 1 → bit_and n (n - 1) ≡ n / 2 * 2
bit_and_odd n h =
    let q : (n - 1) / 2 ≡ n / 2 = omega arith in
    bit_and_halves n (n - 1) ∙ rw q (omega (arith, bit_and_self (n / 2) (n / 2) (omega arith)))

pow_pos : (k : ℕ) → 0 < 2 ^ k
pow_pos zero = omega arith
pow_pos (suc k) = omega (arith, pow_pos k, pow-suc 2 k)

-- The test passes at each power of two.
bit_and-pow : (k : ℕ) → bit_and (2 ^ k) (2 ^ k - 1) ≡ 0
bit_and-pow zero = refl
bit_and-pow (suc k) =
    let half : 2 ^ suc k / 2 ≡ 2 ^ k = omega (arith, pow-suc 2 k) in
    bit_and_even (2 ^ suc k) (omega (arith, pow-suc 2 k)) (pow_pos (suc k))
    ∙ rw (half, bit_and-pow k)

-- A number that passes it is a power of two.
pow_of_bit_and : (f n : ℕ) → n ≤ f → 0 < n → bit_and n (n - 1) ≡ 0 → (k : ℕ) × (n ≡ 2 ^ k)
pow_of_bit_and zero n h p e = absurd (omega arith)
pow_of_bit_and (suc f) n h p e = elim (dec_lt 1 n) [
  | no one ↦ (0, omega arith)
  | yes more ↦
      let even : n % 2 ≡ 0 = ground (arith, bit_and_odd n) in
      let (k, q) =
        pow_of_bit_and f (n / 2) (omega arith) (omega arith) (omega (arith, bit_and_even n)) in
      (suc k, omega (arith, pow-suc 2 k))
]

-- The guard lets exactly the powers of two pass.
pub bad_alignment_iff :
    (alignment : ℕ) → (bad_alignment alignment ≡ false) ↔ ((k : ℕ) × (alignment ≡ 2 ^ k))
unfolding bad_alignment
bad_alignment_iff alignment = (
  λ h. pow_of_bit_and alignment alignment (omega arith) (ground arith) (ground arith),
  λ (k, e). rw e (ground (arith, pow_pos k, bit_and-pow k)),
)
