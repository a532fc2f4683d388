-- ===== src/Prelude/Bits.antt =====
-- `&` on numbers that are made of fields: it works on each field by itself.
use Prim.Native.Nat.{
  ℕ, zero, suc, ◌+◌, ◌-◌, ◌*◌, ◌/◌, ◌%◌, ◌^◌, ◌≤◌, ◌<◌, min, bit_and, digits, bit_and-bitwise,
}
use mathlib.Core.Path.{◌≡◌, refl, ap, sym, ◌∙◌}
use native.Mathlib.Nat.{pow-suc}
use native.Mathlib.Omega.{arith}

-- The common digits of two numbers, of which `n` are looked at.
abbrev common : ℕ → ℕ → ℕ → ℕ
common n a b = digits (λ rest. zero) min n a b

one_digit_more : (a n b : ℕ) → a ≤ n → common (suc n) a b ≡ common n a b
one_digit_more zero zero b h = refl
one_digit_more zero (suc n) b h = refl
one_digit_more (suc a) zero b h = absurd (omega (arith, h))
one_digit_more (suc a) (suc n) b h =
    let rest = one_digit_more (suc a / 2) n (b / 2) (omega (arith, h)) in omega (arith, rest)

all_digits : (k n a b : ℕ) → n ≡ k + a → common n a b ≡ bit_and a b
all_digits zero n a b h =
    let same : n ≡ a = omega (arith, h) in rw (same) (sym (bit_and-bitwise a b))
all_digits (suc k) n a b h =
    let same : n ≡ suc (k + a) = omega (arith, h) in
    rw (same) (one_digit_more a (k + a) b (omega arith) ∙ all_digits k (k + a) a b refl)

pub zero-bit_and : (b : ℕ) → bit_and 0 b ≡ 0
zero-bit_and b = sym (all_digits 0 0 0 b refl)

-- The last digit of `a & b` and what is before it.
split_last : (b a : ℕ) → min (a % 2) (b % 2) + 2 * bit_and (a / 2) (b / 2) ≡ bit_and a b
split_last b zero = let none_left = zero-bit_and (b / 2) in omega (arith, none_left, zero-bit_and b)
split_last b (suc a) =
    let half = suc a / 2 in
    let rest = all_digits (a - half) a half (b / 2) (omega arith) in
    omega (arith, rest, bit_and-bitwise (suc a) b)

bit_and-le_both : (n a b : ℕ) → a ≤ n → (bit_and a b ≤ a) × (bit_and a b ≤ b)
bit_and-le_both n zero b h = ground (arith, zero-bit_and b)
bit_and-le_both zero (suc a) b h = absurd (omega (arith, h))
bit_and-le_both (suc n) (suc a) b h =
    let halves = bit_and-le_both n (suc a / 2) (b / 2) (omega (arith, h)) in
    ground (arith, split_last b (suc a), halves)

pub bit_and-zero : (a : ℕ) → bit_and a 0 ≡ 0
bit_and-zero a = omega (arith, (bit_and-le_both a a 0 (omega arith)).1)

double : (q k : ℕ) → q * 2 ^ suc k ≡ 2 * (q * 2 ^ k)
double q k = omega (arith, ap (λ (t : ℕ). q * t) (pow-suc 2 k))

no_low_bits : (b : ℕ) → 0 + b * 2 ^ 0 ≡ b
no_low_bits b = omega arith

-- Two fields, the low one of `k` bits.
pub bit_and-fields :
    (k a b c d : ℕ)
    → a < 2 ^ k
    → c < 2 ^ k
    → bit_and (a + b * 2 ^ k) (c + d * 2 ^ k) ≡ bit_and a c + bit_and b d * 2 ^ k
bit_and-fields zero zero b zero d p q =
    rw (no_low_bits b, no_low_bits d) (omega (arith, zero-bit_and 0))
bit_and-fields zero zero b (suc c) d p q = absurd (omega arith)
bit_and-fields zero (suc a) b c d p q = absurd (omega arith)
bit_and-fields (suc k) a b c d p q = ground (
  arith,
  split_last (c + d * 2 ^ suc k) (a + b * 2 ^ suc k),
  split_last c a,
  double b k,
  double d k,
  double (bit_and b d) k,
  pow-suc 2 k,
  bit_and-fields k (a / 2) b (c / 2) d (omega (arith, pow-suc 2 k)) (omega (arith, pow-suc 2 k)),
)

-- The mask of all bits.
pub bit_and_ones : (k a : ℕ) → a < 2 ^ k → bit_and a (2 ^ k - 1) ≡ a
bit_and_ones zero zero h = zero-bit_and 0
bit_and_ones zero (suc a) h = absurd (omega arith)
bit_and_ones (suc k) a h = ground (
  arith,
  split_last (2 ^ suc k - 1) a,
  pow-suc 2 k,
  bit_and_ones k (a / 2) (omega (arith, pow-suc 2 k)),
)

pub bit_and-le : (a b : ℕ) → bit_and a b ≤ a
bit_and-le a b = (bit_and-le_both a a b (omega arith)).0
