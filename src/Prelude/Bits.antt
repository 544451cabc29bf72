-- ===== src/Prelude/Bits.antt =====
-- Laws of `bit_and` and `bit_or` that the codec needs: tables over a byte, and the union of two
-- numbers with no bit in common.
use Prim.Native.Nat.{
  ℕ, zero, suc, ◌+◌, ◌*◌, ◌/◌, ◌%◌, ◌^◌, ◌≤◌, ◌<◌, max, bit_and, bit_or, digits, bit_or-bitwise,
  compare, Ordering,
}
use mathlib.Core.Path.{◌≡◌, refl, ap}
use mathlib.Core.Bool.{Bool, true, false, ◌&&◌}
use native.Mathlib.Omega.{arith}
use native.Mathlib.Nat.{pow-suc}

abbrev or_digits : ℕ → ℕ → ℕ → ℕ
or_digits n a b = digits (λ b. b) max n a b

or_digits_fuel : (n m a b : ℕ) → a ≤ n → a ≤ m → or_digits n a b ≡ or_digits m a b
or_digits_fuel zero zero a b p q = refl
or_digits_fuel zero (suc m) zero b p q = refl
or_digits_fuel zero (suc m) (suc a) b p q = absurd (omega arith)
or_digits_fuel (suc n) zero zero b p q = refl
or_digits_fuel (suc n) zero (suc a) b p q = absurd (omega arith)
or_digits_fuel (suc n) (suc m) zero b p q = refl
or_digits_fuel (suc n) (suc m) (suc a) b p q =
    omega (arith, or_digits_fuel n m (suc a / 2) (b / 2) (omega arith) (omega arith))

pub zero-bit_or : (b : ℕ) → bit_or 0 b ≡ b
zero-bit_or b = bit_or-bitwise 0 b

bit_or_step : (a b : ℕ) → bit_or a b ≡ bit_or (a / 2) (b / 2) * 2 + max (a % 2) (b % 2)
bit_or_step zero b = omega (arith, zero-bit_or b, zero-bit_or (b / 2))
bit_or_step (suc a) b = omega (
  arith,
  bit_or-bitwise (suc a) b,
  bit_or-bitwise (suc a / 2) (b / 2),
  or_digits_fuel a (suc a / 2) (suc a / 2) (b / 2) (omega arith) (omega arith),
)

-- A bit that is set stays set.
pub bit_or-second : (a b : ℕ) → a / 2 % 2 ≡ 1 → bit_or a b / 2 % 2 ≡ 1
bit_or-second a b h = omega (arith, bit_or_step a b, bit_or_step (a / 2) (b / 2), h)

double_pow : (x k : ℕ) → x * 2 ^ suc k ≡ 2 * (x * 2 ^ k)
double_pow x k = omega (arith, ap (λ (t : ℕ). x * t) (pow-suc 2 k))

-- A number below 2 ^ k and one that has no bit below k are united by addition.
pub bit_or-disjoint : (k a x : ℕ) → a < 2 ^ k → bit_or a (x * 2 ^ k) ≡ a + x * 2 ^ k
bit_or-disjoint zero zero x h = omega (arith, zero-bit_or (x * 2 ^ 0))
bit_or-disjoint zero (suc a) x h = absurd (omega arith)
bit_or-disjoint (suc k) a x h =
    let half : x * 2 ^ suc k / 2 ≡ x * 2 ^ k = omega (arith, double_pow x k) in
    omega (
      arith,
      bit_or_step a (x * 2 ^ suc k),
      ap (λ (t : ℕ). bit_or (a / 2) t) half,
      double_pow x k,
      bit_or-disjoint k (a / 2) x (omega (arith, pow-suc 2 k)),
    )

-- Two functions that agree on every number below a bound, by evaluation.
module _ (f g : ℕ → ℕ) where
  agree_below : ℕ → Bool
  agree_below zero = true
  agree_below (suc n) =
      elim (compare (f n) (g n)) [ Ordering.eq ↦ true | _ ↦ false ] && agree_below n

  agree_below-eq : (n : ℕ) → agree_below n ≡ true → (i : ℕ) → i < n → f i ≡ g i
  unfolding agree_below
  agree_below-eq zero e i h = absurd (omega arith)
  agree_below-eq (suc n) e i h = ground (arith, agree_below-eq n (ground arith) i)

pub low_seven : (b : ℕ) → b < 256 → bit_and b 127 ≡ b % 128
unfolding agree_below
low_seven = agree_below-eq _ _ 256 refl

pub top_bit : (b : ℕ) → b < 256 → bit_and b 128 ≡ b / 128 * 128
unfolding agree_below
top_bit = agree_below-eq _ _ 256 refl

pub set_top_bit : (b : ℕ) → b < 128 → bit_or b 128 ≡ b + 128
unfolding agree_below
set_top_bit = agree_below-eq _ _ 128 refl
