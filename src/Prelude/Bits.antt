-- ===== src/Prelude/Bits.antt =====
-- `x & (2^k - 1)` is the remainder by `2^k`, and a number that wrapped at a multiple of a divisor
-- keeps its remainder.
use Prim.Native.Nat.{
  ℕ, zero, suc, ◌+◌, ◌-◌, ◌*◌, ◌/◌, ◌%◌, ◌^◌, ◌≤◌, ◌<◌, min, bit_and, digits, bit_and-bitwise,
}
use mathlib.Core.Path.{◌≡◌, refl, ap, ◌∙◌}
use native.Mathlib.Nat.{
  pow-suc, one-le-pow, add-mul-mod_self_left, mod-eq_of_lt, div-add-mod, mod-lt,
}
use native.Mathlib.Omega.{arith}

-- The recursion on digits that `bit_and` stands for does not depend on its fuel.
conj : ℕ → ℕ → ℕ → ℕ
conj fuel a b = digits (λ y. 0) min fuel a b

conj_fuel : (n m a b : ℕ) → a ≤ n → a ≤ m → conj n a b ≡ conj m a b
unfolding conj
conj_fuel zero zero a b p q = refl
conj_fuel zero (suc m) zero b p q = refl
conj_fuel zero (suc m) (suc a) b p q = absurd (omega arith)
conj_fuel (suc n) zero zero b p q = refl
conj_fuel (suc n) zero (suc a) b p q = absurd (omega arith)
conj_fuel (suc n) (suc m) zero b p q = refl
conj_fuel (suc n) (suc m) (suc a) b p q =
    omega (arith, conj_fuel n m (suc a / 2) (b / 2) (omega arith) (omega arith))

bit_and-step : (a b : ℕ) → bit_and a b ≡ bit_and (a / 2) (b / 2) * 2 + min (a % 2) (b % 2)
unfolding conj
bit_and-step zero b = omega (arith, bit_and-bitwise 0 b, bit_and-bitwise 0 (b / 2))
bit_and-step (suc a) b = omega (
  arith,
  bit_and-bitwise (suc a) b,
  bit_and-bitwise (suc a / 2) (b / 2),
  conj_fuel a (suc a / 2) (suc a / 2) (b / 2) (omega arith) (omega arith),
)

and_zero_below : (n a : ℕ) → a ≤ n → bit_and a 0 ≡ 0
and_zero_below n zero h = bit_and-bitwise 0 0
and_zero_below zero (suc a) h = absurd (omega arith)
and_zero_below (suc n) (suc a) h =
    omega (arith, bit_and-step (suc a) 0, and_zero_below n (suc a / 2) (omega arith))

-- One more binary digit of a remainder.
mod-double : (a p : ℕ) → 0 < p → a % (2 * p) ≡ a / 2 % p * 2 + a % 2
mod-double a p h =
    ap (λ t. t % (2 * p)) split
    ∙ add-mul-mod_self_left (a / 2 % p * 2 + a % 2) (2 * p) (a / 2 / p)
    ∙ mod-eq_of_lt (omega (arith, mod-lt (a / 2) h))
  where
    split : a ≡ (a / 2 % p * 2 + a % 2) + (2 * p) * (a / 2 / p)
    split = omega (arith, div-add-mod (a / 2) p)

pub bit_and-mask : (k a : ℕ) → bit_and a (2 ^ k - 1) ≡ a % 2 ^ k
bit_and-mask zero a = omega (arith, and_zero_below a a (omega arith))
bit_and-mask (suc k) a = omega (
  arith,
  bit_and-step a (2 ^ suc k - 1),
  halved,
  bit_and-mask k (a / 2),
  pow-suc 2 k,
  one-le-pow k 2 (omega arith),
  mod-double a (2 ^ k) (one-le-pow k 2 (omega arith)),
  doubled,
)
  where
    half : (2 ^ suc k - 1) / 2 ≡ 2 ^ k - 1
    half = omega (arith, pow-suc 2 k, one-le-pow k 2 (omega arith))

    halved : bit_and (a / 2) ((2 ^ suc k - 1) / 2) ≡ bit_and (a / 2) (2 ^ k - 1)
    halved = ap (bit_and (a / 2)) half

    doubled : a % 2 ^ suc k ≡ a % (2 * 2 ^ k)
    doubled = ap (λ t. a % t) (omega (arith, pow-suc 2 k))
