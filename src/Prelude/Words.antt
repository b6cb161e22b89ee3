-- ===== src/Prelude/Words.antt =====
-- Sizes of the machine integers, and what the code takes from `absl::bit_ceil`.
use Prim.Native.Nat.{ℕ, zero, suc, ◌+◌, ◌-◌, ◌*◌, ◌/◌, ◌%◌, ◌^◌, ◌≤◌, ◌<◌}
use mathlib.Core.Path.{◌≡◌, sym, ap, ◌∙◌}
use mathlib.Core.Logic.{◌⊎◌}
use native.Mathlib.Nat.{pow-suc, pow-zero, add-mul-mod_self_left, div-add-mod, add-zero, add-suc}
use native.Mathlib.Omega.{arith}

abbrev pub u16_mod : ℕ
u16_mod = 2 ^ 16

abbrev pub u32_mod : ℕ
u32_mod = 2 ^ 32

abbrev pub u64_mod : ℕ
u64_mod = 2 ^ 64

-- What `absl::bit_ceil` documents of its result `c` at `n`: the least power of two not below `n`.
pub record IsBitCeil (n c : ℕ) : Type 0 where
  pub exponent : ℕ
  pub is_pow : c ≡ 2 ^ exponent
  pub above : n ≤ c
  pub least : (c ≡ 1) ⊎ (c < 2 * n)

pub pow-add : (m n : ℕ) → 2 ^ (m + n) ≡ 2 ^ m * 2 ^ n
pow-add m zero = rw (add-zero, pow-zero) (omega arith)
pow-add m (suc n) = rw (add-suc, pow-suc, pow-suc, pow-add m n) (omega arith)

-- A number that wrapped at a multiple of `p` keeps its remainder by `p`.
mod-mod-mul : (p q x : ℕ) → x % (p * q) % p ≡ x % p
mod-mod-mul p q x =
    sym (add-mul-mod_self_left (x % (p * q)) p (q * (x / (p * q)))) ∙ ap (λ t. t % p) joined
  where
    joined : x % (p * q) + p * (q * (x / (p * q))) ≡ x
    joined = omega (arith, div-add-mod x (p * q))

pub mod-wrap : (m n x : ℕ) → x % 2 ^ (m + n) % 2 ^ m ≡ x % 2 ^ m
mod-wrap m n x = rw pow-add (mod-mod-mul (2 ^ m) (2 ^ n) x)

-- So does a 32-bit counter by any power of two that fits it.
pub mod-wrap_u32 : (m x : ℕ) → m ≤ 32 → x % u32_mod % 2 ^ m ≡ x % 2 ^ m
mod-wrap_u32 m x h = ap (λ t. x % 2 ^ t % 2 ^ m) whole ∙ mod-wrap m (32 - m) x
  where
    whole : 32 ≡ m + (32 - m)
    whole = omega arith
