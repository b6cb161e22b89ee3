-- ===== src/Ring/Init.antt =====
-- `Init` of a ring: what a new ring holds, whichever memory it was given.
use fuxi_n.Prelude.{
  ℕ, ◌+◌, ◌*◌, ◌%◌, ◌^◌, ◌≤◌, ◌<◌, ◌≡◌, refl, ◌∙◌, [], Array, Bool, true, Option, u32_mod, u64_mod,
  arith, IsBitCeil,
}
use native.Mathlib.Nat.{pow-le-pow_right, one-le-pow}
use native.Mathlib.Decide.{dec_le}
use fuxi_n.Ring.{fresh, init, placement_storage_size}
use fuxi_n.Ring.Rest.{IsValid, contents}

-- A power of two below 2^32 has an exponent of at most 31.
exponent-le : (e : ℕ) → 2 ^ e < 2 ^ 32 → e ≤ 31
exponent-le e h = elim (dec_le e 31) [
  | yes small ↦ small
  | no big ↦
      let whole : 2 ^ 32 ≤ 2 ^ e =
        pow-le-pow_right {n = 2} (omega arith) {i = 32} {j = e} (omega arith) in
      absurd (omega arith)
]

module _ {A : Type 0} (bit_ceil : ℕ → ℕ) (value_size : ℕ) (zeroed : A) where
  -- `Init` of a ring that was just constructed, for at most 2^31 values, gives an empty ring at rest
  -- whose size is the power of two that `bit_ceil` gives, never less than what was asked for; the
  -- modes asked for are recorded.
  pub init-IsValid :
      (memory allocated : Array A) (placement : Option (Array A)) (num : ℕ) (is_sp is_sc : Bool)
      → IsBitCeil num (bit_ceil num)
      → num ≤ 2 ^ 31
      → let r =
          init bit_ceil value_size zeroed (fresh memory) placement allocated num is_sp is_sc in
        IsValid r
        × (contents r ≡ [])
        × (r.size ≡ bit_ceil num)
        × (num ≤ r.size)
        × (r.is_sp ≡ is_sp)
        × (r.is_sc ≡ is_sc)
        × (r.inited ≡ true)
  unfolding init fresh
  init-IsValid memory allocated placement num is_sp is_sc c h =
      let small : bit_ceil num < u32_mod = ground (arith, c.least) in
      let pos : 0 < bit_ceil num = rw c.is_pow (one-le-pow c.exponent 2 (omega arith)) in
      let kept : bit_ceil num % u32_mod ≡ bit_ceil num = omega arith in
      (
        record {
          bits = c.exponent;
          is_pow = kept ∙ c.is_pow;
          small = exponent-le c.exponent (rw (← c.is_pow) small);
          masked = omega arith;
          capacity_eq = refl;
          prod_rest = refl;
          cons_rest = refl;
          prod_word = omega arith;
          cons_word = omega arith;
          fill = omega arith;
        },
        refl,
        kept,
        omega (arith, c.above),
        refl,
        refl,
        refl,
      )

-- Where no 64-bit computation wraps, the buffer asked for is the least multiple of 128 bytes that holds every slot of the ring.
pub placement_storage_size_bounds :
    {A : Type 0} (bit_ceil : ℕ → ℕ) (value_size : ℕ) (zeroed : A) (num : ℕ)
    → bit_ceil num * value_size + 127 < u64_mod
    → let size = placement_storage_size bit_ceil value_size zeroed num in
      (bit_ceil num * value_size ≤ size)
      × (size < bit_ceil num * value_size + 128)
      × (size % 128 ≡ 0)
unfolding placement_storage_size
placement_storage_size_bounds bit_ceil value_size zeroed num h = omega arith
