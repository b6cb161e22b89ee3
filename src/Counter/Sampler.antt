-- ===== src/Counter/Sampler.antt =====
-- `ConcurrentSampler`: the bucket of a value. Its reservoirs are in Counter.Reservoir.
use fuxi_n.Prelude.{
  ℕ, zero, suc, ◌+◌, ◌-◌, ◌*◌, ◌/◌, ◌%◌, ◌^◌, ◌≤◌, ◌<◌, ◌≡◌, refl, ap, ◌∙◌, ◌==◌, if◌then◌else◌,
  arith,
}
use native.Mathlib.Nat.{pow-le-pow_right, pow-succ', one-le-pow}

module _ (clz : ℕ → ℕ) where
  -- `bucket_index`, where `clz` is `__builtin_clz`
  pub bucket_index : ℕ → ℕ
  bucket_index value = let half = value % 2 ^ 31 / 2 in if half == 0 then 0 else 32 - clz half

  -- Where `clz` counts the leading zeros of a word of 32 bits, a value from 2^k to 2^(k+1) has
  -- the bucket k, for k from 1 to 30; the values 0 and 1 have the bucket 0, and a value from
  -- 2^31 on that of the value less 2^31.
  pub bucket_index_lem :
      ((x k : ℕ) → 2 ^ k ≤ x → x < 2 ^ (k + 1) → k < 32 → clz x + k ≡ 31)
      → (value k : ℕ) → 1 ≤ k
      → k ≤ 30
      → 2 ^ k ≤ value
      → value < 2 ^ (k + 1)
      → (bucket_index value ≡ k)
        × (bucket_index 0 ≡ 0)
        × (bucket_index 1 ≡ 0)
        × (bucket_index (2 ^ 31 + value) ≡ k)
  unfolding bucket_index
  bucket_index_lem zeros value zero pos le low high = absurd (omega arith)
  bucket_index_lem zeros value (suc j) pos le low high =
      let whole : 2 ^ (suc j + 1) ≤ 2 ^ 31 =
        pow-le-pow_right {n = 2} (omega arith) {i = suc j + 1} {j = 31} (omega arith) in
      let step : 2 ^ suc j ≡ 2 * 2 ^ j = pow-succ' 2 j in
      let step' : 2 ^ (suc j + 1) ≡ 2 * 2 ^ suc j =
        ap (λ i. 2 ^ i) (omega arith) ∙ pow-succ' 2 (suc j) in
      let nonzero : 1 ≤ 2 ^ j = one-le-pow j 2 (omega arith) in
      let up : 2 ^ (j + 1) ≡ 2 ^ suc j = ap (λ i. 2 ^ i) (omega arith) in
      let half_zeros : clz (value / 2) + j ≡ 31 =
        zeros (value / 2) j (omega arith) (omega arith) (omega arith) in
      let half : value % 2 ^ 31 / 2 ≡ value / 2 = omega arith in
      let half' : (2 ^ 31 + value) % 2 ^ 31 / 2 ≡ value / 2 = omega arith in
      (rw half (ground (arith, half_zeros)), refl, refl, rw half' (ground (arith, half_zeros)))
