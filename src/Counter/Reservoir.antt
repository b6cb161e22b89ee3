-- ===== src/Counter/Reservoir.antt =====
-- The buckets of `ConcurrentSampler`: reservoirs that keep some of the values that a thread recorded,
-- and their random source. Which bucket a value has is in Counter.Sampler; the versions and the
-- memory of the buckets are not modelled.
use fuxi_n.Prelude.{
  ℕ, ◌+◌, ◌*◌, ◌/◌, ◌%◌, ◌^◌, ◌≤◌, ◌<◌, ◌≡◌, refl, ◌∙◌, bit_xor, Array, update, u16_mod, u32_mod,
  u64_mod, ltb, ◌==◌, if◌then◌else◌, List, [], ◌∷◌, map, length, arith, inl, inr, ◌⊎◌,
}
use mathlib.Core.List.{Mem, mem-cons_self, mem-cons_of_mem}

-- The thread's `seed` and `value`
pub record RandState : Type 0 where
  pub seed_0 : ℕ
  pub seed_1 : ℕ
  pub rest : ℕ

-- `xorshift128_rand`: four results of 16 bits from each word of 64.
pub xorshift128_rand : RandState → ℕ × RandState
xorshift128_rand r =
    let shifted = bit_xor r.seed_0 (r.seed_0 * 2 ^ 23 % u64_mod) in
    let s0 = r.seed_1 in
    let s1 = bit_xor (bit_xor (bit_xor shifted s0) (shifted / 2 ^ 18)) (s0 / 2 ^ 5) in
    let next : RandState = record { seed_0 = s0; seed_1 = s1; rest = (s1 + s0) % u64_mod } in
    let now : RandState = if r.rest == 0 then next else r in
    (now.rest % u16_mod, record now { rest = now.rest / u16_mod })

pub record SampleBucket : Type 0 where
  pub capacity : ℕ
  pub record_num : ℕ
  pub values : Array ℕ

-- `operator<<` on the bucket of the value, where `random` is what `xorshift128_rand` returns
pub add_sample : SampleBucket → ℕ → ℕ → SampleBucket
add_sample b value random =
    let index = random % ((b.record_num + 1) % u32_mod) in
    let next = (b.record_num + 1) % u32_mod in
    if ltb b.record_num b.capacity
    then record b { values = update b.values b.record_num value; record_num = next }
    else if ltb index b.capacity
    then record b { values = update b.values index value; record_num = next }
    else record b { record_num = next }

-- Values with the random numbers drawn for them, the newest first
pub add_samples : SampleBucket → List (ℕ × ℕ) → SampleBucket
add_samples b [] = b
add_samples b ((value, random) ∷ earlier) = add_sample (add_samples b earlier) value random

add_sample-record_num :
    (b : SampleBucket) (v r : ℕ) → (add_sample b v r).record_num ≡ (b.record_num + 1) % u32_mod
unfolding add_sample
add_sample-record_num b v r = ground arith

add_sample-capacity : (b : SampleBucket) (v r : ℕ) → (add_sample b v r).capacity ≡ b.capacity
unfolding add_sample
add_sample-capacity b v r = ground arith

-- An entry is the new value, or was there, and was in use.
add_sample-values :
    (b : SampleBucket) (v r j : ℕ)
    → j < b.capacity
    → j < b.record_num + 1
    → ((add_sample b v r).values j ≡ v)
      ⊎ (((add_sample b v r).values j ≡ b.values j) × (j < b.record_num))
unfolding add_sample
add_sample-values b v r j room used = ground arith

-- Entries from the capacity on are never written.
add_sample-beyond :
    (b : SampleBucket) (v r j : ℕ) → b.capacity ≤ j → (add_sample b v r).values j ≡ b.values j
unfolding add_sample
add_sample-beyond b v r j h = ground arith

samples-count :
    (b : SampleBucket) (samples : List (ℕ × ℕ))
    → b.record_num ≡ 0
    → length samples < u32_mod
    → (add_samples b samples).record_num ≡ length samples
unfolding add_samples
samples-count b [] empty few = empty
samples-count b ((v, r) ∷ earlier) empty few = omega (
  arith,
  add_sample-record_num (add_samples b earlier) v r,
  samples-count b earlier empty (omega arith),
)

samples-capacity :
    (b : SampleBucket) (samples : List (ℕ × ℕ)) → (add_samples b samples).capacity ≡ b.capacity
unfolding add_samples
samples-capacity b [] = refl
samples-capacity b ((v, r) ∷ earlier) =
    add_sample-capacity (add_samples b earlier) v r ∙ samples-capacity b earlier

samples-beyond :
    (b : SampleBucket) (samples : List (ℕ × ℕ)) (k : ℕ)
    → b.capacity ≤ k
    → (add_samples b samples).values k ≡ b.values k
unfolding add_samples
samples-beyond b [] k far = refl
samples-beyond b ((v, r) ∷ earlier) k far =
    add_sample-beyond (add_samples b earlier) v r k (omega (arith, samples-capacity b earlier))
    ∙ samples-beyond b earlier k far

samples-mem :
    (b : SampleBucket) (samples : List (ℕ × ℕ)) (j : ℕ)
    → b.record_num ≡ 0
    → length samples < u32_mod
    → j < b.capacity
    → j < length samples
    → Mem ((add_samples b samples).values j) (map (λ (s : ℕ × ℕ). s.0) samples)
unfolding add_samples
samples-mem b [] j empty few room used = absurd (omega arith)
samples-mem b ((v, r) ∷ earlier) j empty few room used =
    elim (add_sample-values (add_samples b earlier) v r j
      (omega (arith, samples-capacity b earlier))
      (omega (arith, samples-count b earlier empty (omega arith)))) [
        | inl new ↦ rw new mem-cons_self
        | inr (kept, old) ↦ rw kept (
            mem-cons_of_mem v (
              samples-mem b earlier j empty (omega arith) room
                (omega (arith, samples-count b earlier empty (omega arith)))))
      ]

-- After less than 2^32 values were recorded in an empty bucket, whatever the random numbers, their number
-- is `record_num`, each entry in use below the capacity is one of them, and no entry from the capacity
-- on was written.
pub add_samples_lem :
    (b : SampleBucket) (samples : List (ℕ × ℕ)) (j k : ℕ)
    → b.record_num ≡ 0
    → length samples < u32_mod
    → j < b.capacity
    → j < length samples
    → b.capacity ≤ k
    → let b' = add_samples b samples in
      (b'.record_num ≡ length samples)
      × Mem (b'.values j) (map (λ (s : ℕ × ℕ). s.0) samples)
      × (b'.values k ≡ b.values k)
add_samples_lem b samples j k empty few room used far = (
  samples-count b samples empty few,
  samples-mem b samples j empty few room used,
  samples-beyond b samples k far,
)
