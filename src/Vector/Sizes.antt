-- ===== src/Vector/Sizes.antt =====
-- The block size that `set_block_size` chooses.
use fuxi_n.Prelude.{
  ℕ, zero, suc, ◌+◌, ◌*◌, ◌^◌, ◌≤◌, ◌<◌, ◌≡◌, ◌⊎◌, inl, inr, ◌≢◌, ◌∙◌, ◌%◌, refl, u32_mod, none,
  some, IsBitCeil, arith, ap,
}
use native.Mathlib.Decide.{dec_lt}
use native.Mathlib.Nat.{pow-suc, pow-le-pow_right}
use fuxi_n.Vector.{Meta, grow, block_size, set_block_size}

-- What the mask and its bits say of a block size
pub record Fits (size : ℕ) (meta : Meta) : Type 0 where
  pub masked : size ≡ meta.block_mask + 1
  pub bits : size ≡ 2 ^ meta.block_mask_bits

twice : Meta → Meta
twice meta = record {
  block_mask = meta.block_mask * 2 % u32_mod + 1;
  block_mask_bits = (meta.block_mask_bits + 1) % u32_mod;
}

grow-more :
    (fuel hint size : ℕ) (meta : Meta)
    → size < hint
    → grow (suc fuel) hint size meta ≡ grow fuel hint (size * 2 % u32_mod) (twice meta)
unfolding twice
grow-more fuel hint size meta lt = ground arith

grow-end :
    (fuel hint size : ℕ) (meta : Meta)
    → hint ≤ size
    → grow (suc fuel) hint size meta ≡ some (size, meta)
grow-end fuel hint size meta ge = ground arith

module _ (hint : ℕ) (small : hint ≤ 2 ^ 31) where
  last-ge : (size : ℕ) (meta : Meta) → Fits size meta → meta.block_mask_bits ≡ 31 → size < hint → ⊥
  last-ge size meta fits last lt = omega (arith, small, lt, fits.bits ∙ ap (λ t. 2 ^ t) last, pow31)
    where
      pow31 : 2 ^ 31 ≡ 2147483648
      pow31 = refl

  doubled :
      (size : ℕ) (meta : Meta)
      → Fits size meta
      → meta.block_mask_bits ≤ 31
      → size < hint
      → Fits (size * 2 % u32_mod) (twice meta)
  unfolding twice
  doubled size meta fits le lt = record {
    masked = omega (arith, small, lt, fits.masked);
    bits =
        omega (arith, small, lt, fits.bits, le, pow-suc 2 meta.block_mask_bits)
        ∙ ap (λ t. 2 ^ t) {x = suc meta.block_mask_bits} {y = (meta.block_mask_bits + 1) % u32_mod}
            (omega (arith, le));
  }

  bits-le :
      (meta : Meta)
      → meta.block_mask_bits ≤ 31
      → meta.block_mask_bits ≢ 31
      → (twice meta).block_mask_bits ≤ 31
  unfolding twice
  bits-le meta le ne = omega (arith, le, ne)

  bits-left :
      (meta : Meta) (fuel : ℕ)
      → meta.block_mask_bits ≤ 31
      → meta.block_mask_bits + suc fuel ≡ 32
      → (twice meta).block_mask_bits + fuel ≡ 32
  unfolding twice
  bits-left meta fuel le left = omega (arith, le, left)

  grow-Fits :
      (fuel size : ℕ) (meta : Meta)
      → Fits size meta
      → meta.block_mask_bits ≤ 31
      → meta.block_mask_bits + fuel ≡ 32
      → (size ≡ 1) ⊎ (size < 2 * hint)
      → (r : ℕ × Meta) × (grow fuel hint size meta ≡ some r)
        × Fits r.0 r.1
        × (hint ≤ r.0)
        × ((r.0 ≡ 1) ⊎ (r.0 < 2 * hint))
  grow-Fits zero size meta fits le left least = absurd (omega (arith, le, left))
  grow-Fits (suc fuel) size meta fits le left least = elim (dec_lt size hint) [
    | yes lt ↦
        let inner : meta.block_mask_bits ≢ 31 = λ e. last-ge size meta fits e lt in
        rw (grow-more fuel hint size meta lt) (
          grow-Fits fuel (size * 2 % u32_mod) (twice meta) (doubled size meta fits le lt)
            (bits-le meta le inner) (bits-left meta fuel le left) (inr (omega (arith, small, lt))))
    | no ge ↦
        rw (grow-end fuel hint size meta (omega (arith, ge)))
          ((size, meta), refl, fits, omega (arith, ge), least)
  ]

-- For a hint up to 2^31 the loop ends within 32 rounds, and the block size is the least power of two
-- not below the hint, told by the mask and the number of its bits.
pub set_block_size-IsBitCeil :
    (block_size_hint : ℕ)
    → block_size_hint ≤ 2 ^ 31
    → (r : ℕ × Meta) × (set_block_size 32 block_size_hint ≡ some r)
      × IsBitCeil block_size_hint r.0
      × (block_size r.1 ≡ r.0)
      × (r.0 ≡ 2 ^ r.1.block_mask_bits)
set_block_size-IsBitCeil hint small =
    let (r, ends, fits, above, least) =
      grow-Fits hint small 32 1 (record { block_mask = 0; block_mask_bits = 0 })
        (record { masked = refl; bits = refl }) (omega arith) refl (inl refl) in
    (
      r,
      ends,
      record { exponent = r.1.block_mask_bits; is_pow = fits.bits; above = above; least = least },
      omega (arith, fits.masked, least, small),
      fits.bits,
    )

-- At the size 0, which 32 bits wrap to
stuck_at_zero : (fuel hint : ℕ) (meta : Meta) → 0 < hint → grow fuel hint 0 meta ≡ none
stuck_at_zero zero hint meta lt = refl
stuck_at_zero (suc fuel) hint meta lt =
    grow-more fuel hint 0 meta lt ∙ stuck_at_zero fuel hint (twice meta) lt

-- From 2 ^ k, after 31 - k rounds
grow_diverges :
    (fuel rounds k hint : ℕ) (meta : Meta)
    → k + rounds ≡ 31
    → 2 ^ 31 < hint
    → grow fuel hint (2 ^ k) meta ≡ none
grow_diverges zero rounds k hint meta at large = refl
grow_diverges (suc fuel) zero k hint meta at large =
    grow-more fuel hint (2 ^ k) meta (omega (arith, top, large))
    ∙ ap (λ t. grow fuel hint t (twice meta)) {x = 2 ^ k * 2 % u32_mod} {y = 0} (omega (arith, top))
    ∙ stuck_at_zero fuel hint (twice meta) (omega (arith, large))
  where
    top : 2 ^ k ≡ 2147483648
    top = ap (λ t. 2 ^ t) {x = k} {y = 31} (omega (arith, at))
grow_diverges (suc fuel) (suc rounds) k hint meta at large =
    grow-more fuel hint (2 ^ k) meta (omega (arith, below, large))
    ∙ ap (λ t. grow fuel hint t (twice meta)) {x = 2 ^ k * 2 % u32_mod} {y = 2 ^ suc k}
        (omega (arith, below, pow-suc 2 k))
    ∙ grow_diverges fuel rounds (suc k) hint (twice meta) (omega (arith, at)) large
  where
    two_30 : 2 ^ 30 ≡ 1073741824
    two_30 = refl

    below : 2 ^ k ≤ 2147483647
    below =
        omega (
          arith,
          pow-le-pow_right {n = 2} (omega arith) {i = k} {j = 30} (omega (arith, at)),
          two_30,
        )

-- For any larger hint it never ends: the 32-bit size wraps to 0 before it reaches the hint.
pub set_block_size_diverges :
    (fuel block_size_hint : ℕ)
    → 2 ^ 31 < block_size_hint
    → set_block_size fuel block_size_hint ≡ none
set_block_size_diverges fuel hint large =
    grow_diverges fuel 31 0 hint (record { block_mask = 0; block_mask_bits = 0 }) (omega arith)
      large
