-- ===== src/Memory/Buffer/Align.antt =====
-- What `do_align` makes of an offset.
use fuxi_n.Prelude.{
  ℕ, suc, ◌+◌, ◌-◌, ◌*◌, ◌/◌, ◌%◌, ◌^◌, ◌≤◌, ◌<◌, ◌≡◌, sym, ap, ◌∙◌, pow-add, mod-wrap, arith,
}
use native.Mathlib.Decide.{dec_lt}
use native.Mathlib.Nat.{
  one-le-pow, pow-suc, mul-suc, pow-le-pow_right, mul-le-mul_left, div-add-mod, mod-lt,
  mod-eq_of_lt, add-mul-mod_self_left,
}
use fuxi_n.Memory.Buffer.{align}

-- A multiple is a number of blocks.
blocks : (d m : ℕ) → m % d ≡ 0 → d * (m / d) ≡ m
blocks d m e = omega (arith, div-add-mod m d, e)

-- Rounding down to a multiple of `d`
round : ℕ → ℕ → ℕ
round d y = y - y % d

round-blocks : (d y : ℕ) → round d y ≡ d * (y / d)
unfolding round
round-blocks d y = omega (arith, div-add-mod y d)

pub multiple-mod : (d q : ℕ) → 1 ≤ d → (d * q) % d ≡ 0
multiple-mod d q pos =
    ap (λ t. t % d) (the_sum d q) ∙ (add-mul-mod_self_left 0 d q ∙ mod-eq_of_lt pos)
  where
    the_sum : (d q : ℕ) → d * q ≡ 0 + d * q
    the_sum d q = omega arith

round-mod : (d y : ℕ) → 1 ≤ d → round d y % d ≡ 0
round-mod d y pos = ap (λ t. t % d) (round-blocks d y) ∙ multiple-mod d (y / d) pos

-- The least multiple that is not below a number
round-least : (d x m : ℕ) → 1 ≤ d → x ≤ m → m % d ≡ 0 → round d (x + (d - 1)) ≤ m
round-least d x m pos le e =
    let y = x + (d - 1) in
    elim (dec_lt (m / d) (y / d)) [
      | yes above ↦
          let more : d * suc (m / d) ≤ d * (y / d) = mul-le-mul_left d above in
          absurd (
            omega (
              arith,
              more,
              mul-suc d (m / d),
              round-blocks d y,
              mod-lt y pos,
              blocks d m e,
              le,
              pos,
            ))
      | no below ↦
          let few : d * (y / d) ≤ d * (m / d) = mul-le-mul_left d (omega (arith, below)) in
          omega (arith, few, round-blocks d y, blocks d m e)
    ]

pub pow-mod : (j k : ℕ) → k ≤ j → 2 ^ j % 2 ^ k ≡ 0
pow-mod j k le =
    ap (λ t. 2 ^ t % 2 ^ k) whole
    ∙ (ap (λ t. t % 2 ^ k) (pow-add k (j - k))
        ∙ multiple-mod (2 ^ k) (2 ^ (j - k)) (one-le-pow k 2 (omega arith)))
  where
    whole : j ≡ k + (j - k)
    whole = omega (arith, le)

-- A multiple of the larger power is one of the smaller.
pub mod-mod_pow : (x j k : ℕ) → k ≤ j → x % 2 ^ j ≡ 0 → x % 2 ^ k ≡ 0
mod-mod_pow x j k le e =
    sym (mod-wrap k (j - k) x)
    ∙ (ap (λ t. x % 2 ^ t % 2 ^ k) whole
        ∙ (ap (λ t. t % 2 ^ k) e ∙ mod-eq_of_lt (one-le-pow k 2 (omega arith))))
  where
    whole : k + (j - k) ≡ j
    whole = omega (arith, le)

pub pow_le62 : (k : ℕ) → k ≤ 62 → 2 ^ k ≤ 2 ^ 62
pow_le62 k le = pow-le-pow_right {n = 2} (omega arith) {i = k} {j = 62} le

module _ (k x : ℕ) (small : k ≤ 62) (low : x ≤ 2 ^ 62) where
  pos : 1 ≤ 2 ^ k
  pos = one-le-pow k 2 (omega arith)

  align-round : align (2 ^ k) x ≡ round (2 ^ k) (x + (2 ^ k - 1))
  unfolding round
  align-round = ap (round (2 ^ k)) (mod-eq_of_lt (omega (arith, pow_le62 k small, low, pos)))

  pub align-least : (m : ℕ) → x ≤ m → m % 2 ^ k ≡ 0 → align (2 ^ k) x ≤ m
  align-least m le e = omega (arith, align-round, round-least (2 ^ k) x m pos le e)

  pub align-mod : align (2 ^ k) x % 2 ^ k ≡ 0
  align-mod = ap (λ t. t % 2 ^ k) align-round ∙ round-mod (2 ^ k) (x + (2 ^ k - 1)) pos

  pub align-ge : x ≤ align (2 ^ k) x
  unfolding round
  align-ge = omega (arith, align-round, mod-lt (x + (2 ^ k - 1)) pos, pos)

  pub align-le : align (2 ^ k) x ≤ 2 ^ 62
  align-le = align-least (2 ^ 62) low (pow-mod 62 k small)

  pub align-lt : align (2 ^ k) x < x + 2 ^ k
  unfolding round
  align-lt = omega (arith, align-round, pos)

pub add_multiples : (d x y : ℕ) → x % d ≡ 0 → y % d ≡ 0 → (x + y) % d ≡ 0
add_multiples d x y ex ey = ap (λ t. t % d) joined ∙ (add-mul-mod_self_left y d (x / d) ∙ ey)
  where
    joined : x + y ≡ y + d * (x / d)
    joined = omega (arith, blocks d x ex)

-- A multiple that is not 0 is not below the divisor.
pub multiple_ge : (d m : ℕ) → m % d ≡ 0 → 1 ≤ m → d ≤ m
multiple_ge d m e pos = elim (dec_lt m d) [
  | yes less ↦ absurd (omega (arith, mod-eq_of_lt less, e, pos))
  | no ge ↦ omega (arith, ge)
]

pub pow_order : (j k : ℕ) → 2 ^ j ≤ 2 ^ k → j ≤ k
pow_order j k le = elim (dec_lt k j) [
  | yes less ↦
      let more : 2 ^ suc k ≤ 2 ^ j =
        pow-le-pow_right {n = 2} (omega arith) {i = suc k} {j = j} less in
      absurd (omega (arith, more, le, pow-suc 2 k, one-le-pow k 2 (omega arith)))
  | no ge ↦ omega (arith, ge)
]
