-- ===== src/Vector/Places.antt =====
-- Where the elements of a `ConcurrentVector` lie.
use fuxi_n.Prelude.{
  ℕ, zero, suc, ◌+◌, ◌-◌, ◌*◌, ◌/◌, ◌%◌, ◌^◌, ◌≤◌, ◌<◌, ◌≡◌, refl, ap, ◌∙◌, u32_mod, u64_mod,
  bit_and, Option, none, some, List, [], ◌∷◌, get_elem?, length, count, count_places, arith,
}
use fuxi_n.Prelude.Bits.{bit_and-mask}
use native.Mathlib.Nat.{
  mod-eq_of_lt, div-add-mod, mod-lt, one-le-pow, div-eq_of_lt, add-zero, mul-add-div_right,
  mul-add-mod_self_right, pow-le-pow_right, mul-le-mul_left, mul-le-mul_right, suc-mul,
}
use native.Mathlib.Decide.{dec_lt}
use fuxi_n.Vector.{
  Meta, block_size, block_index, block_offset, within, place, reserve_block_num, ensure_block_num,
}

div-lt-div : (x y d : ℕ) → 0 < d → x + d ≤ y → x / d < y / d
div-lt-div x y d pos le = elim (dec_lt (x / d) (y / d)) [
  | yes lt ↦ lt
  | no ge ↦ absurd (
      omega (
        arith,
        mul-le-mul_right {m = y / d} {n = x / d} d (omega (arith, ge)),
        div-add-mod x d,
        div-add-mod y d,
        mod-lt y pos,
        le,
      ))
]

pub div-le-div : (x y d : ℕ) → 0 < d → x ≤ y → x / d ≤ y / d
div-le-div x y d pos le = elim (dec_lt (y / d) (x / d)) [
  | no ge ↦ omega (arith, ge)
  | yes lt ↦ absurd (
      omega (
        arith,
        mul-le-mul_right {m = suc (y / d)} {n = x / d} d (omega (arith, lt)),
        suc-mul (y / d) d,
        div-add-mod x d,
        div-add-mod y d,
        mod-lt y pos,
        le,
      ))
]

-- The parts of an index: a vector of 2^k elements a block, at most 2^32 blocks
pub record IsMeta (k : ℕ) (meta : Meta) : Type 0 where
  pub bits : meta.block_mask_bits ≡ k
  pub mask : meta.block_mask ≡ 2 ^ k - 1
  pub few : k ≤ 31

module _ {k : ℕ} {meta : Meta} (is : IsMeta k meta) where
  pub block_index-div : (i : ℕ) → i / 2 ^ k < u32_mod → block_index meta i ≡ i / 2 ^ k
  block_index-div i lt = ap (λ t. i / 2 ^ t % u32_mod) is.bits ∙ mod-eq_of_lt lt

  small : (r : ℕ) → r < 2 ^ k → r < u32_mod
  small r lt =
      omega (arith, lt, pow-le-pow_right {n = 2} (omega arith) {i = k} {j = 31} is.few, two_31)
    where
      two_31 : 2 ^ 31 ≡ 2147483648
      two_31 = refl

  pub positive : 0 < 2 ^ k
  positive = one-le-pow k 2 (omega arith)

  pub block_size-pow : block_size meta ≡ 2 ^ k
  block_size-pow =
      ap (λ t. t % u32_mod) {x = meta.block_mask + 1} {y = 2 ^ k} (omega (arith, is.mask, positive))
      ∙ mod-eq_of_lt whole
    where
      two_31 : 2 ^ 31 ≡ 2147483648
      two_31 = refl

      whole : 2 ^ k < u32_mod
      whole = omega (arith, pow-le-pow_right {n = 2} (omega arith) {i = k} {j = 31} is.few, two_31)

  pub block_offset-mod : (i : ℕ) → block_offset meta i ≡ i % 2 ^ k
  block_offset-mod i =
      ap (λ t. bit_and i t % u32_mod) is.mask
      ∙ ap (λ t. t % u32_mod) (bit_and-mask k i)
      ∙ mod-eq_of_lt (small (i % 2 ^ k) (mod-lt i positive))

  pub index_split : (q r : ℕ) → r < 2 ^ k → q < u32_mod → block_index meta (q * 2 ^ k + r) ≡ q
  index_split q r lt few =
      let whole : (q * 2 ^ k + r) / 2 ^ k ≡ q =
        mul-add-div_right {m = 2 ^ k} positive q r
        ∙ ap (λ t. q + t) (div-eq_of_lt lt)
        ∙ add-zero q in
      block_index-div (q * 2 ^ k + r) (omega (arith, whole, few)) ∙ whole

  pub offset_split : (q r : ℕ) → r < 2 ^ k → block_offset meta (q * 2 ^ k + r) ≡ r
  offset_split q r lt =
      block_offset-mod (q * 2 ^ k + r) ∙ mul-add-mod_self_right q (2 ^ k) r ∙ mod-eq_of_lt lt

  -- The whole of an index
  pub index_whole :
      (i : ℕ)
      → i / 2 ^ k < u32_mod
      → (i ≡ block_index meta i * 2 ^ k + block_offset meta i) × (block_offset meta i < 2 ^ k)
  index_whole i lt = (
    omega (
      arith,
      div-add-mod i (2 ^ k),
      ap (λ t. t * 2 ^ k) (block_index-div i lt),
      block_offset-mod i,
    ),
    omega (arith, block_offset-mod i, mod-lt i positive),
  )

  pub place-split :
      (blocks : List ℕ) (q r b : ℕ)
      → r < 2 ^ k
      → q < u32_mod
      → get_elem? blocks q ≡ some b
      → place meta blocks (q * 2 ^ k + r) ≡ some (b, r)
  place-split blocks q r b lt few at =
      ap (λ t. within (get_elem? blocks t) (block_offset meta (q * 2 ^ k + r)))
        (index_split q r lt few)
      ∙ ap (λ o. within o (block_offset meta (q * 2 ^ k + r))) at
      ∙ ap (λ t. some (b, t)) (offset_split q r lt)

pub within-some :
    (o : Option ℕ) (offset : ℕ) (p : ℕ × ℕ)
    → within o offset ≡ some p
    → (o ≡ some p.0) × (offset ≡ p.1)
within-some none offset p e = absurd (cc e)
within-some (some b) offset p e = (cc, cc)

pub get_elem?-some :
    (blocks : List ℕ) (i : ℕ) → i < length blocks → (b : ℕ) × (get_elem? blocks i ≡ some b)
get_elem?-some [] i lt = absurd (omega (arith, lt))
get_elem?-some (b ∷ blocks) zero lt = (b, refl)
get_elem?-some (b ∷ blocks) (suc i) lt = get_elem?-some blocks i (omega (arith, lt))

module _ {k : ℕ} {meta : Meta} (is : IsMeta k meta) where
  -- The blocks of a table go as far as its elements.
  pub div-length : (blocks : List ℕ) (i : ℕ) → i ≤ length blocks * 2 ^ k → i / 2 ^ k ≤ length blocks
  div-length blocks i le = omega (
    arith,
    div-le-div i (length blocks * 2 ^ k) (2 ^ k) (positive is) le,
    mul-add-div_right {m = 2 ^ k} (positive is) (length blocks) 0,
    ap (λ t. t / 2 ^ k) {x = length blocks * 2 ^ k + 0} {y = length blocks * 2 ^ k} (omega arith),
    div-eq_of_lt (positive is),
  )

  -- No two elements share a place, where no block is in the table twice.
  pub place_unique :
      (blocks : List ℕ) (i j : ℕ) (p : ℕ × ℕ)
      → ((x : ℕ) → count x blocks ≤ 1)
      → i / 2 ^ k < u32_mod
      → j / 2 ^ k < u32_mod
      → place meta blocks i ≡ some p
      → place meta blocks j ≡ some p
      → i ≡ j
  place_unique blocks i j p once i_lt j_lt at_i at_j =
      let (block_i, offset_i) = within-some _ _ p at_i in
      let (block_j, offset_j) = within-some _ _ p at_j in
      let same = count_places p.0 blocks _ _ (once p.0) block_i block_j in
      omega (
        arith,
        (index_whole is i i_lt).0,
        (index_whole is j j_lt).0,
        ap (λ t. t * 2 ^ k) same,
        offset_i,
        offset_j,
      )

  below_2_63 : (x : ℕ) → x / 2 ^ k < u32_mod → x < u64_mod
  below_2_63 x lt = omega (
    arith,
    div-add-mod x (2 ^ k),
    mod-lt x (positive is),
    mul-le-mul_left {m = 2 ^ k} {n = 2 ^ 31} (x / 2 ^ k)
        (pow-le-pow_right {n = 2} (omega arith) {i = k} {j = 31} is.few),
    pow-le-pow_right {n = 2} (omega arith) {i = k} {j = 31} is.few,
    two_31,
    lt,
  )
    where
      two_31 : 2 ^ 31 ≡ 2147483648
      two_31 = refl

  -- An index whose block the table has
  pub covered-place :
      (blocks : List ℕ) (index : ℕ)
      → index / 2 ^ k < length blocks
      → index / 2 ^ k < u32_mod
      → (b : ℕ) × (place meta blocks index ≡ some (b, index % 2 ^ k))
  covered-place blocks index lt few =
      let (b, at) = get_elem?-some blocks (index / 2 ^ k) lt in
      (
        b,
        ap (place meta blocks) {x = index} {y = index / 2 ^ k * 2 ^ k + index % 2 ^ k}
              (omega (arith, div-add-mod index (2 ^ k)))
            ∙ place-split is blocks (index / 2 ^ k) (index % 2 ^ k) b (mod-lt index (positive is))
                few at,
      )

  -- Every index below the size that was reserved has a place in a table of the blocks asked for.
  pub reserve-place :
      (blocks : List ℕ) (size index : ℕ)
      → index < size
      → (size + meta.block_mask) / 2 ^ k < u32_mod
      → reserve_block_num meta size ≤ length blocks
      → (b : ℕ) × (place meta blocks index ≡ some (b, index % 2 ^ k))
  reserve-place blocks size index lt few enough =
      let asked : reserve_block_num meta size ≡ (size + meta.block_mask) / 2 ^ k =
        ap (block_index meta) (mod-eq_of_lt (below_2_63 (size + meta.block_mask) few))
        ∙ block_index-div is (size + meta.block_mask) few in
      let more : index / 2 ^ k < (size + meta.block_mask) / 2 ^ k =
        div-lt-div index (size + meta.block_mask) (2 ^ k) (positive is)
          (omega (arith, lt, is.mask, positive is)) in
      covered-place blocks index (omega (arith, asked, more, enough)) (omega (arith, more, few))

  -- So has the index that `ensure` was called with.
  pub ensure-place :
      (blocks : List ℕ) (index : ℕ)
      → index / 2 ^ k + 1 < u32_mod
      → ensure_block_num meta index ≤ length blocks
      → (b : ℕ) × (place meta blocks index ≡ some (b, index % 2 ^ k))
  ensure-place blocks index few enough =
      covered-place blocks index
        (omega (arith, block_index-div is index (omega (arith, few)), few, enough))
        (omega (arith, few))
