-- ===== src/Ring/Rest.antt =====
-- A ring at rest and the values that it holds.
use fuxi_n.Prelude.{
  ℕ, ◌+◌, ◌-◌, ◌%◌, ◌^◌, ◌≤◌, ◌<◌, ◌≡◌, ap, ◌∙◌, List, u32_mod, arith, mod-wrap_u32,
}
use native.Mathlib.Nat.{mod-add-mod, add-mod_right}
use fuxi_n.Ring.{RteRing}
use fuxi_n.Ring.Window.{items, size_bounds}

-- A slot counted from a wrapped counter is the slot counted from the unwrapped one.
pub slot-wrap :
    (bits size x k : ℕ) → size ≡ 2 ^ bits → bits ≤ 31 → (x % u32_mod + k) % size ≡ (x + k) % size
slot-wrap bits size x k pow small = rw (
  pow,
  ← mod-add-mod (x % u32_mod) (2 ^ bits) k,
  mod-wrap_u32 bits x (omega arith),
  mod-add-mod x (2 ^ bits) k,
)

module _ {A : Type 0} where
  -- The values that a ring at rest holds: `prod.tail - cons.tail`, as the 32-bit counters give it.
  abbrev pub count : RteRing A → ℕ
  count r = (r.prod.tail + u32_mod - r.cons.tail) % u32_mod

  -- No call is under way, and the counters are at most a ring apart.
  pub record IsValid (r : RteRing A) : Type 0 where
    pub bits : ℕ
    pub is_pow : r.size ≡ 2 ^ bits
    pub small : bits ≤ 31
    pub masked : r.mask ≡ r.size - 1
    pub capacity_eq : r.capacity ≡ r.size
    pub prod_rest : r.prod.head ≡ r.prod.tail
    pub cons_rest : r.cons.head ≡ r.cons.tail
    pub prod_word : r.prod.tail < u32_mod
    pub cons_word : r.cons.tail < u32_mod
    pub fill : count r ≤ r.size

  -- Oldest first.
  abbrev pub contents : RteRing A → List A
  contents r = items r.storage r.size r.cons.tail (count r)

  module _ (r : RteRing A) (v : IsValid r) where
    pub ring_bounds : (0 < r.size) × (r.size ≤ 2 ^ 31)
    ring_bounds = size_bounds v.bits r.size r.mask v.is_pow v.small v.masked

    -- The counter of the next value, unwrapped.
    pub prod-eq : r.prod.tail ≡ (r.cons.tail + count r) % u32_mod
    prod-eq = omega (arith, v.prod_word, v.cons_word)

    -- The slots after the last value, and those of the values, counted from the producer's side.
    pub ahead : (k : ℕ) → (r.prod.tail + k) % r.size ≡ (r.cons.tail + count r + k) % r.size
    ahead k =
        ap (λ p. (p + k) % r.size) prod-eq
        ∙ slot-wrap v.bits r.size (r.cons.tail + count r) k v.is_pow v.small

    pub behind :
        (k : ℕ)
        → k < count r
        → (r.prod.tail + (r.size - count r + k)) % r.size ≡ (r.cons.tail + k) % r.size
    behind k lt =
        ahead (r.size - count r + k)
        ∙ ap (λ p. p % r.size) round
        ∙ add-mod_right (r.cons.tail + k) r.size
      where
        round : r.cons.tail + count r + (r.size - count r + k) ≡ r.cons.tail + k + r.size
        round = omega (arith, v.fill)
