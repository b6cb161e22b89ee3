-- ===== src/Ring/Window.antt =====
-- Which slots `enqueue_values` writes and `dequeue_values` reads, as a window of the ring that goes
-- round its end.
use fuxi_n.Prelude.{
  ℕ, zero, suc, ◌+◌, ◌-◌, ◌%◌, ◌^◌, ◌≤◌, ◌<◌, bit_and, min, ◌≡◌, refl, sym, ap, ◌∙◌, inl, inr, List,
  [], ◌∷◌, ◌++◌, Array, u32_mod, ltb, leb, if◌then◌else◌, ◌&&◌, Bool-cases, arith, length,
}
use fuxi_n.Prelude.Bits.{bit_and-mask}
use native.Mathlib.Nat.{
  mod-add-mod, mod-eq_of_lt, mod-eq-sub-mod, mod-lt, add-zero, zero-add, suc-add, one-le-pow,
  pow-le-pow_right,
}
use fuxi_n.Ring.Copy.{copy_run, copy_run_lem, copy_unrolled_lem}
use fuxi_n.Ring.{enqueue_values, dequeue_values}

-- The slot `k` places after the one of counter `h`.
pub add-mod_cases :
    (h k size : ℕ)
    → k < size
    → (h + k) % size ≡ (if ltb (h % size + k) size then h % size + k else h % size + k - size)
add-mod_cases h k size lt = elim (Bool-cases (ltb (h % size + k) size)) [
  | inl below ↦ rw below (sym (mod-add-mod h size k) ∙ mod-eq_of_lt (ground arith))
  | inr above ↦ rw above (
      sym (mod-add-mod h size k)
      ∙ mod-eq-sub-mod {n = h % size + k} {m = size} (ground arith)
      ∙ mod-eq_of_lt (omega (arith, mod-lt h {m = size} (omega arith))))
]

shift : (h k : ℕ) → h + 1 + k ≡ h + suc k
shift h k = omega arith

module _ {A : Type 0} where
  -- The `n` values from counter `h` on.
  abbrev pub items : Array A → ℕ → ℕ → ℕ → List A
  items st size h zero = []
  items st size h (suc n) = st (h % size) ∷ items st size (h + 1) n

  -- `t[s]` to `t[s + n - 1]`
  abbrev pub values : Array A → ℕ → ℕ → List A
  values t s zero = []
  values t s (suc n) = t s ∷ values t (s + 1) n

  pub length-items : (st : Array A) (size h n : ℕ) → length (items st size h n) ≡ n
  length-items st size h zero = refl
  length-items st size h (suc n) = ap suc (length-items st size (h + 1) n)

  pub length-values : (t : Array A) (s n : ℕ) → length (values t s n) ≡ n
  length-values t s zero = refl
  length-values t s (suc n) = ap suc (length-values t (s + 1) n)

  pub items-add :
      (st : Array A) (size h m n : ℕ)
      → items st size h (m + n) ≡ items st size h m ++ items st size (h + m) n
  items-add st size h zero n = rw (zero-add, add-zero)
  items-add st size h (suc m) n = rw (suc-add, items-add st size (h + 1) m n, shift h m)

  pub items-congr :
      (st t : Array A) (size h h' n : ℕ)
      → ((k : ℕ) → k < n → st ((h + k) % size) ≡ t ((h' + k) % size))
      → items st size h n ≡ items t size h' n
  items-congr st t size h h' zero same = refl
  items-congr st t size h h' (suc n) same = ground (
    arith,
    ap (λ k. st (k % size)) (add-zero h),
    ap (λ k. t (k % size)) (add-zero h'),
    same 0 (omega arith),
    items-congr st t size (h + 1) (h' + 1) n
        λ k lt. rw (shift h k, shift h' k) (same (suc k) (omega arith)),
  )

  pub items-eq-values :
      (st t : Array A) (size h s n : ℕ)
      → ((k : ℕ) → k < n → st ((h + k) % size) ≡ t (s + k))
      → items st size h n ≡ values t s n
  items-eq-values st t size h s zero same = refl
  items-eq-values st t size h s (suc n) same = ground (
    arith,
    ap (λ k. st (k % size)) (add-zero h),
    ap t (add-zero s),
    same 0 (omega arith),
    items-eq-values st t size (h + 1) (s + 1) n
        λ k lt. rw (shift h k, shift s k) (same (suc k) (omega arith)),
  )

-- A ring of `size` = 2^bits slots with its mask.
module _ (bits size mask : ℕ) (pow : size ≡ 2 ^ bits) (small : bits ≤ 31)
    (masked : mask ≡ size - 1) where
  pub size_bounds : (0 < size) × (size ≤ 2 ^ 31)
  size_bounds = (
    ground (arith, one-le-pow bits 2),
    rw pow (pow-le-pow_right {n = 2} (omega arith) {i = bits} {j = 31} small),
  )

  pub slot : (h : ℕ) → bit_and h mask ≡ h % size
  slot h = rw (masked, pow) (bit_and-mask bits h)

  module _ {A : Type 0} (ring t : Array A) (h n : ℕ) (fits : n ≤ size) where
    -- What a write of `n` values at counter `h` leaves in slot `j`.
    pub enqueue_values_at :
        (j : ℕ)
        → enqueue_values size mask ring h t n j ≡ (
            if leb (h % size) j && ltb j (min size (h % size + n))
            then t (j - h % size)
            else if ltb (j + size) (h % size + n)
            then t (j + size - h % size)
            else ring j)
    unfolding enqueue_values
    enqueue_values_at j = rw slot (elim (Bool-cases (ltb ((p + n) % u32_mod) size)) [
      | inl fast ↦
          rw (fast, copy_unrolled_lem n ring p t 0 j)
            (ground (arith, size_bounds, mod-lt h {m = size}))
      | inr slow ↦
          rw
            (
              slow,
              copy_run_lem (n - upper) (copy_run upper ring p t 0) 0 t upper j,
              copy_run_lem upper ring p t 0 j,
            )
            (ground (arith, size_bounds, mod-lt h {m = size}))
    ])
      where
        p : ℕ
        p = h % size

        upper : ℕ
        upper = size - h % size

    pub enqueue_values-new :
        (k : ℕ) → k < n → enqueue_values size mask ring h t n ((h + k) % size) ≡ t k
    enqueue_values-new k lt =
        enqueue_values_at ((h + k) % size)
        ∙ ground (arith, size_bounds, mod-lt h {m = size}, add-mod_cases h k size)

    pub enqueue_values-old :
        (k : ℕ)
        → n ≤ k
        → k < size
        → enqueue_values size mask ring h t n ((h + k) % size) ≡ ring ((h + k) % size)
    enqueue_values-old k le lt =
        enqueue_values_at ((h + k) % size)
        ∙ ground (arith, size_bounds, mod-lt h {m = size}, add-mod_cases h k size)

    -- Nothing is written past the end of the ring.
    pub enqueue_values-outside : (j : ℕ) → size ≤ j → enqueue_values size mask ring h t n j ≡ ring j
    enqueue_values-outside j le =
        enqueue_values_at j ∙ ground (arith, size_bounds, mod-lt h {m = size})

    -- What a read of `n` values at counter `h` leaves at offset `j` of the table.
    pub dequeue_values_at :
        (j : ℕ)
        → dequeue_values size mask ring h t n j ≡ (if ltb j n then ring ((h + j) % size) else t j)
    unfolding dequeue_values
    dequeue_values_at j = rw slot (elim (Bool-cases (ltb ((p + n) % u32_mod) size)) [
      | inl fast ↦
          rw (fast, copy_unrolled_lem n t 0 ring p j)
            (ground (arith, size_bounds, mod-lt h {m = size}, add-mod_cases h j size))
      | inr slow ↦
          rw
            (
              slow,
              copy_run_lem (n - upper) (copy_run upper t 0 ring p) upper ring 0 j,
              copy_run_lem upper t 0 ring p j,
            )
            (ground (arith, size_bounds, mod-lt h {m = size}, add-mod_cases h j size))
    ])
      where
        p : ℕ
        p = h % size

        upper : ℕ
        upper = size - h % size
