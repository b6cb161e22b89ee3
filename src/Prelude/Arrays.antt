-- ===== src/Prelude/Arrays.antt =====
-- A C array as the memory behind its pointer: a value at each offset. Nothing stops an access past
-- the end, so the theorems about a component say which offsets it leaves alone.
use Prim.Native.Nat.{ℕ, zero, suc, ◌+◌, ◌≤◌, ◌<◌}
use mathlib.Core.Path.{◌≡◌, refl, sym, ap, ◌∙◌}
use mathlib.Core.Logic.{◌≢◌}
use native.Mathlib.Decide.{ℕ_discrete}
use native.Mathlib.Omega.{arith}
use fuxi_n.Prelude.Tests.{◌==◌, if◌then◌else◌, ==_refl, ==_ne}

abbrev pub Array {ℓ} : Type ℓ → Type ℓ
Array A = ℕ → A

-- `a[i] = v`
abbrev pub update {ℓ} : {A : Type ℓ} → Array A → ℕ → A → Array A
update a i v j = if j == i then v else a j

pub update_self {ℓ} : {A : Type ℓ} (a : Array A) (i : ℕ) (v : A) → update a i v i ≡ v
update_self a i v = rw (==_refl i)

pub update-ne {ℓ} :
    {A : Type ℓ} (a : Array A) (i : ℕ) (v : A) (j : ℕ) → j ≢ i → update a i v j ≡ a j
update-ne a i v j ne = rw (==_ne j i ne)

-- A property of every element, where element `a` becomes `p`
pub moved :
    {P : Type 0} (Q : P → Type 0) (pc : Array P) (a : ℕ) (p : P) (b : ℕ)
    → (b ≡ a → Q p)
    → (b ≢ a → Q (pc b))
    → Q (update pc a p b)
moved Q pc a p b own other = elim (ℕ_discrete b a) [
  | yes e ↦ rw (e, ==_refl a) (own e)
  | no ne ↦ rw (==_ne b a ne) (other ne)
]

module _ {ℓ} {A : Type ℓ} (w : A → ℕ) where
  -- The sum of the weights of the first `n` elements
  pub total : ℕ → Array A → ℕ
  total zero a = 0
  total (suc n) a = total n a + w (a n)

  total-update_of_le :
      (n : ℕ) (a : Array A) (i : ℕ) (v : A) → n ≤ i → total n (update a i v) ≡ total n a
  unfolding total
  total-update_of_le zero a i v h = refl
  total-update_of_le (suc n) a i v h = omega (
    arith,
    total-update_of_le n a i v (omega arith),
    ap (λ t. w t) (update-ne a i v n (omega arith)),
  )

  pub total-update :
      (n : ℕ) (a : Array A) (i : ℕ) (v : A)
      → i < n
      → total n (update a i v) + w (a i) ≡ total n a + w v
  unfolding total
  total-update zero a i v h = absurd (omega arith)
  total-update (suc n) a i v h = elim (ℕ_discrete i n) [
    | yes e ↦
        let same : w (update a i v n) ≡ w v =
          ap w (ap (update a i v) (sym e) ∙ update_self a i v) in
        omega (arith, same, total-update_of_le n a i v (omega arith), ap (λ t. w (a t)) e)
    | no ne ↦
        omega
          (arith, ap w (update-ne a i v n (λ e. ne (sym e))), total-update n a i v (omega arith))
  ]

  pub total-ge : (n : ℕ) (a : Array A) (i : ℕ) → i < n → w (a i) ≤ total n a
  unfolding total
  total-ge zero a i h = absurd (omega (arith, h))
  total-ge (suc n) a i h = elim (ℕ_discrete i n) [
    | yes e ↦ omega (arith, ap (λ t. w (a t)) e)
    | no ne ↦ omega (arith, total-ge n a i (omega (arith, h, ne)))
  ]

  pub total_two :
      (n : ℕ) (a : Array A) (i j : ℕ) → i < n → j < n → i ≢ j → w (a i) + w (a j) ≤ total n a
  unfolding total
  total_two zero a i j h k ne = absurd (omega (arith, h))
  total_two (suc n) a i j h k ne = elim (ℕ_discrete i n) [
    | yes e ↦ omega (arith, ap (λ t. w (a t)) e, total-ge n a j (omega (arith, k, ne, e)))
    | no other ↦ elim (ℕ_discrete j n) [
      | yes e ↦ omega (arith, ap (λ t. w (a t)) e, total-ge n a i (omega (arith, h, other)))
      | no last ↦
          omega (arith, total_two n a i j (omega (arith, h, other)) (omega (arith, k, last)) ne)
    ]
  ]

  pub total-le : ((x : A) → w x ≤ 1) → (n : ℕ) (a : Array A) → total n a ≤ n
  unfolding total
  total-le small zero a = omega arith
  total-le small (suc n) a = omega (arith, small (a n), total-le small n a)

  pub total-eq-zero : (n : ℕ) (a : Array A) → ((i : ℕ) → w (a i) ≡ 0) → total n a ≡ 0
  unfolding total
  total-eq-zero zero a h = refl
  total-eq-zero (suc n) a h = omega (arith, h n, total-eq-zero n a h)
