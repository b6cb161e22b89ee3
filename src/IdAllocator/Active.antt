-- ===== src/IdAllocator/Active.antt =====
-- The ids that were given out and not taken back.
use fuxi_n.Prelude.{
  IsOn, true, false, ℕ, ◌+◌, ◌%◌, ◌≤◌, ◌<◌, ◌≡◌, ◌≢◌, ◌⊎◌, inl, inr, ◌↔◌, refl, sym, ap, ◌∙◌, ◌==◌,
  ==_refl, ==_ne, Array, update, update_self, update-ne, List, [], ◌∷◌, arith,
}
use mathlib.Core.Path.{subst}
use native.Mathlib.Decide.{ℕ_discrete}
use native.Mathlib.Nat.{mod-eq_of_lt}
use fuxi_n.IdAllocator.{
  free_list_tail, active_flag, VersionedValue, IdAllocator, allocate, deallocate,
}

module _ (modulus : ℕ) where
  -- The free list from `head` on; its ids are below `next`, and each is on it once.
  abbrev pub IsChain : Array ℕ → ℕ → ℕ → List ℕ → Type 0
  IsChain next_of next head [] = head ≡ free_list_tail modulus
  IsChain next_of next head (x ∷ xs) =
      (head ≡ x) × (x < next) × (IsOn x xs → ⊥) × IsChain next_of next (next_of x) xs

  abbrev pub IsActive : IdAllocator → ℕ → Type 0
  IsActive a i = (i < a.next_value) × (a.free_next_value i ≡ active_flag modulus)

  pub record Valid (a : IdAllocator) (free : List ℕ) : Type 0 where
    pub chain : IsChain a.free_next_value a.next_value a.free_head.value free
    pub small : a.next_value ≤ active_flag modulus
    -- Each id that was ever given out is free or active.
    pub given :
        (i : ℕ) → i < a.next_value → IsOn i free ⊎ (a.free_next_value i ≡ active_flag modulus)

  module _ (big : 2 < modulus) where
    IsChain-update :
        (next_of : Array ℕ) (next next' i v : ℕ) (head : ℕ) (xs : List ℕ)
        → next ≤ next'
        → (IsOn i xs → ⊥)
        → IsChain next_of next head xs
        → IsChain (update next_of i v) next' head xs
    IsChain-update next_of next next' i v head [] le off c = c
    IsChain-update next_of next next' i v head (x ∷ xs) le off (e, lt, once, c) = (
      e,
      omega (arith, lt, le),
      once,
      IsChain-update next_of next next' i v (update next_of i v x) xs le (λ s. off (inr s))
          (subst (λ h. IsChain next_of next h xs)
            (sym (update-ne next_of i v x (λ e. off (inl (sym e))))) c),
    )

    on-lt :
        (next_of : Array ℕ) (next head i : ℕ) (xs : List ℕ)
        → IsChain next_of next head xs
        → IsOn i xs
        → i < next
    on-lt next_of next head i [] c s = elim s [ ]
    on-lt next_of next head i (x ∷ xs) (e, lt, once, c) (inl same) = omega (arith, same, lt)
    on-lt next_of next head i (x ∷ xs) (e, lt, once, c) (inr s) =
        on-lt next_of next (next_of x) i xs c s

    head-inactive :
        (next_of : Array ℕ) (next head : ℕ) (xs : List ℕ)
        → next ≤ active_flag modulus
        → IsChain next_of next head xs
        → head ≢ active_flag modulus
    head-inactive next_of next head [] le c flag = omega (arith, c, flag, big)
    head-inactive next_of next head (x ∷ xs) le (e, lt, once, c) flag =
        omega (arith, e, lt, le, flag)

    -- What a free id points at is no flag.
    on-inactive :
        (next_of : Array ℕ) (next head i : ℕ) (xs : List ℕ)
        → next ≤ active_flag modulus
        → IsChain next_of next head xs
        → IsOn i xs
        → next_of i ≢ active_flag modulus
    on-inactive next_of next head i [] le c s flag = elim s [ ]
    on-inactive next_of next head i (x ∷ xs) le (e, lt, once, c) (inl same) flag =
        head-inactive next_of next (next_of x) xs le c (ap next_of (sym same) ∙ flag)
    on-inactive next_of next head i (x ∷ xs) le (e, lt, once, c) (inr s) flag =
        on-inactive next_of next (next_of x) i xs le c s flag

    -- The flag is stored for `i`.
    flag-active :
        (next_of : Array ℕ) (next next' i j : ℕ)
        → next ≤ next'
        → i < next'
        → (j ≢ i → j < next' → j < next)
        → ((j < next') × (update next_of i (active_flag modulus) j ≡ active_flag modulus))
          ↔ (((j < next) × (next_of j ≡ active_flag modulus)) ⊎ (j ≡ i))
    flag-active next_of next next' i j le i_lt below = elim (ℕ_discrete j i) [
      | yes e ↦ (
        λ _. inr e,
        λ _. (
          omega (arith, e, i_lt),
          ap (update next_of i (active_flag modulus)) e
              ∙ update_self next_of i (active_flag modulus),
        ),
      )
      | no ne ↦
          let other = update-ne next_of i (active_flag modulus) j ne in
          (
            λ h. inl (below ne h.0, sym other ∙ h.1),
            λ h. elim h [
              | inl (lt, e) ↦ (omega (arith, lt, le), other ∙ e)
              | inr e ↦ absurd (ne e)
            ],
          )
    ]

    -- A call of `allocate`, with what it returned and left
    record Allocates (a : IdAllocator) (r : VersionedValue × IdAllocator) : Type 0 where
      free : List ℕ
      valid : Valid r.1 free
      fresh : IsActive a r.0.value → ⊥
      active : (j : ℕ) → IsActive r.1 j ↔ (IsActive a j ⊎ (j ≡ r.0.value))

    allocates :
        (a : IdAllocator) (free : List ℕ)
        → Valid a free
        → a.next_value < active_flag modulus
        → Allocates a (allocate modulus a)
    allocates a [] v room =
        let wrap : (a.next_value + 1) % modulus ≡ a.next_value + 1 =
          mod-eq_of_lt (omega (arith, room)) in
        let empty : (a.free_head.value == free_list_tail modulus) ≡ true =
          rw v.chain (==_refl (free_list_tail modulus)) in
        rw (empty, wrap)
          record {
            free = [];
            valid = record {
              chain = v.chain;
              small = omega (arith, room);
              given = λ i lt. elim (ℕ_discrete i a.next_value) [
                | yes e ↦ inr (
                    ap (update a.free_next_value a.next_value (active_flag modulus)) e
                    ∙ update_self a.free_next_value a.next_value (active_flag modulus))
                | no ne ↦ elim (v.given i (omega (arith, lt, ne))) [
                  | inl s ↦ inl s
                  | inr e ↦
                      inr (update-ne a.free_next_value a.next_value (active_flag modulus) i ne ∙ e)
                ]
              ];
            };
            fresh = λ h. omega (arith, h.0);
            active = λ j.
                flag-active a.free_next_value a.next_value (a.next_value + 1) a.next_value j
                  (omega arith) (omega arith) (λ ne lt. omega (arith, ne, lt));
          }
    allocates a (x ∷ xs) v room =
        let (e, lt, once, c) = v.chain in
        let some_free : (a.free_head.value == free_list_tail modulus) ≡ false =
          ==_ne a.free_head.value (free_list_tail modulus) (omega (arith, e, lt, room)) in
        rw (some_free, e)
          record {
            free = xs;
            valid = record {
              chain =
                  IsChain-update a.free_next_value a.next_value a.next_value x (active_flag modulus)
                    (a.free_next_value x) xs (omega arith) once c;
              small = v.small;
              given = λ i lt. elim (ℕ_discrete i x) [
                | yes e ↦ inr (
                    ap (update a.free_next_value x (active_flag modulus)) e
                    ∙ update_self a.free_next_value x (active_flag modulus))
                | no ne ↦ elim (v.given i lt) [
                  | inl s ↦ elim s [ inl e ↦ absurd (ne e) | inr s ↦ inl s ]
                  | inr e ↦ inr (update-ne a.free_next_value x (active_flag modulus) i ne ∙ e)
                ]
              ];
            };
            fresh = λ h.
                head-inactive a.free_next_value a.next_value (a.free_next_value x) xs v.small c h.1;
            active = λ j.
                flag-active a.free_next_value a.next_value a.next_value x j (omega arith) lt
                  (λ ne lt. lt);
          }

    pub allocate-IsActive :
        (a : IdAllocator) (free : List ℕ)
        → Valid a free
        → a.next_value < active_flag modulus
        → ((free' : List ℕ) × Valid (allocate modulus a).1 free')
          × (IsActive a (allocate modulus a).0.value → ⊥)
          × ((j : ℕ)
              → IsActive (allocate modulus a).1 j
                ↔ (IsActive a j ⊎ (j ≡ (allocate modulus a).0.value)))
    allocate-IsActive a free v room =
        let r = allocates a free v room in ((r.free, r.valid), r.fresh, r.active)

    pub deallocate-Valid :
        (a : IdAllocator) (free : List ℕ) (id : VersionedValue)
        → Valid a free
        → IsActive a id.value
        → Valid (deallocate modulus a id) (id.value ∷ free)
    deallocate-Valid a free id v (lt, flag) =
        let off : IsOn id.value free → ⊥ = λ s.
          on-inactive a.free_next_value a.next_value a.free_head.value id.value free v.small v.chain
            s flag in
        record {
          chain = (
            refl,
            lt,
            off,
            subst
                (λ h.
                  IsChain (update a.free_next_value id.value a.free_head.value) a.next_value h free)
                (sym (update_self a.free_next_value id.value a.free_head.value))
                (IsChain-update a.free_next_value a.next_value a.next_value id.value
                  a.free_head.value a.free_head.value free (omega arith) off v.chain),
          );
          small = v.small;
          given = λ i below. elim (ℕ_discrete i id.value) [
            | yes e ↦ inl (inl e)
            | no ne ↦ elim (v.given i below) [
              | inl s ↦ inl (inr s)
              | inr e ↦ inr (update-ne a.free_next_value id.value a.free_head.value i ne ∙ e)
            ]
          ];
        }

    pub deallocate-IsActive :
        (a : IdAllocator) (free : List ℕ) (id : VersionedValue)
        → Valid a free
        → (j : ℕ) → IsActive (deallocate modulus a id) j ↔ (IsActive a j × (j ≢ id.value))
    deallocate-IsActive a free id v j = elim (ℕ_discrete j id.value) [
      | yes e ↦ (
        λ h. absurd (
            head-inactive a.free_next_value a.next_value a.free_head.value free v.small v.chain (
              sym (update_self a.free_next_value id.value a.free_head.value)
              ∙ ap (update a.free_next_value id.value a.free_head.value) (sym e)
              ∙ h.1)),
        λ h. absurd (h.1 e),
      )
      | no ne ↦
          let other = update-ne a.free_next_value id.value a.free_head.value j ne in
          (λ h. ((h.0, sym other ∙ h.1), ne), λ h. (h.0.0, other ∙ h.0.1))
    ]
