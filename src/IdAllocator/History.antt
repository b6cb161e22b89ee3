-- ===== src/IdAllocator/History.antt =====
-- Histories of the users of an allocator, each of whom gives back only ids that are given out.
use fuxi_n.Prelude.{
  IsOn, IsDistinct, Bool, true, false, Bool-cases, ℕ, suc, ◌+◌, ◌≤◌, ◌<◌, ◌≡◌, ◌≢◌, inl, inr, ◌↔◌,
  refl, sym, ap, ◌∙◌, ◌==◌, ==_refl, ==_ne, if◌then◌else◌, List, [], ◌∷◌, length, arith,
}
use mathlib.Core.Path.{subst}
use native.Mathlib.Nat.{mod-le}
use native.Mathlib.Decide.{ℕ_discrete}
use fuxi_n.IdAllocator.{
  free_list_tail, active_flag, VersionedValue, IdAllocator, allocate, deallocate, new_allocator,
}
use fuxi_n.IdAllocator.Active.{
  IsActive, Valid, allocate-IsActive, deallocate-Valid, deallocate-IsActive,
}

pub data Call : Type 0 where
  allocates : Call
  deallocates : ℕ → Call

-- The ids without the first `i`
abbrev pub without : ℕ → List ℕ → List ℕ
without i [] = []
without i (x ∷ xs) = let rest = without i xs in if x == i then xs else x ∷ rest

abbrev pub is_on : ℕ → List ℕ → Bool
is_on i [] = false
is_on i (x ∷ xs) = let rest = is_on i xs in if i == x then true else rest

is_on-IsOn : (i : ℕ) (xs : List ℕ) → is_on i xs ≡ true → IsOn i xs
is_on-IsOn i [] e = absurd (cc e)
is_on-IsOn i (x ∷ xs) e = elim (ℕ_discrete i x) [
  | yes same ↦ inl same
  | no ne ↦
      inr (is_on-IsOn i xs (sym (ap (λ b. if b then true else is_on i xs) (==_ne i x ne)) ∙ e))
]

without-first : (x i : ℕ) (xs : List ℕ) → x ≡ i → without i (x ∷ xs) ≡ xs
without-first x i xs e =
    ap (λ b. if b then xs else x ∷ without i xs) (ap (λ t. t == i) e ∙ ==_refl i)

without-later : (x i : ℕ) (xs : List ℕ) → x ≢ i → without i (x ∷ xs) ≡ x ∷ without i xs
without-later x i xs ne = ap (λ b. if b then xs else x ∷ without i xs) (==_ne x i ne)

IsOn-without :
    (j i : ℕ) (xs : List ℕ) → IsDistinct xs → IsOn j (without i xs) ↔ (IsOn j xs × (j ≢ i))
IsOn-without j i [] d = (λ s. absurd s, λ h. h.0)
IsOn-without j i (x ∷ xs) (once, d) = elim (ℕ_discrete x i) [
  | yes e ↦ rw (without-first x i xs e) (
    λ s. (inr s, λ same. once (subst (λ t. IsOn t xs) (same ∙ sym e) s)),
    λ h. elim h.0 [ inl same ↦ absurd (h.1 (same ∙ e)) | inr s ↦ s ],
  )
  | no ne ↦
      let rest = IsOn-without j i xs d in
      rw (without-later x i xs ne) (
        λ s. elim s [
          | inl same ↦ (inl same, λ e. ne (sym same ∙ e))
          | inr s ↦ let (on, other) = rest.0 s in (inr on, other)
        ],
        λ h. elim h.0 [ inl same ↦ inl same | inr s ↦ inr (rest.1 (s, h.1)) ],
      )
]

without-IsDistinct : (i : ℕ) (xs : List ℕ) → IsDistinct xs → IsDistinct (without i xs)
without-IsDistinct i [] d = d
without-IsDistinct i (x ∷ xs) (once, d) = elim (ℕ_discrete x i) [
  | yes e ↦ rw (without-first x i xs e) d
  | no ne ↦
      rw (without-later x i xs ne)
        ((λ s. once ((IsOn-without x i xs d).0 s).0), without-IsDistinct i xs d)
]

-- The allocator, and the ids that its users have
pub record Users : Type 0 where
  pub held : List ℕ
  pub allocator : IdAllocator

module _ (modulus : ℕ) where
  abbrev pub call : Users → Call → Users
  call u allocates = record {
    held = (allocate modulus u.allocator).0.value ∷ u.held;
    allocator = (allocate modulus u.allocator).1;
  }
  call u (deallocates i) =
      if is_on i u.held
      then record {
        held = without i u.held;
        allocator = deallocate modulus u.allocator (record { value = i; version = 0 });
      }
      else u

  abbrev pub run : Users → List Call → Users
  run u [] = u
  run u (c ∷ cs) = run (call u c) cs

  pub record Inv (u : Users) (k : ℕ) : Type 0 where
    free : List ℕ
    valid : Valid modulus u.allocator free
    distinct : IsDistinct u.held
    held_active : (j : ℕ) → IsActive modulus u.allocator j ↔ IsOn j u.held
    few : u.allocator.next_value ≤ k

  abbrev pub new_users : Users
  new_users = record { held = []; allocator = new_allocator modulus }

  module _ (big : 2 < modulus) where
    next-le : (a : IdAllocator) → (allocate modulus a).1.next_value ≤ a.next_value + 1
    next-le a = elim (Bool-cases (a.free_head.value == free_list_tail modulus)) [
      | inl empty ↦ rw empty (mod-le (a.next_value + 1) modulus)
      | inr some_free ↦ rw some_free (omega arith)
    ]

    call-Inv :
        (u : Users) (c : Call) (k : ℕ) → k < active_flag modulus → Inv u k → Inv (call u c) (suc k)
    call-Inv u allocates k lt inv =
        let ((free, valid), fresh, active) =
          allocate-IsActive modulus big u.allocator inv.free inv.valid
            (omega (arith, lt, inv.few)) in
        record {
          free = free;
          valid = valid;
          distinct = ((λ s. fresh ((inv.held_active _).1 s)), inv.distinct);
          held_active = λ j. (
            λ h. elim ((active j).0 h) [
              | inl old ↦ inr ((inv.held_active j).0 old)
              | inr e ↦ inl e
            ],
            λ h. (active j).1 (elim h [ inl e ↦ inr e | inr s ↦ inl ((inv.held_active j).1 s) ]),
          );
          few = omega (arith, next-le u.allocator, inv.few);
        }
    call-Inv u (deallocates i) k lt inv = elim (Bool-cases (is_on i u.held)) [
      | inr absent ↦ rw absent record {
        free = inv.free;
        valid = inv.valid;
        distinct = inv.distinct;
        held_active = inv.held_active;
        few = omega (arith, inv.few);
      }
      | inl present ↦
          let id : VersionedValue = record { value = i; version = 0 } in
          rw present record {
            free = i ∷ inv.free;
            valid =
                deallocate-Valid modulus big u.allocator inv.free id inv.valid
                  ((inv.held_active i).1 (is_on-IsOn i u.held present));
            distinct = without-IsDistinct i u.held inv.distinct;
            held_active = λ j.
                let act = deallocate-IsActive modulus big u.allocator inv.free id inv.valid j in
                let on = IsOn-without j i u.held inv.distinct in
                (
                  λ h. let (old, ne) = act.0 h in on.1 ((inv.held_active j).0 old, ne),
                  λ s. let (old, ne) = on.0 s in act.1 ((inv.held_active j).1 old, ne),
                );
            few = omega (arith, inv.few);
          }
    ]

    run-Inv :
        (u : Users) (cs : List Call) (k : ℕ)
        → k + length cs ≤ active_flag modulus
        → Inv u k
        → Inv (run u cs) (k + length cs)
    run-Inv u [] k le inv = subst (Inv u) {x = k} {y = k + 0} (omega arith) inv
    run-Inv u (c ∷ cs) k le inv =
        subst (Inv (run u (c ∷ cs))) {x = suc k + length cs} {y = k + length (c ∷ cs)} (omega arith)
          (run-Inv (call u c) cs (suc k) (omega (arith, le))
            (call-Inv u c k (omega (arith, le)) inv))

    new-Inv : Inv new_users 0
    new-Inv = record {
      free = [];
      valid = record {
        chain = refl;
        small = omega arith;
        given = λ i lt. absurd (omega (arith, lt));
      };
      distinct = tt;
      held_active = λ j. (λ h. omega (arith, h.0), λ s. absurd s);
      few = omega arith;
    }

    -- Over any history of less than 2^w - 1 calls on a new allocator, where only ids that are given
    -- out are given back: no id is given to two users, and the flags are those of the ids given out.
    pub run-IsDistinct :
        (cs : List Call)
        → length cs ≤ active_flag modulus
        → IsDistinct (run new_users cs).held
          × ((j : ℕ)
              → IsActive modulus (run new_users cs).allocator j ↔ IsOn j (run new_users cs).held)
    run-IsDistinct cs le =
        let inv = run-Inv new_users cs 0 (omega (arith, le)) new-Inv in
        (inv.distinct, inv.held_active)
