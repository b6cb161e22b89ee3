-- ===== src/BoundedQueue/Batch/Contents.antt =====
-- The slots of a queue that no thread is in: from the next pop on they hold its elements, and from the
-- next push on they are free.
use fuxi_n.Prelude.{
  ℕ, zero, suc, ◌+◌, ◌-◌, ◌*◌, ◌%◌, ◌^◌, ◌≤◌, ◌<◌, ◌≡◌, inl, inr, sym, ap, ◌∙◌, u16_mod, u64_mod,
  Array, List, [], ◌∷◌, arith,
}
use native.Mathlib.Decide.{dec_lt}
use fuxi_n.BoundedQueue.{push_side, pop_side, slot_index}
use fuxi_n.BoundedQueue.Tickets.{
  epoch, far, pos, slot-lt, next_round-slot, round-start, ticket-injective, next-cases,
}
use fuxi_n.BoundedQueue.Batch.{next_round_begin_index}

-- The version at which a side uses a slot in an epoch
abbrev pub version_at : ℕ → ℕ → ℕ
version_at side e = (e * 2 % u16_mod + side) % u16_mod

-- The version that ends its turn
abbrev pub next_version : ℕ → ℕ → ℕ
next_version side e = (version_at side e + 1) % u16_mod

module _ (bits : ℕ) where
  pub record Wf (version : Array ℕ) (pop push : ℕ) : Type 0 where
    pub ordered : pop ≤ push
    pub bounded : push ≤ pop + 2 ^ bits
    pub full :
        (t : ℕ)
        → pop ≤ t
        → t < push
        → version (slot_index bits t) ≡ version_at pop_side (epoch bits t)
    pub free :
        (t : ℕ)
        → push ≤ t
        → t < pop + 2 ^ bits
        → version (slot_index bits t) ≡ version_at push_side (epoch bits t)

  -- The values at `n` tickets from `t` on
  abbrev pub values_of : {A : Type 0} → Array A → ℕ → ℕ → List A
  values_of value t zero = []
  values_of value t (suc n) = value (slot_index bits t) ∷ values_of value (suc t) n

  -- `b` tickets from `i` on are in one epoch, in slots from `s` on.
  abbrev pub InRound : ℕ → ℕ → ℕ → ℕ → Type 0
  InRound i b s e = (r : ℕ) → r < b → (slot_index bits (i + r) ≡ s + r) × (epoch bits (i + r) ≡ e)

  pub InRound-head :
      (i b s e : ℕ) → InRound i (suc b) s e → (slot_index bits i ≡ s) × (epoch bits i ≡ e)
  InRound-head i b s e h =
      let (p, q) = h 0 (omega arith) in
      let plus_zero : i + 0 ≡ i = omega arith in
      (ap (slot_index bits) (sym plus_zero) ∙ p ∙ omega arith, ap (epoch bits) (sym plus_zero) ∙ q)

  pub InRound-tail : (i b s e : ℕ) → InRound i (suc b) s e → InRound (suc i) b (suc s) e
  InRound-tail i b s e h r lt =
      let (p, q) = h (suc r) (omega (arith, lt)) in
      let same : suc i + r ≡ i + suc r = omega arith in
      (ap (slot_index bits) same ∙ p ∙ omega arith, ap (epoch bits) same ∙ q)

  pub InRound-of_slot :
      (i b : ℕ) → slot_index bits i + b ≤ 2 ^ bits → InRound i b (slot_index bits i) (epoch bits i)
  InRound-of_slot i b le zero lt =
      let plus_zero : i + 0 ≡ i = omega arith in
      (ap (slot_index bits) plus_zero ∙ omega arith, ap (epoch bits) plus_zero)
  InRound-of_slot i b le (suc r) lt =
      let (p, q) = InRound-of_slot i b le r (omega (arith, lt)) in
      let same : i + suc r ≡ suc (i + r) = omega arith in
      elim (next-cases bits (i + r)) [
        | inl (p', q') ↦
            (ap (slot_index bits) same ∙ p' ∙ omega (arith, p), ap (epoch bits) same ∙ q' ∙ q)
        | inr (full, _, _) ↦ absurd (omega (arith, full, p, le, lt))
      ]

  -- Tickets less than a round apart have different slots.
  pub window-injective :
      (t u : ℕ)
      → slot_index bits t ≡ slot_index bits u
      → t < u + 2 ^ bits
      → u < t + 2 ^ bits
      → t ≡ u
  window-injective t u slots t_lt u_lt = elim (dec_lt (epoch bits t) (epoch bits u)) [
    | yes lt ↦ absurd (omega (arith, far bits t u slots lt, u_lt))
    | no ge ↦ elim (dec_lt (epoch bits u) (epoch bits t)) [
      | yes gt ↦ absurd (omega (arith, far bits u t (sym slots) gt, t_lt))
      | no le ↦ ticket-injective bits t u slots (omega (arith, ge, le))
    ]
  ]

  -- The first index of the next round, while indexes do not wrap
  pub next_round-at :
      (i : ℕ)
      → i + 2 ^ bits < u64_mod
      → (next_round_begin_index bits i + slot_index bits i ≡ i + 2 ^ bits)
        × (slot_index bits (next_round_begin_index bits i) ≡ 0)
  next_round-at i small =
      let past : (i + (2 ^ bits - 1) + 1) % u64_mod ≡ i + 2 ^ bits =
        omega (arith, small, pos bits) in
      let start : next_round_begin_index bits i ≡ i + 2 ^ bits - slot_index bits i =
        ap (λ u. u - slot_index bits u) past
        ∙ ap (λ s. i + 2 ^ bits - s) (next_round-slot bits i).0 in
      (omega (arith, start, slot-lt bits i), ap (slot_index bits) start ∙ round-start bits i)
