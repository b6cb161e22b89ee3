-- ===== src/BoundedQueue/Tickets.antt =====
-- Tickets by their slot and their epoch, and how many tickets of a slot were drawn.
use fuxi_n.Prelude.{
  ℕ, zero, suc, ◌+◌, ◌-◌, ◌*◌, ◌/◌, ◌%◌, ◌^◌, ◌≤◌, ◌<◌, ◌≡◌, refl, sym, ap, ◌∙◌, ◌==◌, ltb,
  if◌then◌else◌, ◌⊎◌, inl, inr, arith,
}
use fuxi_n.Prelude.Bits.{bit_and-mask}
use native.Mathlib.Nat.{
  one-le-pow, mul-le-mul_left, div-add-mod, mod-lt, mod-eq_of_lt, add-mul-mod_self_left,
  mul-add-div, div-eq_of_lt, zero-div,
}
use native.Mathlib.Decide.{ℕ_discrete, dec_lt, dec_le}
use fuxi_n.BoundedQueue.{slot_index}

-- The quotient and the remainder of `c * q + r`
div-at : (c q r : ℕ) → r < c → (c * q + r) / c ≡ q
div-at c q r lt =
    mul-add-div {m = c} (omega arith) q r ∙ ap (λ t. q + t) (div-eq_of_lt lt) ∙ omega arith

mod-at : (c q r : ℕ) → r < c → (c * q + r) % c ≡ r
mod-at c q r lt = ap (λ t. t % c) (omega arith) ∙ add-mul-mod_self_left r c q ∙ mod-eq_of_lt lt

module _ (bits : ℕ) where
  abbrev pub epoch : ℕ → ℕ
  epoch i = i / 2 ^ bits

  slot-mod : (i : ℕ) → slot_index bits i ≡ i % 2 ^ bits
  slot-mod i = bit_and-mask bits i

  pub pos : 0 < 2 ^ bits
  pos = one-le-pow bits 2 (omega arith)

  pub slot-lt : (i : ℕ) → slot_index bits i < 2 ^ bits
  slot-lt i = omega (arith, slot-mod i, mod-lt i pos)

  whole : (i : ℕ) → i ≡ 2 ^ bits * epoch i + slot_index bits i
  whole i = omega (arith, div-add-mod i (2 ^ bits), slot-mod i)

  -- A slot and an epoch are one ticket.
  pub ticket-injective :
      (i j : ℕ) → slot_index bits i ≡ slot_index bits j → epoch i ≡ epoch j → i ≡ j
  ticket-injective i j s e = whole i ∙ omega (arith, s, ap (λ q. 2 ^ bits * q) e) ∙ sym (whole j)

  pub next-cases :
      (n : ℕ)
      → ((slot_index bits (suc n) ≡ suc (slot_index bits n)) × (epoch (suc n) ≡ epoch n))
        ⊎ ((suc (slot_index bits n) ≡ 2 ^ bits)
            × (slot_index bits (suc n) ≡ 0)
            × (epoch (suc n) ≡ suc (epoch n)))
  next-cases n = elim (dec_lt (suc (slot_index bits n)) (2 ^ bits)) [
    | yes lt ↦
        let e : suc n ≡ 2 ^ bits * epoch n + suc (slot_index bits n) = omega (arith, whole n) in
        inl (
          slot-mod (suc n) ∙ ap (λ t. t % 2 ^ bits) e ∙ mod-at (2 ^ bits) (epoch n) _ lt,
          ap epoch e ∙ div-at (2 ^ bits) (epoch n) _ lt,
        )
    | no ge ↦
        let full : suc (slot_index bits n) ≡ 2 ^ bits = omega (arith, slot-lt n) in
        let e : suc n ≡ 2 ^ bits * suc (epoch n) + 0 = omega (arith, whole n) in
        inr (
          full,
          slot-mod (suc n) ∙ ap (λ t. t % 2 ^ bits) e ∙ mod-at (2 ^ bits) (suc (epoch n)) 0 pos,
          ap epoch e ∙ div-at (2 ^ bits) (suc (epoch n)) 0 pos,
        )
  ]

  -- The tickets of slot `j` below `n`
  pub drawn : ℕ → ℕ → ℕ
  drawn zero j = 0
  drawn (suc n) j = drawn n j + (if slot_index bits n == j then 1 else 0)

  drawn-formula :
      (n j : ℕ) → j < 2 ^ bits → drawn n j ≡ epoch n + (if ltb j (slot_index bits n) then 1 else 0)
  unfolding drawn
  drawn-formula zero j lt =
      let at_zero : slot_index bits 0 ≡ 0 = slot-mod 0 ∙ mod-eq_of_lt pos in
      rw (at_zero, zero-div (2 ^ bits)) (ground arith)
  drawn-formula (suc n) j lt = elim (next-cases n) [
    | inl (e, q) ↦ rw (q, e) (ground (arith, drawn-formula n j lt))
    | inr (e, f, q) ↦ rw (q, f) (ground (arith, drawn-formula n j lt, e))
  ]

  -- Ticket `i` is the one of its slot that is drawn after those of all the epochs before.
  pub drawn-own : (i : ℕ) → drawn i (slot_index bits i) ≡ epoch i
  drawn-own i = ground (arith, drawn-formula i (slot_index bits i) (slot-lt i))

  pub drawn-suc :
      (n j : ℕ) → drawn (suc n) j ≡ drawn n j + (if slot_index bits n == j then 1 else 0)
  unfolding drawn
  drawn-suc n j = refl

  pub drawn-zero : (j : ℕ) → drawn 0 j ≡ 0
  unfolding drawn
  drawn-zero j = refl

  drawn_mono : (i n j : ℕ) → i ≤ n → drawn i j ≤ drawn n j
  unfolding drawn
  drawn_mono i zero j le = elim (ℕ_discrete i 0) [
    | yes e ↦ omega (arith, ap (λ m. drawn m j) e)
    | no ne ↦ absurd (omega arith)
  ]
  drawn_mono i (suc n) j le = elim (dec_le i n) [
    | yes le' ↦ omega (arith, drawn_mono i n j le')
    | no gt ↦ let e : i ≡ suc n = omega arith in omega (arith, ap (λ m. drawn m j) e)
  ]

  -- A ticket that was drawn counts.
  pub epoch-lt : (i n : ℕ) → i < n → epoch i < drawn n (slot_index bits i)
  epoch-lt i n lt = ground (
    arith,
    drawn_mono (suc i) n (slot_index bits i) lt,
    drawn-suc i (slot_index bits i),
    drawn-own i,
  )

  pub lt-of_epoch : (i n : ℕ) → epoch i < drawn n (slot_index bits i) → i < n
  lt-of_epoch i n lt = elim (dec_lt i n) [
    | yes below ↦ below
    | no above ↦
        absurd (omega (arith, drawn_mono n i (slot_index bits i) (omega arith), drawn-own i))
  ]

  -- The ticket of a slot in an epoch
  pub ticket_at : ℕ → ℕ → ℕ
  ticket_at slot e = 2 ^ bits * e + slot

  pub slot-ticket_at :
      (i e : ℕ) → slot_index bits (ticket_at (slot_index bits i) e) ≡ slot_index bits i
  unfolding ticket_at
  slot-ticket_at i e =
      slot-mod (ticket_at (slot_index bits i) e)
      ∙ mod-at (2 ^ bits) e (slot_index bits i) (slot-lt i)

  pub epoch-ticket_at : (i e : ℕ) → epoch (ticket_at (slot_index bits i) e) ≡ e
  unfolding ticket_at
  epoch-ticket_at i e = div-at (2 ^ bits) e (slot_index bits i) (slot-lt i)

  pub ticket_at-le : (i e : ℕ) → e ≤ epoch i → ticket_at (slot_index bits i) e ≤ i
  unfolding ticket_at
  ticket_at-le i e le = omega (arith, whole i, mul-le-mul_left (2 ^ bits) le)

  pub ticket_at-lt : (i e : ℕ) → suc e ≤ epoch i → ticket_at (slot_index bits i) e + 2 ^ bits ≤ i
  unfolding ticket_at
  ticket_at-lt i e le = omega (arith, whole i, mul-le-mul_left (2 ^ bits) le)

  -- Two tickets of a slot are a whole round apart.
  pub far : (t u : ℕ) → slot_index bits t ≡ slot_index bits u → epoch t < epoch u → t + 2 ^ bits ≤ u
  unfolding ticket_at
  far t u slots lt = omega (arith, whole t, slots, ticket_at-lt u (epoch t) lt)

  -- The ticket a whole round later
  pub next_round-slot :
      (t : ℕ)
      → (slot_index bits (t + 2 ^ bits) ≡ slot_index bits t)
        × (epoch (t + 2 ^ bits) ≡ suc (epoch t))
  next_round-slot t =
      let e : t + 2 ^ bits ≡ 2 ^ bits * suc (epoch t) + slot_index bits t =
        omega (arith, whole t) in
      (
        slot-mod (t + 2 ^ bits)
            ∙ ap (λ u. u % 2 ^ bits) e
            ∙ mod-at (2 ^ bits) (suc (epoch t)) (slot_index bits t) (slot-lt t),
        ap epoch e ∙ div-at (2 ^ bits) (suc (epoch t)) (slot_index bits t) (slot-lt t),
      )

  -- The first ticket of the next round
  pub round-start : (t : ℕ) → slot_index bits (t + 2 ^ bits - slot_index bits t) ≡ 0
  round-start t =
      let e : t + 2 ^ bits - slot_index bits t ≡ 2 ^ bits * suc (epoch t) + 0 =
        omega (arith, whole t) in
      slot-mod (t + 2 ^ bits - slot_index bits t)
      ∙ ap (λ u. u % 2 ^ bits) e
      ∙ mod-at (2 ^ bits) (suc (epoch t)) 0 pos
