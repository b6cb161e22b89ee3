-- ===== src/BoundedQueue/Threads/Locals.antt =====
-- What a change of the memory by one thread leaves true of the locals of another.
use fuxi_n.Prelude.{
  ℕ, suc, ◌+◌, ◌%◌, ◌≤◌, ◌<◌, ◌≡◌, ◌≢◌, ap, ◌∙◌, refl, u64_mod, update_self, update-ne, none, some,
  sym, arith,
}
use native.Mathlib.Nat.{mod-eq_of_lt}
use native.Mathlib.Decide.{ℕ_discrete}
use fuxi_n.BoundedQueue.{push_side, slot_index}
use fuxi_n.BoundedQueue.Tickets.{ticket-injective}
use fuxi_n.BoundedQueue.Threads.{
  Op, pushes, pops, side, Stage, waiting, ready, after, Trial, loaded, missed, checked, Pc, idle,
  dealing, trying, Memory, draw, write, set_version, log_sent,
}
use fuxi_n.BoundedQueue.Threads.Defs.{phase, Holds, Good, Asked, IsTurn, AtStage, AtTrial}
use fuxi_n.BoundedQueue.Threads.Turns.{side-le}

module _ {A : Type 0} (bits : ℕ) (m : Memory A) where
  pub held-lt : (q : Pc A) (s i : ℕ) → Holds bits q s i → Good bits m q → i < m.next_index s
  held-lt idle s i h g = elim h [ ]
  held-lt (trying oq j st) s i h g = elim h [ ]
  held-lt (dealing op j st) s i (es, ei) (lt, asked, at) =
      omega (arith, ap (λ t. m.next_index t) es, lt, ei)

  pub turn-of_deal :
      (op : Op A) (i : ℕ) (st : Stage A)
      → AtStage bits m op i st
      → m.turns (slot_index bits i) ≤ phase bits op i
  turn-of_deal op i waiting le = le
  turn-of_deal op i ready e = omega (arith, e)
  turn-of_deal op i (after x) (e, v, s) = omega (arith, e)

  -- Two tickets with the same slot and the same turn are one.
  pub same_turn :
      (op oq : Op A) (i j : ℕ)
      → slot_index bits i ≡ slot_index bits j
      → phase bits op i ≡ phase bits oq j
      → (side oq ≡ side op) × (j ≡ i)
  same_turn op oq i j slots phases = (
    omega (arith, phases, side-le op, side-le oq),
    sym (ticket-injective bits i j slots (omega (arith, phases, side-le op, side-le oq))),
  )

  -- A push draws its ticket for the first time, so what was sent for the others stays.
  pub log_sent-stays :
      (op : Op A) (i : ℕ)
      → (side op ≡ push_side → m.sent i ≡ none)
      → (j : ℕ) (x : A) → m.sent j ≡ some x
      → log_sent op i m.sent j ≡ some x
  log_sent-stays (pushes v) i first j x e = elim (ℕ_discrete j i) [
    | yes ji ↦ absurd (cc (e, first refl, ap (λ t. m.sent t) ji))
    | no ne ↦ update-ne m.sent i (some v) j ne ∙ e
  ]
  log_sent-stays pops i first j x e = e

  pub log_sent-fresh :
      (op : Op A) (i j : ℕ)
      → m.sent j ≡ none
      → (side op ≡ push_side → j ≢ i)
      → log_sent op i m.sent j ≡ none
  log_sent-fresh (pushes v) i j e ne = update-ne m.sent i (some v) j (ne refl) ∙ e
  log_sent-fresh pops i j e ne = e

  module _ (op : Op A) (i : ℕ) (first : side op ≡ push_side → m.sent i ≡ none)
      (next : m.next_index (side op) ≡ i) (small : suc i < u64_mod) where
    pub draw-next : (draw m op i).next_index (side op) ≡ suc i
    draw-next =
        update_self m.next_index (side op) ((i + 1) % u64_mod)
        ∙ mod-eq_of_lt (omega (arith, small))
        ∙ omega arith

    pub draw-other : (s : ℕ) → s ≢ side op → (draw m op i).next_index s ≡ m.next_index s
    draw-other s ne = update-ne m.next_index (side op) ((i + 1) % u64_mod) s ne

    pub next-grows : (s : ℕ) → m.next_index s ≤ (draw m op i).next_index s
    next-grows s = elim (ℕ_discrete s (side op)) [
      | yes e ↦ omega (
        arith,
        ap (λ t. (draw m op i).next_index t) e,
        ap (λ t. m.next_index t) e,
        draw-next,
        next,
      )
      | no ne ↦ omega (arith, draw-other s ne)
    ]

    Asked-draw : (oq : Op A) (j : ℕ) → Asked bits m oq j → Asked bits (draw m op i) oq j
    Asked-draw (pushes v) j e = log_sent-stays op i first j v e
    Asked-draw pops j e = e

    AtStage-draw :
        (oq : Op A) (j : ℕ) (st : Stage A)
        → AtStage bits m oq j st
        → AtStage bits (draw m op i) oq j st
    AtStage-draw oq j waiting h = h
    AtStage-draw oq j ready h = h
    AtStage-draw oq j (after x) (t, v, s) = (t, v, log_sent-stays op i first j x s)

    AtTrial-draw :
        (oq : Op A) (j : ℕ) (st : Trial)
        → j ≤ m.next_index (side oq)
        → AtTrial bits m oq j st
        → AtTrial bits (draw m op i) oq j st
    AtTrial-draw oq j checked le h = λ at. elim (ℕ_discrete (side oq) (side op)) [
      | yes same ↦
          let e : (draw m op i).next_index (side oq) ≡ suc i =
            ap (λ t. (draw m op i).next_index t) same ∙ draw-next in
          absurd (omega (arith, e, at, ap (λ t. m.next_index t) same, le, next))
      | no ne ↦ h (sym (draw-other (side oq) ne) ∙ at)
    ]
    AtTrial-draw oq j missed le h = h
    AtTrial-draw oq j loaded le h = h

    pub Good-draw : (q : Pc A) → Good bits m q → Good bits (draw m op i) q
    Good-draw idle g = tt
    Good-draw (dealing oq j st) (lt, asked, at) =
        (omega (arith, lt, next-grows (side oq)), Asked-draw oq j asked, AtStage-draw oq j st at)
    Good-draw (trying oq j st) (le, at) =
        (omega (arith, le, next-grows (side oq)), AtTrial-draw oq j st le at)

  -- Another thread has ticket `i` of `op` and its turn is there.
  module _ (op : Op A) (i : ℕ) (turn : IsTurn bits m op i) where
    apart :
        (oq : Op A) (j : ℕ) (st : Stage A)
        → (Holds bits (dealing oq j st) (side op) i → ⊥)
        → IsTurn bits m oq j
        → slot_index bits j ≢ slot_index bits i
    apart oq j st other at e =
        other (same_turn op oq i j (sym e) (sym turn ∙ ap (λ t. m.turns t) (sym e) ∙ at))

    AtStage-write :
        (v : A) (oq : Op A) (j : ℕ) (st : Stage A)
        → (Holds bits (dealing oq j st) (side op) i → ⊥)
        → AtStage bits m oq j st
        → AtStage bits (write m (slot_index bits i) v) oq j st
    AtStage-write v oq j waiting other h = h
    AtStage-write v oq j ready other h = h
    AtStage-write v oq j (after x) other (t, e, s) = (
      t,
      update-ne m.value (slot_index bits i) v (slot_index bits j) (apart oq j (after x) other t)
          ∙ e,
      s,
    )

    Asked-write :
        (v : A) (oq : Op A) (j : ℕ)
        → Asked bits m oq j
        → Asked bits (write m (slot_index bits i) v) oq j
    Asked-write v (pushes u) j h = h
    Asked-write v pops j h = h

    AtTrial-write :
        (v : A) (oq : Op A) (j : ℕ) (st : Trial)
        → AtTrial bits m oq j st
        → AtTrial bits (write m (slot_index bits i) v) oq j st
    AtTrial-write v oq j checked h = h
    AtTrial-write v oq j missed h = h
    AtTrial-write v oq j loaded h = h

    pub Good-write :
        (v : A) (q : Pc A)
        → (Holds bits q (side op) i → ⊥)
        → Good bits m q
        → Good bits (write m (slot_index bits i) v) q
    Good-write v idle other g = tt
    Good-write v (dealing oq j st) other (lt, asked, at) =
        (lt, Asked-write v oq j asked, AtStage-write v oq j st other at)
    Good-write v (trying oq j st) other (le, at) = (le, AtTrial-write v oq j st at)

    module _ (lt : i < m.next_index (side op)) (version : ℕ) (x : A) where
      abbrev released : Memory A
      released = set_version m op i (slot_index bits i) version x

      turns-other :
          (j : ℕ)
          → slot_index bits j ≢ slot_index bits i
          → released.turns (slot_index bits j) ≡ m.turns (slot_index bits j)
      turns-other j ne =
          update-ne m.turns (slot_index bits i) (m.turns (slot_index bits i) + 1)
            (slot_index bits j) ne

      turns-same :
          (j : ℕ)
          → slot_index bits j ≡ slot_index bits i
          → released.turns (slot_index bits j) ≡ phase bits op i + 1
      turns-same j e =
          ap (λ t. released.turns t) e
          ∙ update_self m.turns (slot_index bits i) (m.turns (slot_index bits i) + 1)
          ∙ ap (λ t. t + 1) turn

      IsTurn-release :
          (oq : Op A) (j : ℕ) (st : Stage A)
          → (Holds bits (dealing oq j st) (side op) i → ⊥)
          → IsTurn bits m oq j
          → IsTurn bits released oq j
      IsTurn-release oq j st other at = turns-other j (apart oq j st other at) ∙ at

      AtStage-release :
          (oq : Op A) (j : ℕ) (st : Stage A)
          → (Holds bits (dealing oq j st) (side op) i → ⊥)
          → AtStage bits m oq j st
          → AtStage bits released oq j st
      AtStage-release oq j waiting other h =
          elim (ℕ_discrete (slot_index bits j) (slot_index bits i)) [
            | yes e ↦
                let ne : m.turns (slot_index bits j) ≢ phase bits oq j =
                  (λ at. apart oq j waiting other at e) in
                omega (arith, turns-same j e, ne, h, turn, ap (λ t. m.turns t) e)
            | no ne ↦ omega (arith, turns-other j ne, h)
          ]
      AtStage-release oq j ready other h = IsTurn-release oq j ready other h
      AtStage-release oq j (after y) other (t, e, s) = (IsTurn-release oq j (after y) other t, e, s)

      Asked-release : (oq : Op A) (j : ℕ) → Asked bits m oq j → Asked bits released oq j
      Asked-release (pushes u) j h = h
      Asked-release pops j h = h

      AtTrial-release :
          (oq : Op A) (j : ℕ) (st : Trial) → AtTrial bits m oq j st → AtTrial bits released oq j st
      AtTrial-release oq j checked h = λ next.
          turns-other j (λ e.
            let (es, ei) =
              same_turn op oq i j (sym e) (sym turn ∙ ap (λ t. m.turns t) (sym e) ∙ h next) in
            omega (arith, lt, next, ap (λ t. m.next_index t) es, ei))
          ∙ h next
      AtTrial-release oq j missed h = h
      AtTrial-release oq j loaded h = h

      pub Good-release :
          (q : Pc A) → (Holds bits q (side op) i → ⊥) → Good bits m q → Good bits released q
      Good-release idle other g = tt
      Good-release (dealing oq j st) other (below, asked, at) =
          (below, Asked-release oq j asked, AtStage-release oq j st other at)
      Good-release (trying oq j st) other (le, at) = (le, AtTrial-release oq j st at)
