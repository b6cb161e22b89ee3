-- ===== src/BoundedQueue/Threads/Draws.antt =====
-- A draw of a ticket, by fetch_add or by compare-and-swap, keeps the invariant.
use fuxi_n.Prelude.{
  moved, ℕ, suc, ◌⊎◌, inl, inr, ◌+◌, ◌-◌, ◌*◌, ◌/◌, ◌^◌, ◌≤◌, ◌<◌, ◌≡◌, ap, ◌∙◌, refl, u64_mod,
  Array, update, total, total-update, none, some, ◌==◌, if◌then◌else◌, ==_ne, ==_refl, sym, arith,
}
use native.Mathlib.Decide.{ℕ_discrete, dec_lt}
use fuxi_n.BoundedQueue.{push_side, slot_index}
use fuxi_n.BoundedQueue.Tickets.{epoch, drawn, drawn-suc}
use fuxi_n.BoundedQueue.Threads.{Op, side, Stage, Pc, idle, dealing, trying, Memory, draw}
use fuxi_n.BoundedQueue.Threads.Defs.{phase, Holds, holds, Good, Inv}
use fuxi_n.BoundedQueue.Threads.Locals.{
  held-lt, log_sent-stays, log_sent-fresh, draw-next, draw-other, next-grows, Good-draw,
}
use fuxi_n.BoundedQueue.Threads.Turns.{next-turn-le}
use fuxi_n.BoundedQueue.Threads.Frames.{holder-keeps}

module _ {A : Type 0} {bits n k : ℕ} {m : Memory A} {pc : Array (Pc A)} (inv : Inv bits n k m pc)
    (a : ℕ) (lt : a < n) where
  -- The thread held no ticket and drew the next one of its side.
  module _ (op : Op A) (i : ℕ) (next : m.next_index (side op) ≡ i) (small : suc k < u64_mod)
      (st : Stage A) (none_held : (s j : ℕ) → holds bits s j (pc a) ≡ 0) where
    first : side op ≡ push_side → m.sent i ≡ none
    first e = inv.fresh i (omega (arith, ap (λ s. m.next_index s) e, next))

    small_index : suc i < u64_mod
    small_index = omega (arith, inv.early (side op), next, small)

    stays : (j : ℕ) (x : A) → m.sent j ≡ some x → (draw m op i).sent j ≡ some x
    stays = log_sent-stays bits m op i first

    own_turn : m.turns (slot_index bits i) ≤ phase bits op i
    own_turn = next-turn-le inv op i next

    draw-early : (s : ℕ) → (draw m op i).next_index s ≤ suc k
    draw-early s = elim (ℕ_discrete s (side op)) [
      | yes e ↦ omega (
        arith,
        ap (λ t. (draw m op i).next_index t) e,
        draw-next bits m op i first next small_index,
        inv.early (side op),
        next,
      )
      | no ne ↦ omega (arith, draw-other bits m op i first next small_index s ne, inv.early s)
    ]

    draw-count :
        (s j : ℕ)
        → s ≤ 1
        → j < 2 ^ bits
        → total (holds bits s j) n (update pc a (dealing op i st)) + (m.turns j + 1 - s) / 2
          ≡ drawn bits ((draw m op i).next_index s) j
    draw-count s j s_le j_lt = elim (ℕ_discrete s (side op)) [
      | yes e ↦
          let here : holds bits s j (dealing op i st) ≡ (if slot_index bits i == j then 1 else 0) =
            rw (e, ==_refl (side op)) refl in
          let there : (draw m op i).next_index s ≡ suc i =
            ap (λ t. (draw m op i).next_index t) e ∙ draw-next bits m op i first next small_index in
          rw there (
            omega (
              arith,
              total-update (holds bits s j) n pc a (dealing op i st) lt,
              none_held s j,
              here,
              inv.count s j s_le j_lt,
              drawn-suc bits i j,
              ap (λ t. drawn bits t j) (ap (λ t. m.next_index t) e ∙ next),
            ))
      | no ne ↦
          let here : holds bits s j (dealing op i st) ≡ 0 =
            rw (==_ne (side op) s (λ e. ne (sym e))) refl in
          rw (draw-other bits m op i first next small_index s ne) (
            omega (
              arith,
              total-update (holds bits s j) n pc a (dealing op i st) lt,
              none_held s j,
              here,
              inv.count s j s_le j_lt,
            ))
    ]

    new_ticket : (b : ℕ) → Holds bits (pc b) (side op) i → ⊥
    new_ticket b h = omega (arith, held-lt bits m (pc b) (side op) i h (inv.good b), next)

    -- A thread that holds a ticket after the draw is the one that drew it, or held it before.
    draw-holder :
        (b s j : ℕ)
        → Holds bits (update pc a (dealing op i st) b) s j
        → ((b ≡ a) × (side op ≡ s) × (i ≡ j)) ⊎ Holds bits (pc b) s j
    draw-holder b s j =
        moved (λ q. Holds bits q s j → ((b ≡ a) × (side op ≡ s) × (i ≡ j)) ⊎ Holds bits (pc b) s j)
          pc a (dealing op i st) b (λ e h. inl (e, h.0, h.1)) (λ ne h. inr h)

    draw_unique :
        (b c s j : ℕ)
        → Holds bits (update pc a (dealing op i st) b) s j
        → Holds bits (update pc a (dealing op i st) c) s j
        → b ≡ c
    draw_unique b c s j hb hc = elim (draw-holder b s j hb) [
      | inl (eb, es, ei) ↦ elim (draw-holder c s j hc) [
        | inl (ec, _, _) ↦ eb ∙ sym ec
        | inr old ↦ absurd (new_ticket c (rw (es, ei) old))
      ]
      | inr old ↦ elim (draw-holder c s j hc) [
        | inl (ec, es, ei) ↦ absurd (new_ticket b (rw (es, ei) old))
        | inr old' ↦ inv.unique b c s j old old'
      ]
    ]

    nothing_held : (s j : ℕ) → Holds bits (pc a) s j → ⊥
    nothing_held s j h = nothing (pc a) none_held s j h
      where
        nothing : (q : Pc A) → ((s j : ℕ) → holds bits s j q ≡ 0) → (s j : ℕ) → Holds bits q s j → ⊥
        nothing idle e s j h = h
        nothing (trying oq l tr) e s j h = h
        nothing (dealing oq l sg) e s j h =
            let one : holds bits (side oq) (slot_index bits l) (dealing oq l sg) ≡ 1 =
              rw (==_refl (side oq), ==_refl (slot_index bits l)) refl in
            omega (arith, one, e (side oq) (slot_index bits l))

    draw-covered :
        (s j : ℕ)
        → s ≤ 1
        → j < (draw m op i).next_index s
        → m.turns (slot_index bits j) ≤ 2 * epoch bits j + s
        → (b : ℕ) × Holds bits (update pc a (dealing op i st) b) s j
    draw-covered s j s_le j_lt turn_le = elim (dec_lt j (m.next_index s)) [
      | yes old ↦
          holder-keeps inv a lt (dealing op i st) s j (λ h. absurd (nothing_held s j h))
            (inv.covered s j s_le old turn_le)
      | no new ↦ elim (ℕ_discrete s (side op)) [
        | yes e ↦ (
          a,
          moved (λ q. Holds bits q s j) pc a (dealing op i st) a
              (λ _. (
                sym e,
                omega (
                  arith,
                  new,
                  j_lt,
                  ap (λ t. (draw m op i).next_index t) e,
                  draw-next bits m op i first next small_index,
                  ap (λ t. m.next_index t) e,
                  next,
                ),
              ))
              (λ ne. absurd (ne refl)),
        )
        | no ne ↦
            absurd (omega (arith, new, j_lt, draw-other bits m op i first next small_index s ne))
      ]
    ]

    draw-fresh : (j : ℕ) → (draw m op i).next_index push_side ≤ j → (draw m op i).sent j ≡ none
    draw-fresh j le =
        log_sent-fresh bits m op i j
          (inv.fresh j (omega (arith, le, next-grows bits m op i first next small_index push_side)))
          (λ e ji. omega (
            arith,
            le,
            ji,
            ap (λ t. (draw m op i).next_index t) e,
            draw-next bits m op i first next small_index,
          ))

    pub Inv-draw :
        Good bits (draw m op i) (dealing op i st)
        → Inv bits n (suc k) (draw m op i) (update pc a (dealing op i st))
    Inv-draw own = record {
      few = inv.few;
      early = draw-early;
      stored = inv.stored;
      count = draw-count;
      unique = draw_unique;
      covered = draw-covered;
      good = λ b.
          moved (Good bits (draw m op i)) pc a (dealing op i st) b (λ _. own)
            (λ _. Good-draw bits m op i first next small_index (pc b) (inv.good b));
      kept = λ j turn. stays j (m.value (slot_index bits j)) (inv.kept j turn);
      fresh = draw-fresh;
      fifo = λ j x e. stays j x (inv.fifo j x e);
    }
