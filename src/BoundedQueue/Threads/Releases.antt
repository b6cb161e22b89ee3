-- ===== src/BoundedQueue/Threads/Releases.antt =====
-- A write to the value of a slot, and a new version of it, keep the invariant.
use fuxi_n.Prelude.{
  moved, ℕ, suc, ◌+◌, ◌-◌, ◌*◌, ◌/◌, ◌%◌, ◌^◌, ◌≤◌, ◌<◌, ◌≡◌, ◌≢◌, ap, ◌∙◌, refl, u16_mod, Array,
  update, update_self, update-ne, total, total-update, some, ==_ne, ==_refl, sym, arith,
}
use mathlib.Core.Path.{subst}
use native.Mathlib.Decide.{ℕ_discrete}
use fuxi_n.BoundedQueue.{push_side, slot_index, expected_version}
use fuxi_n.BoundedQueue.Tickets.{epoch, drawn}
use fuxi_n.BoundedQueue.Threads.{
  Op, pushes, pops, side, Stage, Pc, idle, dealing, Memory, write, set_version, log_received,
}
use fuxi_n.BoundedQueue.Threads.Defs.{phase, Holds, holds, Good, IsTurn, Inv}
use fuxi_n.BoundedQueue.Threads.Locals.{held-lt, same_turn, Good-write, Good-release}
use fuxi_n.BoundedQueue.Threads.Turns.{side-le}
use fuxi_n.BoundedQueue.Threads.Frames.{unique-keeps, holder-keeps}

module _ {A : Type 0} {bits n k : ℕ} {m : Memory A} {pc : Array (Pc A)} (inv : Inv bits n k m pc)
    (a : ℕ) (lt : a < n) where
  -- The thread is at its turn with ticket `i`.
  module _ (op : Op A) (i : ℕ) (st : Stage A) (here : pc a ≡ dealing op i st)
      (turn : IsTurn bits m op i) where
    mine : Holds bits (pc a) (side op) i
    mine = rw here (refl, refl)

    held : (s j : ℕ) → Holds bits (pc a) s j → Holds bits (dealing op i st) s j
    held s j = subst (λ q. Holds bits q s j) here

    below : i < m.next_index (side op)
    below = held-lt bits m (pc a) (side op) i mine (inv.good a)

    others : (b : ℕ) → b ≢ a → Holds bits (pc b) (side op) i → ⊥
    others b ne h = ne (inv.unique b a (side op) i h mine)

    pub Inv-write :
        (v : A) (st' : Stage A)
        → side op ≡ push_side
        → Good bits (write m (slot_index bits i) v) (dealing op i st')
        → Inv bits n (suc k) (write m (slot_index bits i) v) (update pc a (dealing op i st'))
    Inv-write v st' push own = record {
      few = inv.few;
      early = λ s. omega (arith, inv.early s);
      stored = inv.stored;
      count = λ s j s_le j_lt. omega (
        arith,
        total-update (holds bits s j) n pc a (dealing op i st') lt,
        ap (holds bits s j) here,
        inv.count s j s_le j_lt,
      );
      unique = unique-keeps inv a lt (dealing op i st') (λ s j h. rw here h);
      covered = λ s j s_le j_lt turn_le.
          holder-keeps inv a lt (dealing op i st') s j (held s j)
            (inv.covered s j s_le j_lt turn_le);
      good = λ b.
          moved (Good bits (write m (slot_index bits i) v)) pc a (dealing op i st') b (λ _. own)
            (λ ne. Good-write bits m op i turn v (pc b) (others b ne) (inv.good b));
      kept = λ j odd.
          inv.kept j odd
          ∙ ap some (
              sym (
                update-ne m.value (slot_index bits i) v (slot_index bits j)
                  (λ e. omega (arith, odd, turn, push, ap (λ t. m.turns t) e))));
      fresh = inv.fresh;
      fifo = inv.fifo;
    }

    module _ (x : A) (value : m.value (slot_index bits i) ≡ x) (sent : m.sent i ≡ some x) where
      abbrev released : Memory A
      released = set_version m op i (slot_index bits i) (expected_version bits (side op) i + 1) x

      turns-at : (j : ℕ) → j ≡ slot_index bits i → released.turns j ≡ phase bits op i + 1
      turns-at j e =
          ap (λ t. released.turns t) e
          ∙ update_self m.turns (slot_index bits i) (m.turns (slot_index bits i) + 1)
          ∙ ap (λ t. t + 1) turn

      turns-off : (j : ℕ) → j ≢ slot_index bits i → released.turns j ≡ m.turns j
      turns-off j ne = update-ne m.turns (slot_index bits i) (m.turns (slot_index bits i) + 1) j ne

      turns-grow : (j : ℕ) → m.turns j ≤ released.turns j
      turns-grow j = elim (ℕ_discrete j (slot_index bits i)) [
        | yes e ↦ omega (arith, turns-at j e, turn, ap (λ t. m.turns t) e)
        | no ne ↦ omega (arith, turns-off j ne)
      ]

      held-at : (s j : ℕ) → s ≡ side op → j ≡ slot_index bits i → holds bits s j (pc a) ≡ 1
      held-at s j es ej =
          ap (holds bits s j) here
          ∙ rw (es, ej, ==_refl (side op), ==_refl (slot_index bits i)) refl

      held-off_side : (s j : ℕ) → s ≢ side op → holds bits s j (pc a) ≡ 0
      held-off_side s j ne =
          ap (holds bits s j) here ∙ rw (==_ne (side op) s (λ e. ne (sym e))) refl

      held-off_slot : (s j : ℕ) → j ≢ slot_index bits i → holds bits s j (pc a) ≡ 0
      held-off_slot s j ne =
          ap (holds bits s j) here
          ∙ rw (==_ne (slot_index bits i) j (λ e. ne (sym e))) (ground arith)

      release-stored : (j : ℕ) → released.version j ≡ released.turns j % u16_mod
      release-stored j = elim (ℕ_discrete j (slot_index bits i)) [
        | yes e ↦
            ap (λ t. released.version t) e
            ∙ update_self m.version (slot_index bits i)
                ((expected_version bits (side op) i + 1) % u16_mod)
            ∙ omega (arith, turns-at j e)
        | no ne ↦
            update-ne m.version (slot_index bits i)
              ((expected_version bits (side op) i + 1) % u16_mod) j ne
            ∙ inv.stored j
            ∙ ap (λ t. t % u16_mod) (sym (turns-off j ne))
      ]

      release-count :
          (s j : ℕ)
          → s ≤ 1
          → j < 2 ^ bits
          → total (holds bits s j) n (update pc a idle) + (released.turns j + 1 - s) / 2
            ≡ drawn bits (m.next_index s) j
      release-count s j s_le j_lt = elim (ℕ_discrete j (slot_index bits i)) [
        | yes e ↦
            let before = inv.count s j s_le j_lt in
            let after = total-update (holds bits s j) n pc a idle lt in
            elim (ℕ_discrete s (side op)) [
              | yes es ↦ omega (
                arith,
                before,
                after,
                turns-at j e,
                turn,
                ap (λ t. m.turns t) e,
                held-at s j es e,
                es,
              )
              | no ne ↦ omega (
                arith,
                before,
                after,
                turns-at j e,
                turn,
                ap (λ t. m.turns t) e,
                held-off_side s j ne,
                side-le op,
              )
            ]
        | no ne ↦ omega (
          arith,
          inv.count s j s_le j_lt,
          total-update (holds bits s j) n pc a idle lt,
          turns-off j ne,
          held-off_slot s j ne,
        )
      ]

      release-kept :
          (j : ℕ)
          → released.turns (slot_index bits j) ≡ 2 * epoch bits j + 1
          → m.sent j ≡ some (m.value (slot_index bits j))
      release-kept j odd = elim (ℕ_discrete (slot_index bits j) (slot_index bits i)) [
        | yes e ↦
            let (es, ji) =
              same_turn bits m op (pushes x) i j (sym e)
                (omega (arith, odd, turns-at (slot_index bits j) e, side-le op)) in
            ap (λ t. m.sent t) ji ∙ sent ∙ ap some (sym value ∙ ap (λ t. m.value t) (sym e))
        | no ne ↦ inv.kept j (sym (turns-off (slot_index bits j) ne) ∙ odd)
      ]

      release-covered :
          (s j : ℕ)
          → s ≤ 1
          → j < m.next_index s
          → released.turns (slot_index bits j) ≤ 2 * epoch bits j + s
          → (b : ℕ) × Holds bits (update pc a idle b) s j
      release-covered s j s_le j_lt turn_le =
          holder-keeps inv a lt idle s j
            (λ h.
              let (es, ei) = held s j h in
              omega (
                arith,
                turn_le,
                turns-at (slot_index bits j) (ap (slot_index bits) (sym ei)),
                ap (epoch bits) ei,
                es,
              ))
            (inv.covered s j s_le j_lt (omega (arith, turns-grow (slot_index bits j), turn_le)))

      release-fifo :
          (op : Op A) (j : ℕ) (y : A)
          → log_received op i x m.received j ≡ some y
          → m.sent j ≡ some y
      release-fifo (pushes v) j y e = inv.fifo j y e
      release-fifo pops j y e = elim (ℕ_discrete j i) [
        | yes ji ↦
            ap (λ t. m.sent t) ji
            ∙ sent
            ∙ sym (update_self m.received i (some x))
            ∙ ap (update m.received i (some x)) (sym ji)
            ∙ e
        | no ne ↦ inv.fifo j y (sym (update-ne m.received i (some x) j ne) ∙ e)
      ]

      pub Inv-release : Inv bits n (suc k) released (update pc a idle)
      Inv-release = record {
        few = inv.few;
        early = λ s. omega (arith, inv.early s);
        stored = release-stored;
        count = release-count;
        unique = unique-keeps inv a lt idle (λ s j h. absurd h);
        covered = release-covered;
        good = λ b.
            moved (Good bits released) pc a idle b (λ _. tt)
              (λ ne.
                Good-release bits m op i turn below (expected_version bits (side op) i + 1) x (pc b)
                  (others b ne) (inv.good b));
        kept = release-kept;
        fresh = inv.fresh;
        fifo = release-fifo op;
      }
