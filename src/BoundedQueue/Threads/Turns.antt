-- ===== src/BoundedQueue/Threads/Turns.antt =====
-- A version that a thread expects is the one of its own turn, although it has 16 bits.
use fuxi_n.Prelude.{
  ap, ◌∙◌, ℕ, ◌+◌, ◌-◌, ◌*◌, ◌/◌, ◌%◌, ◌^◌, ◌≤◌, ◌<◌, ◌≡◌, u16_mod, Array, total, total-le, ◌==◌,
  ◌&&◌, if◌then◌else◌, Bool, sym, arith,
}
use fuxi_n.BoundedQueue.{slot_index, expected_version}
use fuxi_n.BoundedQueue.Tickets.{epoch, drawn, slot-lt, epoch-lt, drawn-own}
use fuxi_n.BoundedQueue.Threads.{Op, pushes, pops, side, Pc, idle, dealing, trying, Memory}
use fuxi_n.BoundedQueue.Threads.Defs.{phase, holds, Inv}

pub side-le : {A : Type 0} (op : Op A) → side op ≤ 1
side-le (pushes v) = omega arith
side-le pops = omega arith

one_of : (b : Bool) → (if b then 1 else 0) ≤ 1
one_of b = ground arith

holds-le : {A : Type 0} (bits s j : ℕ) (p : Pc A) → holds bits s j p ≤ 1
holds-le bits s j idle = omega arith
holds-le bits s j (dealing op i st) = one_of ((side op == s) && (slot_index bits i == j))
holds-le bits s j (trying op i st) = omega arith

-- `turn` versions were set, and `held` tickets of the slot and the side are held.
version-turn :
    (turn held n e s : ℕ)
    → n < 2 ^ 15
    → held ≤ n
    → s ≤ 1
    → e ≤ held + (turn + 1 - s) / 2
    → turn ≤ 2 * e + s
    → turn % u16_mod ≡ (e * 2 % u16_mod + s) % u16_mod
    → turn ≡ 2 * e + s
version-turn turn held n e s few held-le small drawn_lt turn_le same = omega arith

module _ {A : Type 0} {bits n k : ℕ} {m : Memory A} {pc : Array (Pc A)} (inv : Inv bits n k m pc)
    (op : Op A) (i : ℕ) where
  matched :
      epoch bits i ≤ drawn bits (m.next_index (side op)) (slot_index bits i)
      → m.turns (slot_index bits i) ≤ phase bits op i
      → m.version (slot_index bits i) ≡ expected_version bits (side op) i
      → m.turns (slot_index bits i) ≡ phase bits op i
  matched below turn_le same =
      version-turn (m.turns (slot_index bits i))
        (total (holds bits (side op) (slot_index bits i)) n pc) n (epoch bits i) (side op) inv.few
        (total-le (holds bits (side op) (slot_index bits i))
          (holds-le bits (side op) (slot_index bits i)) n pc)
        (side-le op)
        (omega (arith, inv.count (side op) (slot_index bits i) (side-le op) (slot-lt bits i)))
        turn_le (sym (inv.stored (slot_index bits i)) ∙ same)

  -- A ticket that was drawn
  pub drawn-turn :
      i < m.next_index (side op)
      → m.turns (slot_index bits i) ≤ phase bits op i
      → m.version (slot_index bits i) ≡ expected_version bits (side op) i
      → m.turns (slot_index bits i) ≡ phase bits op i
  drawn-turn lt = matched (omega (arith, epoch-lt bits i (m.next_index (side op)) lt))

  pub next-turn-le : m.next_index (side op) ≡ i → m.turns (slot_index bits i) ≤ phase bits op i
  next-turn-le e = omega (
    arith,
    inv.count (side op) (slot_index bits i) (side-le op) (slot-lt bits i),
    drawn-own bits i,
    ap (λ t. drawn bits t (slot_index bits i)) e,
    side-le op,
  )

  -- The next ticket
  pub next-turn :
      m.next_index (side op) ≡ i
      → m.version (slot_index bits i) ≡ expected_version bits (side op) i
      → m.turns (slot_index bits i) ≡ phase bits op i
  next-turn e =
      matched (omega (arith, drawn-own bits i, ap (λ t. drawn bits t (slot_index bits i)) e))
        (next-turn-le e)
