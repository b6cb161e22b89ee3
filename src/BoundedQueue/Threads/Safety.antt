-- ===== src/BoundedQueue/Threads/Safety.antt =====
-- What threads that push and pop at once may rely on.
use fuxi_n.Prelude.{
  ℕ, ◌+◌, ◌*◌, ◌/◌, ◌%◌, ◌^◌, ◌≤◌, ◌<◌, ◌≡◌, ◌≢◌, ◌⊎◌, inl, inr, ap, ◌∙◌, refl, u16_mod, u64_mod,
  some, sym, arith,
}
use mathlib.Core.Path.{subst}
use native.Mathlib.Decide.{dec_lt, ℕ_discrete}
use fuxi_n.BoundedQueue.{push_side, pop_side, slot_index, expected_version}
use fuxi_n.BoundedQueue.Tickets.{
  epoch, ticket_at, slot-ticket_at, epoch-ticket_at, ticket_at-le, ticket_at-lt,
}
use fuxi_n.BoundedQueue.Threads.{
  Op, pushes, pops, side, waiting, ready, after, Pc, idle, dealing, trying, Memory, System, Reach,
}
use fuxi_n.BoundedQueue.Threads.Defs.{phase, Holds, Good, IsTurn}
use fuxi_n.BoundedQueue.Threads.Locals.{same_turn}
use fuxi_n.BoundedQueue.Threads.Invariant.{Reach-Inv}

module _ {A : Type 0} (bits : ℕ) where
  -- The thread is between its wait and the new version, at a slot.
  abbrev pub Uses : Pc A → ℕ → Type 0
  Uses (dealing op i ready) slot = slot_index bits i ≡ slot
  Uses (dealing op i (after x)) slot = slot_index bits i ≡ slot
  Uses _ slot = ⊥

  -- The next access of the thread, which holds a ticket, does not find that it must wait.
  abbrev pub CanGo : Memory A → Pc A → Type 0
  CanGo m (dealing op i waiting) = m.version (slot_index bits i) ≡ expected_version bits (side op) i
  CanGo m (dealing op i ready) = Unit
  CanGo m (dealing op i (after x)) = Unit
  CanGo m _ = ⊥

  -- The queue is full at a push, or empty at a pop: no call of the other side has a ticket for it.
  abbrev pub Starved : Memory A → Op A → ℕ → Type 0
  Starved m (pushes v) i = m.next_index pop_side + 2 ^ bits ≤ i
  Starved m pops i = m.next_index push_side ≤ i

  record User (m : Memory A) (q : Pc A) (slot : ℕ) : Type 0 where
    op : Op A
    i : ℕ
    held : Holds bits q (side op) i
    at : slot_index bits i ≡ slot
    turn : IsTurn bits m op i

  Uses-User : (m : Memory A) (q : Pc A) (slot : ℕ) → Uses q slot → Good bits m q → User m q slot
  Uses-User m idle slot u g = elim u [ ]
  Uses-User m (trying op i t) slot u g = elim u [ ]
  Uses-User m (dealing op i waiting) slot u g = elim u [ ]
  Uses-User m (dealing op i ready) slot u g = record {
    op = op;
    i = i;
    held = (refl, refl);
    at = u;
    turn = g.2;
  }
  Uses-User m (dealing op i (after x)) slot u g = record {
    op = op;
    i = i;
    held = (refl, refl);
    at = u;
    turn = g.2.0;
  }

  -- A holder whose turn has come
  holder-CanGo :
      (m : Memory A) (q : Pc A) (s j : ℕ)
      → Holds bits q s j
      → m.version (slot_index bits j) ≡ m.turns (slot_index bits j) % u16_mod
      → m.turns (slot_index bits j) ≡ 2 * epoch bits j + s
      → CanGo m q
  holder-CanGo m idle s j h stored turn = elim h [ ]
  holder-CanGo m (trying op i t) s j h stored turn = elim h [ ]
  holder-CanGo m (dealing op i ready) s j h stored turn = tt
  holder-CanGo m (dealing op i (after x)) s j h stored turn = tt
  holder-CanGo m (dealing op i waiting) s j (es, ei) stored turn =
      omega
        (arith, stored, turn, es, ap (λ t. m.version (slot_index bits t)) ei, ap (epoch bits) ei)

  starved :
      (m : Memory A) (op : Op A) (i s e : ℕ)
      → s ≤ 1
      → i < m.next_index (side op)
      → 2 * e + s ≤ phase bits op i
      → m.next_index s ≤ ticket_at bits (slot_index bits i) e
      → Starved m op i
  starved m (pushes v) i s e s_le lt le undrawn = elim (ℕ_discrete s pop_side) [
    | yes is_pop ↦ omega (
      arith,
      undrawn,
      ap (λ t. m.next_index t) is_pop,
      ticket_at-lt bits i e (omega (arith, le, is_pop)),
    )
    | no ne ↦ absurd (
        omega (
          arith,
          undrawn,
          lt,
          ap (λ t. m.next_index t) (push_of ne),
          ticket_at-le bits i e (omega (arith, le)),
        ))
  ]
    where
      push_of : s ≢ pop_side → s ≡ push_side
      push_of ne = omega (arith, s_le, ne)
  starved m pops i s e s_le lt le undrawn = elim (ℕ_discrete s push_side) [
    | yes is_push ↦ omega (
      arith,
      undrawn,
      ap (λ t. m.next_index t) is_push,
      ticket_at-le bits i e (omega (arith, le)),
    )
    | no ne ↦ absurd (
        omega (
          arith,
          undrawn,
          lt,
          ap (λ t. m.next_index t) (pop_of ne),
          ticket_at-le bits i e (omega (arith, le, s_le, ne)),
        ))
  ]
    where
      pop_of : s ≢ push_side → s ≡ pop_side
      pop_of ne = omega (arith, s_le, ne)

  module _ {n k : ℕ} {a : A} {s : System A} (few : n < 2 ^ 15) (small : k < u64_mod)
      (reach : Reach bits n a k s) where
    -- After any interleaving of less than 2^64 accesses by less than 2^15 threads, what the pop with
    -- ticket `i` gave is what the push with ticket `i` was called with: first in, first out.
    pub received-sent : (i : ℕ) (x : A) → s.mem.received i ≡ some x → s.mem.sent i ≡ some x
    received-sent = (Reach-Inv bits few small reach).fifo

    -- Two threads that use a slot, each between its wait and the new version, are one thread.
    pub slot_unique : (b c slot : ℕ) → Uses (s.pc b) slot → Uses (s.pc c) slot → b ≡ c
    slot_unique b c slot ub uc =
        let inv = Reach-Inv bits few small reach in
        let u = Uses-User s.mem (s.pc b) slot ub (inv.good b) in
        let v = Uses-User s.mem (s.pc c) slot uc (inv.good c) in
        let slots = u.at ∙ sym v.at in
        let (sides, tickets) =
          same_turn bits s.mem u.op v.op u.i v.i slots
            (sym u.turn ∙ ap (λ t. s.mem.turns t) slots ∙ v.turn) in
        inv.unique b c (side u.op) u.i u.held (
          subst (λ t. Holds bits (s.pc c) t u.i) sides
            (subst (λ t. Holds bits (s.pc c) (side v.op) t) tickets v.held))

    -- A thread that waits with a ticket waits for a full or an empty queue alone: otherwise some
    -- thread that holds a ticket can make its next access without a wait.
    pub waiting-Starved :
        (b i : ℕ) (op : Op A)
        → s.pc b ≡ dealing op i waiting
        → Starved s.mem op i ⊎ ((c : ℕ) × CanGo s.mem (s.pc c))
    waiting-Starved b i op here =
        let inv = Reach-Inv bits few small reach in
        let own : Good bits s.mem (dealing op i waiting) =
          subst (Good bits s.mem) here (inv.good b) in
        let turn = s.mem.turns (slot_index bits i) in
        let j = ticket_at bits (slot_index bits i) (turn / 2) in
        let at = ap (λ t. s.mem.turns t) (slot-ticket_at bits i (turn / 2)) in
        let its : s.mem.turns (slot_index bits j) ≡ 2 * epoch bits j + turn % 2 =
          omega (arith, at, epoch-ticket_at bits i (turn / 2)) in
        elim (dec_lt j (s.mem.next_index (turn % 2))) [
          | yes drawn ↦
              let (c, held) = inv.covered (turn % 2) j (omega arith) drawn (omega (arith, its)) in
              inr (
                c,
                holder-CanGo s.mem (s.pc c) (turn % 2) j held (inv.stored (slot_index bits j)) its,
              )
          | no undrawn ↦ inl (
              starved s.mem op i (turn % 2) (turn / 2) (omega arith) own.0 (omega (arith, own.2))
                (omega (arith, undrawn)))
        ]
