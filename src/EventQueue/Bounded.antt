-- ===== src/EventQueue/Bounded.antt =====
-- The operations that event queues call of `ConcurrentBoundedQueue`
-- (src/fuxi/base/bounded_queue.hpp), over the model of its code for one call at a time
-- (BoundedQueue/Batch), and what they do to the events.
use fuxi_n.Prelude.{
  Bool, true, false, ℕ, suc, ◌+◌, ◌*◌, ◌^◌, ◌≤◌, ◌<◌, ◌≡◌, inl, min, refl, sym, ap, ◌∙◌, u64_mod,
  ◌==◌, if◌then◌else◌, Option, none, some, List, [], ◌∷◌, ◌++◌, length, arith,
}
use mathlib.Core.Path.{subst}
use fuxi_n.BoundedQueue.{push_side, pop_side, slot_index, expected_version}
use fuxi_n.BoundedQueue.Tickets.{epoch, slot-lt}
use fuxi_n.BoundedQueue.Batch.{
  Queue, Popped, capacity, publish, retire, set_next_push, set_next_pop, turns_from,
}
use fuxi_n.BoundedQueue.Batch.Calls.{try_pop_n, reserve_and_clear}
use fuxi_n.BoundedQueue.Batch.Contents.{InRound, InRound-of_slot}
use fuxi_n.BoundedQueue.Batch.Ready.{push-ready, pop-ready}
use fuxi_n.BoundedQueue.Batch.Values.{length-values_of}
use fuxi_n.BoundedQueue.Batch.Appends.{
  IsQuiet, contents, Appends, Appends-contents, Appends-IsQuiet, publish-Appends,
}
use fuxi_n.BoundedQueue.Batch.Removes.{
  used_slots, Removes, Removes-IsQuiet, Removes-contents, retire-Removes,
}
use fuxi_n.BoundedQueue.Batch.Pop.{pops-Removes, try_pop_n-contents}
use fuxi_n.EventQueue.{Operations, Laws}

-- `try_deal` of a push: false where the slot is not at its turn
abbrev pub try_push : Queue ℕ → ℕ → Option (Queue ℕ)
try_push q v =
    let i = q.next_push_index in
    if q.version (slot_index q.slot_bits i) == expected_version q.slot_bits push_side i
    then some (publish (set_next_push q (i + 1)) i (v ∷ []))
    else none

abbrev pub first_of : Popped ℕ → List ℕ → Option (ℕ × Queue ℕ)
first_of p [] = none
first_of p (v ∷ vs) = some (v, p.queue)

abbrev pub try_pop : Queue ℕ → Option (ℕ × Queue ℕ)
try_pop q = let p = try_pop_n q 1 in first_of p p.values

-- `deal` of a pop, which waits for the turn of the slot
abbrev pub pop : Queue ℕ → Option (ℕ × Queue ℕ)
pop q =
    let i = q.next_pop_index in
    if q.version (slot_index q.slot_bits i) == expected_version q.slot_bits pop_side i
    then some (q.value (slot_index q.slot_bits i), retire (set_next_pop q (i + 1)) i 1)
    else none

-- A bounded queue before any call
abbrev pub unused : Queue ℕ
unused = record {
  slot_bits = 0;
  next_push_index = 0;
  next_pop_index = 0;
  version = λ _. 0;
  value = λ _. 0;
}

abbrev pub bounded_ops : (bit_ceil ctzll : ℕ → ℕ) → Operations (Queue ℕ)
bounded_ops bit_ceil ctzll = record {
  reserve_and_clear = reserve_and_clear bit_ceil ctzll 0 unused;
  try_push = try_push;
  try_pop = try_pop;
  pop = pop;
}

-- No other thread is in the queue, and the indexes do not wrap for `n` more calls.
abbrev pub IsReady : ℕ → Queue ℕ → Type 0
IsReady n q = IsQuiet q × (q.next_push_index + n + 3 * 2 ^ q.slot_bits < u64_mod)

abbrev one_if : Bool → ℕ
one_if b = if b then 1 else 0

turn : (b : Bool) → one_if b ≡ 1 → b ≡ true
turn true e = refl
turn false e = absurd (omega (arith, e))

no_turn : (b : Bool) → one_if b ≡ 0 → b ≡ false
no_turn true e = absurd (omega (arith, e))
no_turn false e = refl

module _ (q : Queue ℕ) (wf : IsQuiet q) where
  used : length (contents q) ≡ used_slots q
  used = length-values_of q.slot_bits q.value q.next_pop_index (used_slots q)

  round : (i : ℕ) → InRound q.slot_bits i 1 (slot_index q.slot_bits i) (epoch q.slot_bits i)
  round i = InRound-of_slot q.slot_bits i 1 (omega (arith, slot-lt q.slot_bits i))

  pop_turn : turns_from q pop_side q.next_pop_index 1 ≡ min 1 (used_slots q)
  pop_turn =
      pop-ready wf 1 q.next_pop_index 1 _ _ (omega arith) wf.ordered (round q.next_pop_index)
        (inl (omega arith))

  pub try_push-Appends :
      (v : ℕ)
      → length (contents q) < capacity q
      → q.next_push_index + 1 < u64_mod
      → (next : Queue ℕ) × (try_push q v ≡ some next) × Appends q next (v ∷ [])
  try_push-Appends v lt small =
      let ready : turns_from q push_side q.next_push_index 1 ≡ 1 =
        push-ready wf 1 q.next_push_index 1 _ _ (omega arith) wf.bounded (round q.next_push_index)
          (inl (omega arith))
        ∙ omega (arith, used, lt, wf.ordered) in
      (
        publish (set_next_push q (q.next_push_index + 1)) q.next_push_index (v ∷ []),
        ap
            (λ b.
              if b
              then some
                  (publish (set_next_push q (q.next_push_index + 1)) q.next_push_index (v ∷ []))
              else none)
            (turn _ ready),
        publish-Appends q (v ∷ []) wf (omega (arith, used, lt, wf.ordered))
            (round q.next_push_index) small,
      )

  pub pop-Removes :
      (v : ℕ) (vs : List ℕ)
      → contents q ≡ v ∷ vs
      → q.next_pop_index + 1 < u64_mod
      → (next : Queue ℕ) × (pop q ≡ some (v, next)) × Removes q next 1 × (contents next ≡ vs)
  pop-Removes v vs at small =
      let some_used : 1 ≤ used_slots q = omega (arith, used, ap length at) in
      let next = retire (set_next_pop q (q.next_pop_index + 1)) q.next_pop_index 1 in
      let rem : Removes q next 1 = retire-Removes q 1 wf some_used (round q.next_pop_index) small in
      let same : q.value (slot_index q.slot_bits q.next_pop_index) ∷ contents next ≡ v ∷ vs =
        sym (Removes-contents rem) ∙ at in
      (
        next,
        ap (λ b. if b then some (q.value (slot_index q.slot_bits q.next_pop_index), next) else none)
              (turn _ (pop_turn ∙ omega (arith, some_used)))
            ∙ cc same,
        rem,
        cc same,
      )

  pub pop-empty : contents q ≡ [] → pop q ≡ none
  pop-empty empty =
      ap
        (λ b.
          if b
          then some (
            q.value (slot_index q.slot_bits q.next_pop_index),
            retire (set_next_pop q (q.next_pop_index + 1)) q.next_pop_index 1,
          )
          else none)
        (no_turn _ (pop_turn ∙ omega (arith, used, ap length empty)))

  pub try_pop-Removes :
      (v : ℕ) (vs : List ℕ)
      → contents q ≡ v ∷ vs
      → q.next_pop_index + 1 + 2 * 2 ^ q.slot_bits < u64_mod
      → (next : Queue ℕ) × (try_pop q ≡ some (v, next)) × Removes q next 1 × (contents next ≡ vs)
  try_pop-Removes v vs at small =
      let (count, len, _, all) = try_pop_n-contents q 1 wf small in
      let (e, rest) =
        one_value (try_pop_n q 1).values (contents (try_pop_n q 1).queue)
          (omega (arith, len, count, ap length at)) (sym all ∙ at) in
      (
        (try_pop_n q 1).queue,
        ap (first_of (try_pop_n q 1)) e,
        subst (Removes q (try_pop_n q 1).queue) (omega (arith, used, ap length at))
            (pops-Removes q 1 wf small),
        rest,
      )
    where
      one_value : (xs ys : List ℕ) → length xs ≡ 1 → xs ++ ys ≡ v ∷ vs → (xs ≡ v ∷ []) × (ys ≡ vs)
      one_value [] ys len e = absurd (omega (arith, len))
      one_value (x ∷ []) ys len e = (cc e, cc e)
      one_value (x ∷ y ∷ xs) ys len e = absurd (omega (arith, len))

pub Appends-IsReady :
    (n : ℕ) (q next : Queue ℕ) (v : ℕ)
    → IsReady (suc n) q
    → Appends q next (v ∷ [])
    → IsReady n next
Appends-IsReady n q next v (_, small) app =
    (Appends-IsQuiet app, omega (arith, small, app.new_push, ap (λ b. 2 ^ b) app.same_bits))

pub Removes-IsReady :
    (n : ℕ) (q next : Queue ℕ) → IsReady (suc n) q → Removes q next 1 → IsReady n next
Removes-IsReady n q next (_, small) rem =
    (Removes-IsQuiet rem, omega (arith, small, rem.same_push, ap (λ b. 2 ^ b) rem.same_bits))

-- The operations of the bounded queue keep the laws.
abbrev pub bounded_laws : (bit_ceil ctzll : ℕ → ℕ) → Laws (bounded_ops bit_ceil ctzll)
bounded_laws bit_ceil ctzll = record {
  contents = contents;
  capacity = capacity;
  IsReady = IsReady;
  less = λ n q r. (r.0, omega (arith, r.1));
  pushed = λ n q v r lt.
      let (next, e, app) = try_push-Appends q r.0 v lt (omega (arith, r.1)) in
      (
        next,
        e,
        Appends-contents r.0.ordered app,
        ap (λ b. 2 ^ b) app.same_bits,
        Appends-IsReady n q next v r app,
      );
  try_popped = λ n q v vs r at.
      let (next, e, rem, rest) = try_pop-Removes q r.0 v vs at (omega (arith, r.1, r.0.ordered)) in
      (next, e, rest, ap (λ b. 2 ^ b) rem.same_bits, Removes-IsReady n q next r rem);
  popped = λ n q v vs r at.
      let (next, e, rem, rest) = pop-Removes q r.0 v vs at (omega (arith, r.1, r.0.ordered)) in
      (next, e, rest, ap (λ b. 2 ^ b) rem.same_bits, Removes-IsReady n q next r rem);
  empty = λ n q r none_left. pop-empty q r.0 none_left;
}
