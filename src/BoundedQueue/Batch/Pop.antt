-- ===== src/BoundedQueue/Batch/Pop.antt =====
-- `try_pop_n` and `clear` against the list of the elements.
use fuxi_n.Prelude.{
  ℕ, ◌+◌, ◌-◌, ◌*◌, ◌%◌, ◌^◌, ◌≤◌, ◌<◌, ◌≡◌, ◌⊎◌, inl, inr, min, refl, sym, ap, ◌∙◌, u64_mod, [],
  ◌++◌, length, le→leb, gt→leb, lt→ltb, ge→ltb, ==_refl, ==_ne, arith,
}
use mathlib.Core.Path.{subst, ap₂}
use native.Mathlib.Decide.{dec_lt, dec_le, ℕ_discrete}
use native.Mathlib.Nat.{mod-eq_of_lt}
use fuxi_n.BoundedQueue.{pop_side, slot_index}
use fuxi_n.BoundedQueue.Tickets.{epoch, slot-lt}
use fuxi_n.BoundedQueue.Batch.{Queue, Popped, next_round_begin_index, capacity, turns_from}
use fuxi_n.BoundedQueue.Batch.Calls.{sub_u64, try_pop_continuously, try_pop_n, clear}
use fuxi_n.BoundedQueue.Batch.Contents.{InRound, InRound-of_slot, values_of, next_round-at}
use fuxi_n.BoundedQueue.Batch.Ready.{pop-ready}
use fuxi_n.BoundedQueue.Batch.Values.{length-values_of, values_of-append, copy_out-values}
use fuxi_n.BoundedQueue.Batch.Appends.{IsQuiet, contents}
use fuxi_n.BoundedQueue.Batch.Removes.{
  used_slots, Removes, Removes-IsQuiet, first_values, Removes-contents, Removes-refl, Removes-trans,
  first_values-removed, retire-Removes,
}

module _ {A : Type 0} where
  -- The first `k` elements were popped.
  record PopsFirst (q : Queue A) (r : Popped A) (k : ℕ) : Type 0 where
    counted : r.count ≡ k
    given : r.values ≡ first_values q k
    removes : Removes q r.queue k

  try_pop_continuously-lem :
      (q : Queue A) (num b : ℕ)
      → IsQuiet q
      → InRound q.slot_bits q.next_pop_index b
          (slot_index q.slot_bits q.next_pop_index)
          (epoch q.slot_bits q.next_pop_index)
      → (num ≤ b) ⊎ (q.next_push_index < q.next_pop_index + b)
      → q.next_pop_index + 2 ^ q.slot_bits < u64_mod
      → PopsFirst q (try_pop_continuously q q.next_pop_index num) (min num (used_slots q))
  try_pop_continuously-lem q num b wf h enough small =
      let k = min num (used_slots q) in
      let ready : turns_from q pop_side q.next_pop_index num ≡ k =
        pop-ready wf num q.next_pop_index b _ _ (omega arith) wf.ordered h enough in
      let round : InRound q.slot_bits q.next_pop_index k (slot_index q.slot_bits q.next_pop_index)
          (epoch q.slot_bits q.next_pop_index) =
        λ r lt. h r (ground (arith, enough, wf.ordered)) in
      elim (ℕ_discrete k 0) [
        | yes e ↦ rw (ready, e) record { counted = refl; given = refl; removes = Removes-refl q wf }
        | no ne ↦
            rw (ready, ==_ne k 0 ne, ==_refl q.next_pop_index)
              record {
                counted = refl;
                given = copy_out-values q.slot_bits q.value k q.next_pop_index _ _ round;
                removes =
                    retire-Removes q k wf (omega arith) round
                      (omega (arith, small, wf.bounded, wf.ordered));
              }
      ]

  module _ (q : Queue A) (wanted : ℕ) (wf : IsQuiet q)
      (small : q.next_pop_index + wanted + 2 * 2 ^ q.slot_bits < u64_mod) where
    abbrev bits : ℕ
    bits = q.slot_bits

    abbrev i : ℕ
    i = q.next_pop_index

    abbrev end_index : ℕ
    end_index = (i + wanted) % u64_mod

    abbrev next : ℕ
    next = next_round_begin_index bits i

    end-at : end_index ≡ i + wanted
    end-at = mod-eq_of_lt (omega (arith, small))

    next-at : next + slot_index bits i ≡ i + 2 ^ bits
    next-at = (next_round-at bits i (omega (arith, small))).0

    whole_part :
        end_index ≤ next
        → PopsFirst q (try_pop_continuously q i (sub_u64 end_index i)) (min wanted (used_slots q))
    whole_part le =
        let num : sub_u64 end_index i ≡ wanted = omega (arith, end-at, small) in
        rw num (
          try_pop_continuously-lem q wanted wanted wf
            (InRound-of_slot bits i wanted (omega (arith, le, end-at, next-at))) (inl (omega arith))
            (omega (arith, small)))

    sub-next : next < end_index → sub_u64 next i ≡ next - i
    sub-next lt = omega (arith, end-at, small, lt, next-at, slot-lt bits i)

    first_part :
        next < end_index
        → PopsFirst q (try_pop_continuously q i (sub_u64 next i)) (min (next - i) (used_slots q))
    first_part lt =
        subst (λ num. PopsFirst q (try_pop_continuously q i num) (min (next - i) (used_slots q)))
          (sym (sub-next lt))
          (try_pop_continuously-lem q (next - i) (next - i) wf
            (InRound-of_slot bits i (next - i) (omega (arith, next-at, slot-lt bits i)))
            (inl (omega arith)) (omega (arith, small)))

    second_part :
        (r : Popped A)
        → next < end_index
        → PopsFirst q r (next - i)
        → PopsFirst r.queue
            (try_pop_continuously r.queue next (sub_u64 end_index next))
            (min (wanted - (next - i)) (used_slots q - (next - i)))
    second_part r lt done =
        let rem = done.removes in
        let at : next ≡ r.queue.next_pop_index =
          omega (arith, rem.new_pop, next-at, slot-lt bits i) in
        let cap : 2 ^ r.queue.slot_bits ≡ 2 ^ bits = ap (λ b. 2 ^ b) rem.same_bits in
        let num : sub_u64 end_index next ≡ wanted - (next - i) =
          omega (arith, end-at, small, lt, next-at, slot-lt bits i) in
        let start : slot_index r.queue.slot_bits r.queue.next_pop_index ≡ 0 =
          ap (λ b. slot_index b r.queue.next_pop_index) rem.same_bits
          ∙ ap (slot_index bits) (sym at)
          ∙ (next_round-at bits i (omega (arith, small))).1 in
        let used : used_slots r.queue ≡ used_slots q - (next - i) =
          omega (arith, rem.same_push, at, next-at, slot-lt bits i) in
        rw num (
          subst
            (λ t.
              PopsFirst r.queue (try_pop_continuously r.queue t (wanted - (next - i)))
                (min (wanted - (next - i)) (used_slots q - (next - i))))
            (sym at)
            (subst
              (λ f.
                PopsFirst r.queue
                  (try_pop_continuously r.queue r.queue.next_pop_index (wanted - (next - i)))
                  (min (wanted - (next - i)) f))
              used
              (try_pop_continuously-lem r.queue (wanted - (next - i)) (2 ^ r.queue.slot_bits)
                (Removes-IsQuiet rem)
                (InRound-of_slot r.queue.slot_bits r.queue.next_pop_index (2 ^ r.queue.slot_bits)
                  (omega (arith, start)))
                (inr (omega (arith, rem.same_push, cap, at, next-at, slot-lt bits i, wf.bounded)))
                (omega (arith, cap, at, next-at, small)))))

    both_parts :
        (r t : Popped A) (k : ℕ)
        → next < end_index
        → PopsFirst q r (next - i)
        → PopsFirst r.queue t k
        → k ≤ wanted
        → PopsFirst q
            (record {
              queue = t.queue;
              values = r.values ++ t.values;
              count = (r.count + t.count) % u64_mod;
            })
            (next - i + k)
    both_parts r t k lt f g le = record {
      counted = omega (arith, f.counted, g.counted, le, next-at, small);
      given =
          ap₂ ◌++◌ f.given (g.given ∙ first_values-removed f.removes k)
          ∙ sym (values_of-append bits q.value i (next - i) k);
      removes = Removes-trans f.removes g.removes;
    }

    pops : PopsFirst q (try_pop_n q wanted) (min wanted (used_slots q))
    pops = elim (dec_le end_index next) [
      | yes le ↦ rw (le→leb end_index next le) (whole_part le)
      | no gt ↦
          let lt : next < end_index = omega (arith, gt) in
          let f = first_part lt in
          let first = try_pop_continuously q i (sub_u64 next i) in
          elim (dec_lt (used_slots q) (next - i)) [
            | yes few ↦
                let less : first.count < sub_u64 next i =
                  omega (arith, f.counted, sub-next lt, few) in
                rw (gt→leb end_index next lt, lt→ltb _ _ less)
                  (subst (PopsFirst q first) (omega (arith, few, lt, end-at)) f)
            | no enough ↦
                let full : PopsFirst q first (next - i) =
                  subst (PopsFirst q first) (omega (arith, enough)) f in
                let more : sub_u64 next i ≤ first.count =
                  omega (arith, full.counted, sub-next lt) in
                rw (gt→leb end_index next lt, ge→ltb first.count (sub_u64 next i) more)
                  (subst (PopsFirst q _) (omega (arith, enough, lt, end-at)) (
                    both_parts first _ (min (wanted - (next - i)) (used_slots q - (next - i))) lt
                      full (second_part first lt full) (omega arith)))
          ]
    ]

    pub pops-Removes : Removes q (try_pop_n q wanted).queue (min wanted (used_slots q))
    pops-Removes = pops.removes

    -- `try_pop_n` takes as many of the elements as are wanted and there, the oldest ones, in their
    -- order, and gives their number; no indexes wrap, and no other thread is in the queue, which is
    -- quiet after the call as well.
    pub try_pop_n-contents :
        ((try_pop_n q wanted).count ≡ min wanted (length (contents q)))
        × (length (try_pop_n q wanted).values ≡ (try_pop_n q wanted).count)
        × IsQuiet (try_pop_n q wanted).queue
        × (contents q ≡ (try_pop_n q wanted).values ++ contents (try_pop_n q wanted).queue)
    try_pop_n-contents = (
      pops.counted ∙ ap (min wanted) (sym (length-values_of bits q.value i (used_slots q))),
      ap length pops.given ∙ length-values_of bits q.value i _ ∙ sym pops.counted,
      Removes-IsQuiet pops.removes,
      Removes-contents pops.removes
          ∙ ap (λ xs. xs ++ contents (try_pop_n q wanted).queue) (sym pops.given),
    )

  -- `clear` leaves nothing in a quiet queue whose indexes do not wrap, which keeps its capacity.
  pub clear-contents :
      (q : Queue A)
      → IsQuiet q
      → q.next_pop_index + 3 * 2 ^ q.slot_bits < u64_mod
      → IsQuiet (clear q) × (contents (clear q) ≡ []) × (capacity (clear q) ≡ capacity q)
  clear-contents q wf small =
      let room : q.next_pop_index + capacity q + 2 * 2 ^ q.slot_bits < u64_mod =
        omega (arith, small) in
      let rem = (pops q (capacity q) wf room).removes in
      (
        Removes-IsQuiet rem,
        ap (values_of (clear q).slot_bits (clear q).value (clear q).next_pop_index) {y = 0}
            (omega (arith, rem.new_pop, rem.same_push, wf.bounded)),
        ap (λ b. 2 ^ b) rem.same_bits,
      )
