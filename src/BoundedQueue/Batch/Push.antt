-- ===== src/BoundedQueue/Batch/Push.antt =====
-- `try_push_n` and `push_n` against the list of the elements.
use fuxi_n.Prelude.{
  ℕ, ◌+◌, ◌-◌, ◌*◌, ◌%◌, ◌^◌, ◌≤◌, ◌<◌, ◌≡◌, ◌⊎◌, inl, inr, min, refl, sym, ap, ◌∙◌, u64_mod, List,
  ◌++◌, length, take, drop, length-take, length-drop, take-add, le→leb, gt→leb, lt→ltb, ge→ltb,
  ==_refl, ==_ne, arith,
}
use mathlib.Core.Path.{subst}
use native.Mathlib.Decide.{dec_lt, dec_le, ℕ_discrete}
use native.Mathlib.Nat.{mod-eq_of_lt}
use fuxi_n.BoundedQueue.{push_side, slot_index}
use fuxi_n.BoundedQueue.Tickets.{epoch, slot-lt}
use fuxi_n.BoundedQueue.Batch.{
  Queue, Pushed, next_round_begin_index, publish, set_next_push, turns_from,
}
use fuxi_n.BoundedQueue.Batch.Calls.{sub_u64, try_push_continuously, try_push_n}
use fuxi_n.BoundedQueue.Batch.Contents.{InRound, InRound-of_slot}
use fuxi_n.BoundedQueue.Batch.Ready.{push-ready}
use fuxi_n.BoundedQueue.Batch.Contents.{next_round-at}
use fuxi_n.BoundedQueue.Batch.Appends.{
  IsQuiet, contents, free_slots, Appends, Appends-contents, Appends-IsQuiet, Appends-refl,
  Appends-trans, publish-Appends,
}

module _ {A : Type 0} where
  -- The first `k` elements were pushed.
  record PushesFirst (q : Queue A) (xs : List A) (r : Pushed A) (k : ℕ) : Type 0 where
    counted : r.count ≡ k
    appends : Appends q r.queue (take k xs)

  try_push_continuously-lem :
      (q : Queue A) (xs : List A) (num b : ℕ)
      → IsQuiet q
      → num ≤ length xs
      → InRound q.slot_bits q.next_push_index b
          (slot_index q.slot_bits q.next_push_index)
          (epoch q.slot_bits q.next_push_index)
      → (num ≤ b) ⊎ (q.next_pop_index + 2 ^ q.slot_bits < q.next_push_index + b)
      → q.next_push_index + 2 ^ q.slot_bits < u64_mod
      → PushesFirst q xs (try_push_continuously q xs q.next_push_index num) (min num (free_slots q))
  try_push_continuously-lem q xs num b wf le h enough small =
      let k = min num (free_slots q) in
      let ready : turns_from q push_side q.next_push_index num ≡ k =
        push-ready wf num q.next_push_index b _ _ (omega arith) wf.bounded h enough in
      let len : length (take k xs) ≡ k = length-take k xs ∙ omega (arith, le) in
      elim (ℕ_discrete k 0) [
        | yes e ↦ rw (ready, e) record { counted = refl; appends = Appends-refl q wf }
        | no ne ↦
            rw (ready, ==_ne k 0 ne, ==_refl q.next_push_index)
              record {
                counted = refl;
                appends =
                    subst
                      (λ n.
                        Appends q
                          (publish (set_next_push q (q.next_push_index + n)) q.next_push_index
                            (take k xs))
                          (take k xs))
                      len
                      (publish-Appends q (take k xs) wf (omega (arith, len, wf.bounded))
                        (λ r lt. h r (ground (arith, enough, len)))
                        (omega (arith, len, small, wf.bounded, wf.ordered)));
              }
      ]

  module _ (q : Queue A) (xs : List A) (wf : IsQuiet q)
      (small : q.next_push_index + length xs + 2 * 2 ^ q.slot_bits < u64_mod) where
    abbrev bits : ℕ
    bits = q.slot_bits

    abbrev i : ℕ
    i = q.next_push_index

    abbrev end_index : ℕ
    end_index = (i + length xs) % u64_mod

    abbrev next : ℕ
    next = next_round_begin_index bits i

    end-at : end_index ≡ i + length xs
    end-at = mod-eq_of_lt (omega (arith, small))

    next-at : next + slot_index bits i ≡ i + 2 ^ bits
    next-at = (next_round-at bits i (omega (arith, small))).0

    whole_part :
        end_index ≤ next
        → PushesFirst q xs
            (try_push_continuously q xs i (sub_u64 end_index i))
            (min (length xs) (free_slots q))
    whole_part le =
        let num : sub_u64 end_index i ≡ length xs = omega (arith, end-at, small) in
        rw num (
          try_push_continuously-lem q xs (length xs) (length xs) wf (omega arith)
            (InRound-of_slot bits i (length xs) (omega (arith, le, end-at, next-at)))
            (inl (omega arith)) (omega (arith, small)))

    first_part :
        next < end_index
        → PushesFirst q xs
            (try_push_continuously q xs i (sub_u64 next i))
            (min (next - i) (free_slots q))
    first_part lt =
        let num : sub_u64 next i ≡ next - i =
          omega (arith, end-at, small, lt, next-at, slot-lt bits i) in
        rw num (
          try_push_continuously-lem q xs (next - i) (next - i) wf (omega (arith, lt, end-at))
            (InRound-of_slot bits i (next - i) (omega (arith, next-at))) (inl (omega arith))
            (omega (arith, small)))

    second_part :
        (r : Pushed A)
        → next < end_index
        → PushesFirst q xs r (next - i)
        → PushesFirst r.queue
            (drop r.count xs)
            (try_push_continuously r.queue (drop r.count xs) next (sub_u64 end_index next))
            (min (length xs - (next - i)) (free_slots q - (next - i)))
    second_part r lt done =
        let app = done.appends in
        let len : length (take (next - i) xs) ≡ next - i =
          length-take (next - i) xs ∙ omega (arith, lt, end-at) in
        let at : next ≡ r.queue.next_push_index =
          omega (arith, app.new_push, len, next-at, slot-lt bits i) in
        let cap : 2 ^ r.queue.slot_bits ≡ 2 ^ bits = ap (λ b. 2 ^ b) app.same_bits in
        let num : sub_u64 end_index next ≡ length xs - (next - i) =
          omega (arith, end-at, small, lt, next-at, slot-lt bits i) in
        let start : slot_index r.queue.slot_bits r.queue.next_push_index ≡ 0 =
          ap (λ b. slot_index b r.queue.next_push_index) app.same_bits
          ∙ ap (slot_index bits) (sym at)
          ∙ (next_round-at bits i (omega (arith, small))).1 in
        let free : free_slots r.queue ≡ free_slots q - (next - i) =
          omega (arith, app.same_pop, cap, at, next-at, slot-lt bits i) in
        rw num (
          subst
            (λ t.
              PushesFirst r.queue (drop r.count xs)
                (try_push_continuously r.queue (drop r.count xs) t (length xs - (next - i)))
                (min (length xs - (next - i)) (free_slots q - (next - i))))
            (sym at)
            (subst
              (λ f.
                PushesFirst r.queue (drop r.count xs)
                  (try_push_continuously r.queue (drop r.count xs) r.queue.next_push_index
                    (length xs - (next - i)))
                  (min (length xs - (next - i)) f))
              free
              (try_push_continuously-lem r.queue (drop r.count xs) (length xs - (next - i))
                (2 ^ r.queue.slot_bits) (Appends-IsQuiet app)
                (omega (arith, length-drop r.count xs, done.counted))
                (InRound-of_slot r.queue.slot_bits r.queue.next_push_index (2 ^ r.queue.slot_bits)
                  (omega (arith, start)))
                (inr (omega (arith, app.same_pop, cap, at, next-at, slot-lt bits i, wf.ordered)))
                (omega (arith, cap, at, next-at, small)))))

    both_parts :
        (r t : Pushed A) (k : ℕ)
        → next < end_index
        → PushesFirst q xs r (next - i)
        → PushesFirst r.queue (drop r.count xs) t k
        → k ≤ length xs
        → PushesFirst q xs
            (record { queue = t.queue; count = (r.count + t.count) % u64_mod })
            (next - i + k)
    both_parts r t k lt f g le = record {
      counted = omega (arith, f.counted, g.counted, le, next-at, small);
      appends = subst (Appends q t.queue) (take-add (next - i) k xs) (
          Appends-trans wf.ordered f.appends
            (subst (λ n. Appends r.queue t.queue (take k (drop n xs))) f.counted g.appends));
    }

    pushes : PushesFirst q xs (try_push_n q xs) (min (length xs) (free_slots q))
    pushes = elim (dec_le end_index next) [
      | yes le ↦ rw (le→leb end_index next le) (whole_part le)
      | no gt ↦
          let lt : next < end_index = omega (arith, gt) in
          let f = first_part lt in
          let num : sub_u64 next i ≡ next - i =
            omega (arith, end-at, small, lt, next-at, slot-lt bits i) in
          elim (dec_lt (free_slots q) (next - i)) [
            | yes few ↦
                let less : (try_push_continuously q xs i (sub_u64 next i)).count < sub_u64 next i =
                  omega (arith, f.counted, num, few) in
                rw (gt→leb end_index next lt, lt→ltb _ _ less)
                  (subst (PushesFirst q xs (try_push_continuously q xs i (sub_u64 next i)))
                    (omega (arith, few, lt, end-at)) f)
            | no enough ↦
                let full : PushesFirst q xs (try_push_continuously q xs i (sub_u64 next i))
                    (next - i) =
                  subst (PushesFirst q xs (try_push_continuously q xs i (sub_u64 next i)))
                    (omega (arith, enough)) f in
                let first = try_push_continuously q xs i (sub_u64 next i) in
                let g = second_part first lt full in
                let more : sub_u64 next i ≤ first.count = omega (arith, full.counted, num) in
                rw (gt→leb end_index next lt, ge→ltb first.count (sub_u64 next i) more)
                  (subst (PushesFirst q xs _) (omega (arith, enough, lt, end-at)) (
                    both_parts first _ (min (length xs - (next - i)) (free_slots q - (next - i))) lt
                      full g (omega arith)))
          ]
    ]

    pub pushes-Appends :
        Appends q (try_push_n q xs).queue (take (min (length xs) (free_slots q)) xs)
    pushes-Appends = pushes.appends

    -- `try_push_n` pushes as many of the elements as there are free slots, the first ones of them,
    -- behind those that the queue has, and gives their number; no indexes wrap, and no other thread is
    -- in the queue, which is quiet after the call as well.
    pub try_push_n-contents :
        ((try_push_n q xs).count ≡ min (length xs) (free_slots q))
        × IsQuiet (try_push_n q xs).queue
        × (contents (try_push_n q xs).queue ≡ contents q ++ take (try_push_n q xs).count xs)
    try_push_n-contents = (
      pushes.counted,
      Appends-IsQuiet pushes.appends,
      Appends-contents wf.ordered pushes.appends
          ∙ ap (λ n. contents q ++ take n xs) (sym pushes.counted),
    )
