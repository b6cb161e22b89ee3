-- ===== src/BoundedQueue/Batch/Wait.antt =====
-- `push_n`, which waits for the slots that are not ready.
use fuxi_n.Prelude.{
  ℕ, ◌+◌, ◌-◌, ◌*◌, ◌%◌, ◌^◌, ◌≤◌, ◌<◌, ◌≡◌, ◌⊎◌, inl, inr, min, refl, sym, ap, ◌∙◌, u64_mod, List,
  ◌++◌, length, take, drop, length-take, length-drop, take-append-drop, take-all, Option, none,
  some, le→leb, gt→leb, ==_refl, ==_ne, arith,
}
use mathlib.Core.Path.{subst}
use native.Mathlib.Decide.{dec_le}
use native.Mathlib.Nat.{mod-eq_of_lt}
use fuxi_n.BoundedQueue.{push_side, slot_index}
use fuxi_n.BoundedQueue.Tickets.{epoch, slot-lt}
use fuxi_n.BoundedQueue.Batch.{Queue, next_round_begin_index, publish, set_next_push, turns_from}
use fuxi_n.BoundedQueue.Batch.Calls.{sub_u64, ◌>>=◌, push_continuously, push_n}
use fuxi_n.BoundedQueue.Batch.Contents.{InRound, InRound-of_slot, next_round-at}
use fuxi_n.BoundedQueue.Batch.Ready.{push-ready}
use fuxi_n.BoundedQueue.Batch.Appends.{
  IsQuiet, contents, free_slots, Appends, Appends-contents, Appends-IsQuiet, Appends-trans,
  publish-Appends,
}

module _ {A : Type 0} (q : Queue A) (xs : List A) (wf : IsQuiet q)
    (small : q.next_push_index + length xs + 2 * 2 ^ q.slot_bits < u64_mod) where
  abbrev bits : ℕ
  bits = q.slot_bits

  abbrev i : ℕ
  i = q.next_push_index

  abbrev end_index : ℕ
  end_index = (i + length xs) % u64_mod

  abbrev next : ℕ
  next = next_round_begin_index bits i

  end-at : end_index ≡ i + length xs
  end-at = mod-eq_of_lt (omega (arith, small))

  next-at : next + slot_index bits i ≡ i + 2 ^ bits
  next-at = (next_round-at bits i (omega (arith, small))).0

  -- `push_n` gives `result` if there is room, and waits otherwise.
  record Fills (result : Option (Queue A)) : Type 0 where
    waits : free_slots q < length xs → result ≡ none
    next : Queue A
    gives : length xs ≤ free_slots q → result ≡ some next
    appends : length xs ≤ free_slots q → Appends q next xs

  whole_part :
      end_index ≤ next
      → Fills (push_continuously (set_next_push q (i + length xs)) xs i (length xs))
  whole_part le =
      let round = InRound-of_slot bits i (length xs) (omega (arith, le, end-at, next-at)) in
      let ready : turns_from q push_side i (length xs) ≡ min (length xs) (free_slots q) =
        push-ready wf (length xs) i (length xs) _ _ (omega arith) wf.bounded round
          (inl (omega arith)) in
      record {
        waits = λ few.
            rw (ready, ==_ne (min (length xs) (free_slots q)) (length xs) (omega (arith, few)))
              refl;
        next = publish (set_next_push q (i + length xs)) i xs;
        gives = λ room.
            let all : min (length xs) (free_slots q) ≡ length xs = omega (arith, room) in
            rw (ready, all, ==_refl (length xs), take-all xs) refl;
        appends = λ room.
            publish-Appends q xs wf (omega (arith, room, wf.bounded)) round (omega (arith, small));
      }

  abbrev first : Queue A
  first = publish (set_next_push q (i + (next - i))) i (take (next - i) xs)

  abbrev rest : List A
  rest = take (length xs - (next - i)) (drop (next - i) xs)

  -- The queue after both parts
  abbrev last : Queue A
  last = publish (publish (set_next_push q (i + length xs)) i (take (next - i) xs)) next rest

  module _ (lt : next < end_index) where
    len : length (take (next - i) xs) ≡ next - i
    len = length-take (next - i) xs ∙ omega (arith, lt, end-at)

    sub-next : sub_u64 next i ≡ next - i
    sub-next = omega (arith, end-at, small, lt, next-at, slot-lt bits i)

    sub-end : sub_u64 end_index next ≡ length xs - (next - i)
    sub-end = omega (arith, end-at, small, lt, next-at, slot-lt bits i)

    round : InRound bits i (next - i) (slot_index bits i) (epoch bits i)
    round = InRound-of_slot bits i (next - i) (omega (arith, next-at, slot-lt bits i))

    ready : turns_from q push_side i (next - i) ≡ min (next - i) (free_slots q)
    ready =
        push-ready wf (next - i) i (next - i) _ _ (omega arith) wf.bounded round (inl (omega arith))

    module _ (enough : next - i ≤ free_slots q) where
      first-Appends : Appends q first (take (next - i) xs)
      first-Appends =
          subst
            (λ n.
              Appends q (publish (set_next_push q (i + n)) i (take (next - i) xs))
                (take (next - i) xs))
            len
            (publish-Appends q (take (next - i) xs) wf (omega (arith, len, enough, wf.bounded))
              (subst (λ n. InRound bits i n (slot_index bits i) (epoch bits i)) (sym len) round)
              (omega (arith, len, small, lt, end-at)))

      at : first.next_push_index ≡ next
      at = omega (arith, first-Appends.new_push, len, next-at, slot-lt bits i)

      start : slot_index bits first.next_push_index ≡ 0
      start = ap (slot_index bits) at ∙ (next_round-at bits i (omega (arith, small))).1

      first-IsQuiet : IsQuiet first
      first-IsQuiet = Appends-IsQuiet first-Appends

      ready_rest :
          turns_from first push_side next (length xs - (next - i))
          ≡ min (length xs - (next - i)) (free_slots q - (next - i))
      ready_rest =
          subst
            (λ t.
              turns_from first push_side t (length xs - (next - i))
              ≡ min (length xs - (next - i)) (q.next_pop_index + 2 ^ bits - t))
            at
            (push-ready first-IsQuiet (length xs - (next - i)) first.next_push_index (2 ^ bits) _ _
              (omega arith) first-IsQuiet.bounded
              (InRound-of_slot bits first.next_push_index (2 ^ bits) (omega (arith, start)))
              (inr (omega (arith, at, next-at, slot-lt bits i, wf.ordered))))
          ∙ ap (min (length xs - (next - i))) (omega (arith, lt, next-at, slot-lt bits i))

      rest-len : length rest ≡ length xs - (next - i)
      rest-len =
          length-take (length xs - (next - i)) (drop (next - i) xs)
          ∙ omega (arith, length-drop (next - i) xs)

      all_parts : take (next - i) xs ++ rest ≡ xs
      all_parts =
          ap (λ ys. take (next - i) xs ++ ys)
            (ap (λ n. take n (drop (next - i) xs)) (sym (length-drop (next - i) xs))
              ∙ take-all (drop (next - i) xs))
          ∙ take-append-drop (next - i) xs

      last-Appends : length xs ≤ free_slots q → Appends q last xs
      last-Appends room =
          let rest_part : Appends first
              (publish (set_next_push first (first.next_push_index + length rest))
                first.next_push_index rest)
              rest =
            publish-Appends first rest first-IsQuiet
              (omega (arith, rest-len, at, next-at, slot-lt bits i, room, lt, end-at, wf.bounded))
              (InRound-of_slot bits first.next_push_index (length rest)
                (omega (arith, start, rest-len, room, next-at, slot-lt bits i)))
              (omega (arith, rest-len, at, lt, end-at, small)) in
          let second : Appends first (publish (set_next_push first (next + length rest)) next rest)
              rest =
            subst (λ t. Appends first (publish (set_next_push first (t + length rest)) t rest) rest)
              at rest_part in
          let sum : next + length rest ≡ i + length xs =
            omega (arith, rest-len, lt, end-at, next-at, slot-lt bits i) in
          subst (Appends q last) all_parts (
            subst (λ t. Appends q (set_next_push last t) (take (next - i) xs ++ rest)) sum
              (Appends-trans wf.ordered first-Appends second))

    all : next - i ≤ free_slots q → min (next - i) (free_slots q) ≡ next - i
    all enough = omega (arith, enough)

    all_rest :
        length xs ≤ free_slots q
        → min (length xs - (next - i)) (free_slots q - (next - i)) ≡ length xs - (next - i)
    all_rest room = omega (arith, room)

    both_parts : Fills (
        push_continuously (set_next_push q (i + length xs)) xs i (sub_u64 next i) >>= λ r.
        push_continuously r (drop (sub_u64 next i) xs) next (sub_u64 end_index next))
    both_parts =
        rw (sub-next, sub-end)
          record {
            waits = λ few. elim (dec_le (next - i) (free_slots q)) [
              | yes enough ↦
                  rw
                    (
                      ready,
                      all enough,
                      ==_refl (next - i),
                      ready_rest enough,
                      ==_ne (min (length xs - (next - i)) (free_slots q - (next - i)))
                          (length xs - (next - i)) (omega (arith, few, enough)),
                    )
                    refl
              | no full ↦
                  rw (ready, ==_ne (min (next - i) (free_slots q)) (next - i) (omega (arith, full)))
                    refl
            ];
            next = last;
            gives = λ room.
                let enough : next - i ≤ free_slots q = omega (arith, room, lt, end-at) in
                rw
                  (
                    ready,
                    all enough,
                    ==_refl (next - i),
                    ready_rest enough,
                    all_rest room,
                    ==_refl (length xs - (next - i)),
                  )
                  refl;
            appends = λ room. last-Appends (omega (arith, room, lt, end-at)) room;
          }

  fills : Fills (push_n q xs)
  fills = elim (dec_le end_index next) [
    | yes le ↦ rw (le→leb end_index next le) (whole_part le)
    | no gt ↦
        let lt : next < end_index = omega (arith, gt) in
        rw (gt→leb end_index next lt) (both_parts lt)
  ]

  -- `push_n` puts all of the elements behind those that the queue has when there are slots for them,
  -- and waits for another thread otherwise; no indexes wrap, and no other thread is in the queue,
  -- which is quiet after the call as well.
  pub push_n-contents :
      ((free_slots q < length xs) × (push_n q xs ≡ none))
      ⊎ ((length xs ≤ free_slots q)
          × ((r : Queue A) × (push_n q xs ≡ some r) × IsQuiet r × (contents r ≡ contents q ++ xs)))
  push_n-contents = elim (dec_le (length xs) (free_slots q)) [
    | yes room ↦ inr (
      room,
      (
        fills.next,
        fills.gives room,
        Appends-IsQuiet (fills.appends room),
        Appends-contents wf.ordered (fills.appends room),
      ),
    )
    | no few ↦ let lt : free_slots q < length xs = omega (arith, few) in inl (lt, fills.waits lt)
  ]
