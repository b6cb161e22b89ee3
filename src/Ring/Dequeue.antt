-- ===== src/Ring/Dequeue.antt =====
-- `DoDequeue` on a ring at rest: whole batches come out, oldest first, or nothing does.
use fuxi_n.Prelude.{
  ℕ, zero, suc, ◌+◌, ◌-◌, ◌%◌, ◌≤◌, ◌<◌, ◌≡◌, refl, sym, ap, ◌∙◌, [], ◌∷◌, Array, Bool, some,
  u32_mod, ltb, if◌then◌else◌, arith, take, drop,
}
use native.Mathlib.Nat.{zero-add, add-zero, sub-zero}
use native.Mathlib.Decide.{dec_lt}
use mathlib.Core.Path.{ap₂}
use fuxi_n.Ring.{RteRing, update_tail, move_cons_head, do_dequeue, dequeue_values}
use fuxi_n.Ring.Queue.{poll}
use fuxi_n.Ring.Window.{
  items, values, length-items, items-congr, items-eq-values, dequeue_values_at,
}
use fuxi_n.Ring.Rest.{IsValid, count, contents, slot-wrap, ring_bounds}

module _ {A : Type 0} where
  abbrev pub dequeued : RteRing A → ℕ → RteRing A
  dequeued r n =
      let next = (r.cons.tail + n) % u32_mod in
      record r { cons = record { head = next; tail = next } }

  -- The table after a batch.
  abbrev pub taken : RteRing A → Array A → ℕ → Array A
  taken r t n = dequeue_values r.size r.mask r.storage r.cons.tail t n

  pub do_dequeue-short :
      (r : RteRing A) (t : Array A) (n : ℕ) (is_sc : Bool)
      → IsValid r
      → count r < n
      → do_dequeue r t n is_sc ≡ some (0, count r, t, r)
  unfolding do_dequeue move_cons_head
  do_dequeue-short r t n is_sc v h = ground arith

  do_dequeue-none :
      (r : RteRing A) (t : Array A) (is_sc : Bool)
      → IsValid r
      → do_dequeue r t 0 is_sc ≡ some (0, count r, t, r)
  unfolding do_dequeue move_cons_head
  do_dequeue-none r t is_sc v = ground arith

  pub do_dequeue-some :
      (r : RteRing A) (t : Array A) (n : ℕ) (is_sc : Bool)
      → IsValid r
      → 0 < n
      → n ≤ count r
      → do_dequeue r t n is_sc ≡ some (n, count r - n, taken r t n, dequeued r n)
  unfolding do_dequeue move_cons_head update_tail
  do_dequeue-some r t n is_sc v pos h = ground arith

  take-items :
      (st : Array A) (size h m n : ℕ) → n ≤ m → take n (items st size h m) ≡ items st size h n
  take-items st size h m zero le = refl
  take-items st size h zero (suc n) le = absurd (omega arith)
  take-items st size h (suc m) (suc n) le =
      ap (◌∷◌ (st (h % size))) (take-items st size (h + 1) m n (omega arith))

  drop-items :
      (st : Array A) (size h m n : ℕ)
      → n ≤ m
      → drop n (items st size h m) ≡ items st size (h + n) (m - n)
  drop-items st size h m zero le = rw (add-zero, sub-zero)
  drop-items st size h zero (suc n) le = absurd (omega arith)
  drop-items st size h (suc m) (suc n) le =
      drop-items st size (h + 1) m n (omega arith) ∙ ap₂ (items st size) (omega arith) (omega arith)

  module _ (r : RteRing A) (v : IsValid r) (t : Array A) (n : ℕ) (held : n ≤ count r) where
    taken_at :
        (j : ℕ) → taken r t n j ≡ (if ltb j n then r.storage ((r.cons.tail + j) % r.size) else t j)
    taken_at =
        dequeue_values_at v.bits r.size r.mask v.is_pow v.small v.masked r.storage t r.cons.tail n
          (omega (arith, v.fill))

    pub values-taken : values (taken r t n) 0 n ≡ take n (contents r)
    values-taken =
        sym (items-eq-values r.storage (taken r t n) r.size r.cons.tail 0 n (λ k lt. read k lt))
        ∙ sym (take-items r.storage r.size r.cons.tail (count r) n held)
      where
        read : (k : ℕ) → k < n → r.storage ((r.cons.tail + k) % r.size) ≡ taken r t n (0 + k)
        read k lt = rw zero-add (sym (taken_at k ∙ ground arith))

    count-dequeued : count (dequeued r n) ≡ count r - n
    count-dequeued = omega (arith, v.prod_word, v.cons_word, v.fill, (ring_bounds r v).1)

    pub contents-dequeued : contents (dequeued r n) ≡ drop n (contents r)
    contents-dequeued = rw count-dequeued (
        items-congr r.storage r.storage r.size ((r.cons.tail + n) % u32_mod) (r.cons.tail + n)
          (count r - n)
          (λ k lt. ap r.storage (slot-wrap v.bits r.size (r.cons.tail + n) k v.is_pow v.small))
        ∙ sym (drop-items r.storage r.size r.cons.tail (count r) n held))

    pub dequeued-IsValid : IsValid (dequeued r n)
    dequeued-IsValid = record {
      bits = v.bits;
      is_pow = v.is_pow;
      small = v.small;
      masked = v.masked;
      capacity_eq = v.capacity_eq;
      prod_rest = v.prod_rest;
      cons_rest = refl;
      prod_word = v.prod_word;
      cons_word = omega arith;
      fill = omega (arith, v.fill, count-dequeued);
    }

  poll-short :
      (r : RteRing A) (n : ℕ) → count r < n → poll (contents r) n ≡ (0, count r, [], contents r)
  unfolding poll
  poll-short r n h = rw length-items (ground arith)

  poll-some :
      (r : RteRing A) (n : ℕ)
      → n ≤ count r
      → poll (contents r) n ≡ (n, count r - n, take n (contents r), drop n (contents r))
  unfolding poll
  poll-some r n h = rw length-items (ground arith)

  -- `DoDequeue` on a ring at rest always returns, and is `poll` on the values that the ring holds:
  -- the count returned, `*available`, the values put into the table and the contents left are those
  -- of the queue, and the ring is at rest again.
  pub do_dequeue_refines :
      (r : RteRing A) (t : Array A) (n : ℕ) (is_sc : Bool)
      → IsValid r
      → (s : ℕ × ℕ × Array A × RteRing A) × (do_dequeue r t n is_sc ≡ some s)
        × ((s.0, s.1, values s.2 0 s.0, contents s.3) ≡ poll (contents r) n)
        × IsValid s.3
  do_dequeue_refines r t zero is_sc v = (
    (0, count r, t, r),
    do_dequeue-none r t is_sc v,
    ground (arith, poll-some r 0 (omega arith)),
    v,
  )
  do_dequeue_refines r t (suc n) is_sc v = elim (dec_lt (count r) (suc n)) [
    | yes h ↦ (
      (0, count r, t, r),
      do_dequeue-short r t (suc n) is_sc v h,
      sym (poll-short r (suc n) h),
      v,
    )
    | no h ↦
        let held : suc n ≤ count r = omega arith in
        (
          (suc n, count r - suc n, taken r t (suc n), dequeued r (suc n)),
          do_dequeue-some r t (suc n) is_sc v (omega arith) held,
          rw (values-taken r v t (suc n) held, contents-dequeued r v t (suc n) held)
              (sym (poll-some r (suc n) held)),
          dequeued-IsValid r v t (suc n) held,
        )
  ]

  -- `DoDequeue` on a ring at rest leaves the table beyond the values that it returns, and every slot
  -- of the ring, as they were.
  pub do_dequeue_frame :
      (r : RteRing A) (t : Array A) (n : ℕ) (is_sc : Bool) (j : ℕ)
      → IsValid r
      → n ≤ j
      → (s : ℕ × ℕ × Array A × RteRing A) × (do_dequeue r t n is_sc ≡ some s)
        × (s.2 j ≡ t j)
        × (s.3.storage ≡ r.storage)
  do_dequeue_frame r t zero is_sc j v h = (_, do_dequeue-none r t is_sc v, refl, refl)
  do_dequeue_frame r t (suc n) is_sc j v h = elim (dec_lt (count r) (suc n)) [
    | yes short ↦ (_, do_dequeue-short r t (suc n) is_sc v short, refl, refl)
    | no held ↦ (
      _,
      do_dequeue-some r t (suc n) is_sc v (omega arith) (omega arith),
      taken_at r v t (suc n) (omega arith) j ∙ ground arith,
      refl,
    )
  ]
