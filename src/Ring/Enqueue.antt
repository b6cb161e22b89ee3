-- ===== src/Ring/Enqueue.antt =====
-- `DoEnqueue` on a ring at rest: whole batches go in, in order, or nothing does.
use fuxi_n.Prelude.{
  ℕ, zero, suc, ◌+◌, ◌-◌, ◌%◌, ◌≤◌, ◌<◌, ◌≡◌, refl, sym, ◌∙◌, ◌++◌, Array, Bool, some, u32_mod,
  arith,
}
use native.Mathlib.Nat.{zero-add}
use mathlib.Core.Path.{ap₂}
use mathlib.Core.List.{append-nil}
use native.Mathlib.Decide.{dec_lt}
use fuxi_n.Ring.Queue.{offer}
use fuxi_n.Ring.{RteRing, update_tail, move_prod_head, do_enqueue}
use fuxi_n.Ring.{enqueue_values}
use fuxi_n.Ring.Window.{
  values, length-items, length-values, items-add, items-congr, items-eq-values, enqueue_values-new,
  enqueue_values-old, enqueue_values-outside,
}
use fuxi_n.Ring.Rest.{IsValid, count, contents, ring_bounds, ahead, behind}

module _ {A : Type 0} where
  -- What a batch leaves behind in the ring.
  abbrev pub enqueued : RteRing A → Array A → ℕ → RteRing A
  enqueued r t n =
      let next = (r.prod.tail + n) % u32_mod in
      record r {
        prod = record { head = next; tail = next };
        storage = enqueue_values r.size r.mask r.storage r.prod.tail t n;
      }

  do_enqueue-full :
      (r : RteRing A) (t : Array A) (n : ℕ) (is_sp : Bool)
      → IsValid r
      → r.size - count r < n
      → do_enqueue r t n is_sp ≡ some (0, r.size - count r, r)
  unfolding do_enqueue move_prod_head
  do_enqueue-full r t n is_sp v h = ground (arith, ring_bounds r v)

  do_enqueue-none :
      (r : RteRing A) (t : Array A) (is_sp : Bool)
      → IsValid r
      → do_enqueue r t 0 is_sp ≡ some (0, r.size - count r, r)
  unfolding do_enqueue move_prod_head
  do_enqueue-none r t is_sp v = ground (arith, ring_bounds r v)

  pub do_enqueue-some :
      (r : RteRing A) (t : Array A) (n : ℕ) (is_sp : Bool)
      → IsValid r
      → 0 < n
      → n ≤ r.size - count r
      → do_enqueue r t n is_sp ≡ some (n, r.size - count r - n, enqueued r t n)
  unfolding do_enqueue move_prod_head update_tail
  do_enqueue-some r t n is_sp v pos h = ground (arith, ring_bounds r v)

  module _ (r : RteRing A) (v : IsValid r) (t : Array A) (n : ℕ) (room : n ≤ r.size - count r) where
    count-enqueued : count (enqueued r t n) ≡ count r + n
    count-enqueued = omega (arith, v.prod_word, v.cons_word, v.fill, (ring_bounds r v).1)

    enqueued-old :
        (k : ℕ)
        → k < count r
        → (enqueued r t n).storage ((r.cons.tail + k) % r.size)
          ≡ r.storage ((r.cons.tail + k) % r.size)
    enqueued-old k lt =
        let same : (r.prod.tail + (r.size - count r + k)) % r.size ≡ (r.cons.tail + k) % r.size =
          behind r v k lt in
        rw same at (
          enqueue_values-old v.bits r.size r.mask v.is_pow v.small v.masked r.storage t r.prod.tail
            n (omega arith) (r.size - count r + k) (omega arith) (omega (arith, v.fill)))

    enqueued-new :
        (k : ℕ)
        → k < n
        → (enqueued r t n).storage ((r.cons.tail + count r + k) % r.size) ≡ t (0 + k)
    enqueued-new k lt =
        rw (← ahead r v k, zero-add)
          (enqueue_values-new v.bits r.size r.mask v.is_pow v.small v.masked r.storage t r.prod.tail
            n (omega arith) k lt)

    pub contents-enqueued : contents (enqueued r t n) ≡ contents r ++ values t 0 n
    contents-enqueued = rw count-enqueued (
        items-add (enqueued r t n).storage r.size r.cons.tail (count r) n
        ∙ ap₂ ◌++◌
            (items-congr (enqueued r t n).storage r.storage r.size r.cons.tail r.cons.tail (count r)
              enqueued-old)
            (items-eq-values (enqueued r t n).storage t r.size (r.cons.tail + count r) 0 n
              enqueued-new))

  module _ (r : RteRing A) (v : IsValid r) (t : Array A) (n : ℕ) (room : n ≤ r.size - count r) where
    pub enqueued-IsValid : IsValid (enqueued r t n)
    enqueued-IsValid = record {
      bits = v.bits;
      is_pow = v.is_pow;
      small = v.small;
      masked = v.masked;
      capacity_eq = v.capacity_eq;
      prod_rest = refl;
      cons_rest = v.cons_rest;
      prod_word = omega arith;
      cons_word = v.cons_word;
      fill = omega (arith, v.fill, count-enqueued r v t n room);
    }

  offer-full :
      (r : RteRing A) (t : Array A) (n : ℕ)
      → r.size - count r < n
      → offer r.size (contents r) (values t 0 n) ≡ (0, r.size - count r, contents r)
  unfolding offer
  offer-full r t n h = rw (length-items, length-values) (ground arith)

  offer-room :
      (r : RteRing A) (t : Array A) (n : ℕ)
      → n ≤ r.size - count r
      → offer r.size (contents r) (values t 0 n)
        ≡ (n, r.size - count r - n, contents r ++ values t 0 n)
  unfolding offer
  offer-room r t n h = rw (length-items, length-values) (ground arith)

  -- `DoEnqueue` on a ring at rest always returns, and is `offer` on the values that the ring holds:
  -- the count returned, `*free_space` and the contents left are those of the queue, and the ring is
  -- at rest again.
  pub do_enqueue_refines :
      (r : RteRing A) (t : Array A) (n : ℕ) (is_sp : Bool)
      → IsValid r
      → (s : ℕ × ℕ × RteRing A) × (do_enqueue r t n is_sp ≡ some s)
        × ((s.0, s.1, contents s.2) ≡ offer r.size (contents r) (values t 0 n))
        × IsValid s.2
  do_enqueue_refines r t zero is_sp v = (
    (0, r.size - count r, r),
    do_enqueue-none r t is_sp v,
    ground (arith, offer-room r t 0 (omega arith), append-nil (contents r)),
    v,
  )
  do_enqueue_refines r t (suc n) is_sp v = elim (dec_lt (r.size - count r) (suc n)) [
    | yes h ↦ (
      (0, r.size - count r, r),
      do_enqueue-full r t (suc n) is_sp v h,
      sym (offer-full r t (suc n) h),
      v,
    )
    | no h ↦
        let fits : suc n ≤ r.size - count r = omega arith in
        (
          (suc n, r.size - count r - suc n, enqueued r t (suc n)),
          do_enqueue-some r t (suc n) is_sp v (omega arith) fits,
          rw (contents-enqueued r v t (suc n) fits) (sym (offer-room r t (suc n) fits)),
          enqueued-IsValid r v t (suc n) fits,
        )
  ]

  -- `DoEnqueue` on a ring at rest changes no offset from the ring's size on.
  pub do_enqueue_frame :
      (r : RteRing A) (t : Array A) (n : ℕ) (is_sp : Bool) (j : ℕ)
      → IsValid r
      → r.size ≤ j
      → (s : ℕ × ℕ × RteRing A) × (do_enqueue r t n is_sp ≡ some s) × (s.2.storage j ≡ r.storage j)
  do_enqueue_frame r t zero is_sp j v h = (_, do_enqueue-none r t is_sp v, refl)
  do_enqueue_frame r t (suc n) is_sp j v h = elim (dec_lt (r.size - count r) (suc n)) [
    | yes full ↦ (_, do_enqueue-full r t (suc n) is_sp v full, refl)
    | no room ↦ (
      _,
      do_enqueue-some r t (suc n) is_sp v (omega arith) (omega arith),
      enqueue_values-outside v.bits r.size r.mask v.is_pow v.small v.masked r.storage t r.prod.tail
          (suc n) (omega arith) j h,
    )
  ]
