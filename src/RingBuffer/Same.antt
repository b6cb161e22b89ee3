-- ===== src/RingBuffer/Same.antt =====
-- A `RingBuffer` is a bounded queue, by the theorems on `RteRing`: the two copies do the same.
use fuxi_n.Prelude.{
  ℕ, ◌%◌, ◌^◌, ◌≤◌, ◌<◌, ◌≡◌, refl, ◌∙◌, Bool, Option, none, some, Array, [], u32_mod, ◌==◌, arith,
  IsBitCeil, Bool-cases, Option-cases, inl, inr,
}
use fuxi_n.Ring
use fuxi_n.Ring.{RteRing, HeadTail, Moved, update_tail}
use fuxi_n.Ring.Queue.{offer, poll}
use fuxi_n.Ring.Window.{values}
use fuxi_n.Ring.Rest.{IsValid, contents}
use fuxi_n.Ring.Enqueue.{do_enqueue_refines}
use fuxi_n.Ring.Dequeue.{do_dequeue_refines}
use fuxi_n.Ring.Init.{init-IsValid}
use fuxi_n.RingBuffer.{
  RingBuffer, fresh, init, move_prod_head, move_cons_head, enqueue_ptrs, dequeue_ptrs, do_enqueue,
  do_dequeue,
}

-- The pointer ring with the members of a ring of values, over its storage
abbrev pub as_buffer : RteRing ℕ → RingBuffer
as_buffer s = record {
  size = s.size;
  mask = s.mask;
  capacity = s.capacity;
  is_sp = s.is_sp;
  is_sc = s.is_sc;
  inited = s.inited;
  prod = s.prod;
  cons = s.cons;
  ring = some s.storage;
}

module _ (s : RteRing ℕ) (t : Array ℕ) (n : ℕ) (single : Bool) where
  enqueue_same : do_enqueue (as_buffer s) t n single ≡ elim (Ring.do_enqueue s t n single) [
    | none ↦ none
    | some (c, free, s') ↦ some (c, free, as_buffer s')
  ]
  unfolding do_enqueue move_prod_head enqueue_ptrs Ring.do_enqueue Ring.move_prod_head
      Ring.enqueue_values
  enqueue_same = elim (Bool-cases ((Ring.move_prod_head s.capacity s.prod s.cons n).count == 0)) [
    | inl e ↦ rw (e, do_enqueue) refl
    | inr e ↦
        rw (e, do_enqueue)
          (elim (Option-cases moved) [
            | inl f ↦ rw (f, do_enqueue) refl
            | inr (ht, f) ↦ rw (f, do_enqueue) refl
          ])
  ]
    where
      moved : Option HeadTail
      moved =
          let m : Moved = Ring.move_prod_head s.capacity s.prod s.cons n in
          update_tail m.after m.old_head m.new_head single

  dequeue_same : do_dequeue (as_buffer s) t n single ≡ elim (Ring.do_dequeue s t n single) [
    | none ↦ none
    | some (c, held, t', s') ↦ some (c, held, t', as_buffer s')
  ]
  unfolding do_dequeue move_cons_head dequeue_ptrs Ring.do_dequeue Ring.move_cons_head
      Ring.dequeue_values
  dequeue_same = elim (Bool-cases ((Ring.move_cons_head s.prod s.cons n).count == 0)) [
    | inl e ↦ rw (e, do_dequeue) refl
    | inr e ↦
        rw (e, do_dequeue)
          (elim (Option-cases moved) [
            | inl f ↦ rw (f, do_dequeue) refl
            | inr (ht, f) ↦ rw (f, do_dequeue) refl
          ])
  ]
    where
      moved : Option HeadTail
      moved =
          let m : Moved = Ring.move_cons_head s.prod s.cons n in
          update_tail m.after m.old_head m.new_head single

  -- `DoEnqueue` of pointers on a ring at rest always returns, and is `offer` on the pointers held; the
  -- ring is at rest again.
  pub do_enqueue_ptrs_refines :
      IsValid s
      → (count free : ℕ) × (s' : RteRing ℕ) × (do_enqueue (as_buffer s) t n single
          ≡ some (count, free, as_buffer s'))
        × ((count, free, contents s') ≡ offer s.size (contents s) (values t 0 n))
        × IsValid s'
  do_enqueue_ptrs_refines v =
      let ((c, free, s'), e, q, v') = do_enqueue_refines s t n single v in
      (c, free, s', enqueue_same ∙ rw e refl, q, v')

  -- `DoDequeue` of pointers on a ring at rest always returns, and is `poll` on the pointers held; the
  -- ring is at rest again.
  pub do_dequeue_ptrs_refines :
      IsValid s
      → (count held : ℕ) × (t' : Array ℕ) × (s' : RteRing ℕ) × (do_dequeue (as_buffer s) t n single
          ≡ some (count, held, t', as_buffer s'))
        × ((count, held, values t' 0 count, contents s') ≡ poll (contents s) n)
        × IsValid s'
  do_dequeue_ptrs_refines v =
      let ((c, held, t', s'), e, q, v') = do_dequeue_refines s t n single v in
      (c, held, t', s', dequeue_same ∙ rw e refl, q, v')

-- `Init` of a new ring for at most 2^31 pointers gives an empty ring at rest, of the size that
-- `bit_ceil` gives, whose slots are all null.
pub init_ptrs_lem :
    (bit_ceil : ℕ → ℕ) (allocated : Array ℕ) (num : ℕ) (is_sp is_sc : Bool) (j : ℕ)
    → IsBitCeil num (bit_ceil num)
    → num ≤ 2 ^ 31
    → j < bit_ceil num
    → (s : RteRing ℕ) × (init bit_ceil fresh allocated num is_sp is_sc ≡ as_buffer s)
      × IsValid s
      × (contents s ≡ [])
      × (s.size ≡ bit_ceil num)
      × (s.storage j ≡ 0)
unfolding init fresh Ring.init Ring.fresh Ring.placement_storage_size
init_ptrs_lem bit_ceil allocated num is_sp is_sc j c h lt =
    let (v, empty, z, _, _, _, _) =
      init-IsValid bit_ceil 8 0 allocated allocated none num is_sp is_sc c h in
    let kept : bit_ceil num % u32_mod ≡ bit_ceil num = z in
    (
      Ring.init bit_ceil 8 0 (Ring.fresh allocated) none allocated num is_sp is_sc,
      rw kept refl,
      v,
      empty,
      z,
      ground (arith, z, lt),
    )
