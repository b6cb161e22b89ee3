-- ===== src/Ring/One.antt =====
-- The calls that move one value, as the free lists make them.
use fuxi_n.Prelude.{
  ℕ, ◌-◌, ◌≤◌, ◌<◌, ◌≡◌, refl, sym, ap, ◌∙◌, List, [], ◌∷◌, ◌++◌, Array, Bool, some, arith, length,
  take, drop,
}
use fuxi_n.Ring.{RteRing, do_enqueue, do_dequeue}
use fuxi_n.Ring.Window.{length-items}
use fuxi_n.Ring.Rest.{IsValid, count, contents}
use fuxi_n.Ring.Enqueue.{enqueued, do_enqueue-some, contents-enqueued, enqueued-IsValid}
use fuxi_n.Ring.Dequeue.{
  dequeued, taken, do_dequeue-short, do_dequeue-some, values-taken, contents-dequeued,
  dequeued-IsValid,
}

module _ {A : Type 0} (r : RteRing A) (v : IsValid r) where
  -- A value goes in where there is room.
  pub enqueue_one :
      (t : Array A) (is_sp : Bool)
      → count r < r.size
      → (r' : RteRing A) × (do_enqueue r t 1 is_sp ≡ some (1, r.size - count r - 1, r'))
        × (contents r' ≡ contents r ++ (t 0 ∷ []))
        × IsValid r'
        × (r'.size ≡ r.size)
  enqueue_one t is_sp room = (
    enqueued r t 1,
    do_enqueue-some r t 1 is_sp v (omega arith) (omega arith),
    contents-enqueued r v t 1 (omega arith),
    enqueued-IsValid r v t 1 (omega arith),
    refl,
  )

  -- An empty ring gives nothing and is not changed.
  pub dequeue_one-empty :
      (t : Array A) (is_sc : Bool) → contents r ≡ [] → do_dequeue r t 1 is_sc ≡ some (0, 0, t, r)
  dequeue_one-empty t is_sc e =
      let empty : count r ≡ 0 =
        sym (length-items r.storage r.size r.cons.tail (count r)) ∙ ap length e in
      do_dequeue-short r t 1 is_sc v (omega arith) ∙ ap (λ c. some (0, c, t, r)) empty

  -- The oldest value comes out.
  pub dequeue_one :
      (t : Array A) (is_sc : Bool) (x : A) (rest : List A)
      → contents r ≡ x ∷ rest
      → (left : ℕ) × (t' : Array A) × (r' : RteRing A) × (do_dequeue r t 1 is_sc
          ≡ some (1, left, t', r'))
        × (t' 0 ≡ x)
        × (contents r' ≡ rest)
        × IsValid r'
        × (r'.size ≡ r.size)
  dequeue_one t is_sc x rest e = (
    count r - 1,
    taken r t 1,
    dequeued r 1,
    do_dequeue-some r t 1 is_sc v (omega arith) held,
    cc (first),
    contents-dequeued r v t 1 held ∙ ap (drop 1) e,
    dequeued-IsValid r v t 1 held,
    refl,
  )
    where
      held : 1 ≤ count r
      held = omega (arith, ap length e, length-items r.storage r.size r.cons.tail (count r))

      first : taken r t 1 0 ∷ [] ≡ x ∷ []
      first = values-taken r v t 1 held ∙ ap (take 1) e
