-- ===== src/Ring/Fill.antt =====
-- The loop that fills a free list: it enqueues the ids of all objects, one after the other.
use fuxi_n.Prelude.{
  ℕ, zero, suc, ◌+◌, ◌≤◌, ◌≡◌, refl, sym, ap, ◌∙◌, List, [], ◌∷◌, ◌++◌, map, true, Option, none,
  some, arith, length, length-append,
}
use fuxi_n.Prelude.Ids.{ids_from}
use mathlib.Core.List.{append-nil, append_assoc}
use fuxi_n.Ring.{RteRing, do_enqueue}
use fuxi_n.Ring.Window.{length-items}
use fuxi_n.Ring.Rest.{IsValid, count, contents}
use fuxi_n.Ring.One.{enqueue_one}

module _ {A : Type 0} (id : ℕ → A) where
  -- `for (; idx < num; ++idx) DoEnqueue(&idx, 1, nullptr);` from `idx` on, by the rounds that it
  -- makes. A return other than 1 is ignored. The producer's mode is the default `true`.
  pub enqueue_each : ℕ → ℕ → RteRing A → Option (RteRing A)
  enqueue_each zero idx r = some r
  enqueue_each (suc rounds) idx r = elim (do_enqueue r (λ (j : ℕ). id idx) 1 true) [
    | none ↦ none
    | some (_, _, r') ↦ enqueue_each rounds (idx + 1) r'
  ]

  enqueue_each-suc :
      (n s c f : ℕ) (r r' : RteRing A)
      → do_enqueue r (λ (j : ℕ). id s) 1 true ≡ some (c, f, r')
      → enqueue_each (suc n) s r ≡ enqueue_each n (s + 1) r'
  unfolding enqueue_each
  enqueue_each-suc n s c f r r' e = rw (e, enqueue_each)

  -- With room for them, the ids are added in order.
  pub enqueue_each_lem :
      (n s : ℕ) (r : RteRing A) (old : List A)
      → IsValid r
      → contents r ≡ old
      → count r + n ≤ r.size
      → (r' : RteRing A) × (enqueue_each n s r ≡ some r')
        × (contents r' ≡ old ++ map id (ids_from s n))
        × IsValid r'
        × (r'.size ≡ r.size)
  unfolding enqueue_each
  enqueue_each_lem zero s r old v e h = (r, refl, e ∙ sym (append-nil old), v, refl)
  enqueue_each_lem (suc n) s r old v e h =
      let (r1, e1, c1, v1, z1) = enqueue_one r v (λ j. id s) true (omega arith) in
      let len : count r1 ≡ count r + 1 = counted r1 c1 in
      let (r2, e2, c2, v2, z2) =
        enqueue_each_lem n (s + 1) r1 (old ++ id s ∷ []) v1 (c1 ∙ ap (λ c. c ++ id s ∷ []) e)
          (omega arith) in
      (
        r2,
        enqueue_each-suc n s _ _ r r1 e1 ∙ e2,
        c2 ∙ append_assoc old (id s ∷ []) (map id (ids_from (s + 1) n)),
        v2,
        z2 ∙ z1,
      )
    where
      counted : (r1 : RteRing A) → contents r1 ≡ contents r ++ id s ∷ [] → count r1 ≡ count r + 1
      counted r1 c = omega (
        arith,
        ap length c,
        length-append (contents r) (id s ∷ []),
        length-items r.storage r.size r.cons.tail (count r),
        length-items r1.storage r1.size r1.cons.tail (count r1),
      )

  -- An empty ring with room for all takes the ids from 0 on.
  pub enqueue_each-empty :
      (n : ℕ) (r : RteRing A)
      → IsValid r
      → contents r ≡ []
      → n ≤ r.size
      → (r' : RteRing A) × (enqueue_each n 0 r ≡ some r')
        × (contents r' ≡ map id (ids_from 0 n))
        × IsValid r'
        × (r'.size ≡ r.size)
  enqueue_each-empty n r v empty h =
      enqueue_each_lem n 0 r [] v empty
        (omega (arith, ap length empty, length-items r.storage r.size r.cons.tail (count r)))
