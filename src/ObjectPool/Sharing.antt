-- ===== src/ObjectPool/Sharing.antt =====
-- `Get` and `Put` move one id between the free ones and the held ones, over any history of calls.
use fuxi_n.Prelude.{
  ℕ, ◌<◌, ◌≡◌, refl, sym, ap, ◌∙◌, List, [], ◌∷◌, ◌++◌, map, true, none, some, arith, length,
  length-append, length-map, lt→ltb, update, pos, minus_one,
}
use fuxi_n.Prelude.Ids.{length-perm, length-ids_from, mem-ids_from}
use mathlib.Core.List.{perm_middle, append_assoc, map-append, mem-append_right, mem-cons_self}
use mathlib.Core.List.Perm
use fuxi_n.Ring.Window.{length-items}
use fuxi_n.Ring.Rest.{count}
use fuxi_n.Ring.One.{enqueue_one, dequeue_one-empty, dequeue_one}
use fuxi_n.ObjectPool.{FlatObjectQueue, one_id, get, put}
use fuxi_n.ObjectPool.Laws.{IsShared, int32_bound_lem}

module _ {T : Type 0} where
  -- With no free id `Get` returns null and changes nothing.
  pub get-empty :
      (q : FlatObjectQueue T) (held : List ℕ) → IsShared q [] held → get q ≡ some (none, q)
  unfolding get
  get-empty q held s =
      rw (dequeue_one-empty q.free_ids s.ring_valid (one_id minus_one) true s.free_eq, get) refl

  -- With a free id `Get` returns the object that has been free longest, which is held from then
  -- on; no object is touched.
  pub get-IsShared :
      (q : FlatObjectQueue T) (i : ℕ) (free held : List ℕ)
      → IsShared q (i ∷ free) held
      → (q' : FlatObjectQueue T) × (get q ≡ some (some (pos i), q'))
        × IsShared q' free (i ∷ held)
        × (q'.storage ≡ q.storage)
        × (q'.queue_capacity ≡ q.queue_capacity)
  unfolding get
  get-IsShared q i free held s =
      let (left, t, r, e, first, c, v, z) =
        dequeue_one q.free_ids s.ring_valid (one_id minus_one) true (pos i) (map pos free)
          s.free_eq in
      (
        record q { free_ids = r },
        rw (e, get) (rw first refl),
        record {
          ring_valid = v;
          free_eq = c;
          small = s.small;
          room = omega (arith, s.room);
          shares = Perm.trans (perm_middle free held) s.shares;
        },
        refl,
        refl,
      )

  -- The ring has room for every id that is held.
  held-room :
      (q : FlatObjectQueue T) (free : List ℕ) (i : ℕ) (held : List ℕ)
      → IsShared q free (i ∷ held)
      → count q.free_ids < q.free_ids.size
  held-room q free i held s = omega (
    arith,
    s.room,
    length-perm s.shares,
    length-append free (i ∷ held),
    length-ids_from 0 q.queue_capacity,
    ap length s.free_eq,
    length-map free pos,
    length-items q.free_ids.storage q.free_ids.size q.free_ids.cons.tail (count q.free_ids),
  )

  -- A held id is in the range that `Put` checks.
  held-below :
      (q : FlatObjectQueue T) (free : List ℕ) (i : ℕ) (held : List ℕ)
      → IsShared q free (i ∷ held)
      → i < q.queue_capacity
  held-below q free i held s = omega (
    arith,
    mem-ids_from 0 q.queue_capacity i
        (Perm.subset s.shares i (mem-append_right free mem-cons_self)),
  )

  -- `Put` of a held object returns 0, makes the object blank and its id the last of the free
  -- ones; no other object is touched.
  pub put-IsShared :
      (blank : T) (q : FlatObjectQueue T) (i : ℕ) (free held : List ℕ)
      → IsShared q free (i ∷ held)
      → (q' : FlatObjectQueue T) × (put blank q (pos i) ≡ some (pos 0, q'))
        × IsShared q' (free ++ i ∷ []) held
        × (q'.storage ≡ update q.storage i blank)
        × (q'.queue_capacity ≡ q.queue_capacity)
  unfolding put
  put-IsShared blank q i free held s =
      let (r, e, c, v, z) =
        enqueue_one q.free_ids s.ring_valid (one_id (pos i)) true (held-room q free i held s) in
      (
        record q { free_ids = r; storage = update q.storage i blank },
        rw
            (
              int32_bound_lem q.queue_capacity s.small,
              lt→ltb i q.queue_capacity (held-below q free i held s),
              e,
            )
            refl,
        record {
          ring_valid = v;
          free_eq = c ∙ ap (λ c. c ++ pos i ∷ []) s.free_eq ∙ sym (map-append pos free (i ∷ []));
          small = s.small;
          room = omega (arith, s.room);
          shares = rw (append_assoc free (i ∷ []) held) s.shares;
        },
        refl,
        refl,
      )
