-- ===== src/ObjectPool/History.antt =====
-- Any history of calls of the users of a pool.
use fuxi_n.Prelude.{
  ℕ, ◌≡◌, refl, ◌∙◌, List, [], ◌∷◌, ◌++◌, Option, none, some, if◌then◌else◌, pos, negsuc, eq_int,
  get_elem?, Option-cases, inl, inr,
}
use fuxi_n.Prelude.Ids.{remove_at, remove_at-perm, Nodup-ids_from}
use mathlib.Core.List.{Nodup}
use mathlib.Core.List.Perm
use fuxi_n.ObjectPool.{FlatObjectQueue, get, put}
use fuxi_n.ObjectPool.Laws.{IsShared}
use fuxi_n.ObjectPool.Sharing.{get-empty, get-IsShared, put-IsShared}

-- What the users of a pool do: take an object, or give back the one at a place of their list.
pub data Call : Type 0 where
  takes : Call
  gives_back : ℕ → Call

module _ {T : Type 0} (blank : T) where
  -- One call on a pool and the list of the held ids; `none` if it waits for ever or fails where it
  -- must not: a `Put` that does not return 0, or an id below 0.
  pub call : FlatObjectQueue T → List ℕ → Call → Option (FlatObjectQueue T × List ℕ)
  call q held takes = elim (get q) [
    | none ↦ none
    | some (got, q') ↦ elim got [
      | none ↦ some (q', held)
      | some id ↦ elim id [ pos i ↦ some (q', i ∷ held) | negsuc i ↦ none ]
    ]
  ]
  call q held (gives_back k) = elim (get_elem? held k) [
    | none ↦ some (q, held)
    | some i ↦ elim (put blank q (pos i)) [
      | none ↦ none
      | some (ret, q') ↦ if eq_int ret (pos 0) then some (q', remove_at held k) else none
    ]
  ]

  pub run : FlatObjectQueue T → List ℕ → List Call → Option (FlatObjectQueue T × List ℕ)
  run q held [] = some (q, held)
  run q held (c ∷ cs) = elim (call q held c) [ none ↦ none | some (q', held') ↦ run q' held' cs ]

  call-IsShared :
      (q : FlatObjectQueue T) (free held : List ℕ) (c : Call)
      → IsShared q free held
      → (q' : FlatObjectQueue T) × (free' held' : List ℕ) × (call q held c ≡ some (q', held'))
        × IsShared q' free' held'
        × (q'.queue_capacity ≡ q.queue_capacity)
  unfolding call
  call-IsShared q [] held takes s = (q, [], held, rw (get-empty q held s, call) refl, s, refl)
  call-IsShared q (i ∷ free) held takes s =
      let (q', e, s', _, z) = get-IsShared q i free held s in
      (q', free, i ∷ held, rw (e, call) refl, s', z)
  call-IsShared q free held (gives_back k) s = elim (Option-cases (get_elem? held k)) [
    | inl e ↦ (q, free, held, rw (e, call) refl, s, refl)
    | inr (i, e) ↦
        let (q', e', s', _, z) = put-IsShared blank q i free (remove_at held k) (moved i e) in
        (q', free ++ i ∷ [], remove_at held k, rw (e, e', call) refl, s', z)
  ]
    where
      moved : (i : ℕ) → get_elem? held k ≡ some i → IsShared q free (i ∷ remove_at held k)
      moved i e = record {
        ring_valid = s.ring_valid;
        free_eq = s.free_eq;
        small = s.small;
        room = s.room;
        shares =
            Perm.trans (Perm.append_left free (Perm.symm (remove_at-perm held k i e))) s.shares;
      }

  run-cons :
      (q q' : FlatObjectQueue T) (held held' : List ℕ) (c : Call) (cs : List Call)
      → call q held c ≡ some (q', held')
      → run q held (c ∷ cs) ≡ run q' held' cs
  unfolding run
  run-cons q q' held held' c cs e = rw (e, run)

  -- From a pool whose objects are shared out, no history of calls waits for ever or fails, the free
  -- and the held ids are still all the ids, once each, and no object is held twice.
  pub run-IsShared :
      (q : FlatObjectQueue T) (free held : List ℕ) (cs : List Call)
      → IsShared q free held
      → (q' : FlatObjectQueue T) × (free' held' : List ℕ) × (run q held cs ≡ some (q', held'))
        × IsShared q' free' held'
        × Nodup (free' ++ held')
        × (q'.queue_capacity ≡ q.queue_capacity)
  unfolding run
  run-IsShared q free held [] s = (
    q,
    free,
    held,
    refl,
    s,
    Perm.nodup (Perm.symm s.shares) (Nodup-ids_from 0 q.queue_capacity),
    refl,
  )
  run-IsShared q free held (c ∷ cs) s =
      let (q1, free1, held1, e1, s1, z1) = call-IsShared q free held c s in
      let (q2, free2, held2, e2, s2, d2, z2) = run-IsShared q1 free1 held1 cs s1 in
      (q2, free2, held2, run-cons q q1 held held1 c cs e1 ∙ e2, s2, d2, z2 ∙ z1)
