-- ===== src/ObjectPool.antt =====
-- src/fuxi/base/flat_object_queue.h: `FlatObjectQueue<T>`, a pool of objects in a given memory whose
-- free ones are listed in a ring of ids. A pointer to an object is its index from `storage_`.
pub mod Laws
pub mod Sharing
pub mod History
use fuxi_n.Prelude.{
  ℕ, zero, suc, ◌+◌, ◌%◌, ◌^◌, u32_mod, ◌≤◌, ◌<◌, Bool, true, false, Option, none, some, Array,
  update, ltb, ◌==◌, if◌then◌else◌, ◌||◌, ℤ, pos, negsuc, minus_one,
}
use fuxi_n.Ring
use fuxi_n.Ring.{RteRing}
use fuxi_n.Ring.Fill.{enqueue_each}

pub record FlatObjectQueue (T : Type 0) : Type 0 where
  pub inited : Bool
  pub queue_capacity : ℕ
  pub free_ids : RteRing ℤ
  pub storage : Array T

-- The constructor's members
abbrev pub new_pool : {T : Type 0} → Array ℤ → Array T → FlatObjectQueue T
new_pool memory objects = record {
  inited = false;
  queue_capacity = 0;
  free_ids = Ring.fresh memory;
  storage = objects;
}

-- `&idx` as a table of one value
abbrev pub one_id : ℤ → Array ℤ
one_id id j = id

-- `(int32_t)num` for a `size_t`, where 0 stands for a negative one: a loop up to it makes no round,
-- and no index is below it.
pub int32_bound : ℕ → ℕ
int32_bound num = let word = num % u32_mod in if ltb word (2 ^ 31) then word else 0

module _ {T : Type 0} (bit_ceil : ℕ → ℕ) (blank : T) where
  -- `fields` is `storage.field_buffers`: the memory of the ids and that of the objects, if there
  -- are two. The ring of ids gets the first. `none` stands for a wait for ever.
  pub initialize :
      FlatObjectQueue T → ℕ → Option (Array ℤ × Array T) → Option (Bool × FlatObjectQueue T)
  initialize q num fields = if q.inited then some (true, q) else elim fields [
    | none ↦ some (false, q)
    | some (ids, objects) ↦
        let built = λ (j : ℕ). if ltb j num then blank else objects j in
        let empty =
          Ring.init bit_ceil 4 (pos 0) q.free_ids (some ids) ids (num % u32_mod) false false in
        elim (enqueue_each pos (int32_bound num) 0 empty) [
          | none ↦ none
          | some ring ↦ some (
            true,
            record { inited = true; queue_capacity = num; free_ids = ring; storage = built },
          )
        ]
  ]

module _ {T : Type 0} where
  -- A null pointer, or the index of the object. `id` starts at -1.
  pub get : FlatObjectQueue T → Option (Option ℤ × FlatObjectQueue T)
  get q = elim (Ring.do_dequeue q.free_ids (one_id minus_one) 1 true) [
    | none ↦ none
    | some (ret, _, id, ring) ↦ some (
        if ret == 0
        then (none, record q { free_ids = ring })
        else (some (id 0), record q { free_ids = ring }))
  ]

  -- The destructor and the constructor leave the object blank.
  pub put : T → FlatObjectQueue T → ℤ → Option (ℤ × FlatObjectQueue T)
  put blank q (negsuc _) = some (minus_one, q)
  put blank q (pos idx) =
      let reset = update q.storage idx blank in
      if ltb idx (int32_bound q.queue_capacity)
      then elim (Ring.do_enqueue q.free_ids (one_id (pos idx)) 1 true) [
        | none ↦ none
        | some (ret, _, ring) ↦
            some
              (if ret == 1 then pos 0 else minus_one, record q { free_ids = ring; storage = reset })
      ]
      else some (minus_one, q)
