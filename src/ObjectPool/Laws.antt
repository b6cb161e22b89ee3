-- ===== src/ObjectPool/Laws.antt =====
-- A pool and its users share out the ids: each object is free or held by one user, never both.
use fuxi_n.Prelude.{
  ℕ, ◌<◌, ◌%◌, ◌∙◌, u32_mod, ◌≤◌, ◌^◌, ◌≡◌, refl, List, [], ◌++◌, map, Array, true, false, some,
  arith, ltb, if◌then◌else◌, ℤ, pos, IsBitCeil,
}
use fuxi_n.Prelude.Ids.{ids_from}
use mathlib.Core.List.{Perm, append-nil}
use mathlib.Core.List.Perm
use mathlib.Core.Path.{ap₂}
use fuxi_n.Ring
use fuxi_n.Ring.{RteRing}
use fuxi_n.Ring.Rest.{IsValid, contents}
use fuxi_n.Ring.Fill.{enqueue_each, enqueue_each-empty}
use fuxi_n.Ring.Init.{init-IsValid}
use fuxi_n.ObjectPool.{FlatObjectQueue, new_pool, initialize, int32_bound}

-- `free` lists the free ids, oldest first, and `held` those that users hold.
pub record IsShared {T : Type 0} (q : FlatObjectQueue T) (free held : List ℕ) : Type 0 where
  pub ring_valid : IsValid q.free_ids
  pub free_eq : contents q.free_ids ≡ map pos free
  pub small : q.queue_capacity < 2 ^ 31
  pub room : q.queue_capacity ≤ q.free_ids.size
  pub shares : Perm (free ++ held) (ids_from 0 q.queue_capacity)

pub int32_bound_lem : (num : ℕ) → num < 2 ^ 31 → int32_bound num ≡ num
unfolding int32_bound
int32_bound_lem num h = ground arith

module _ {T : Type 0} (bit_ceil : ℕ → ℕ) (blank : T) where
  -- `Initialize` of a new pool of less than 2^31 objects returns `true`: every id is free, in order,
  -- and no object is held.
  pub initialize-IsShared :
      (memory : Array ℤ) (objects : Array T) (ids : Array ℤ) (things : Array T) (num : ℕ)
      → IsBitCeil num (bit_ceil num)
      → num < 2 ^ 31
      → (q : FlatObjectQueue T) × (initialize bit_ceil blank
            (new_pool memory objects)
            num
            (some (ids, things))
          ≡ some (true, q))
        × IsShared q (ids_from 0 num) []
        × (q.queue_capacity ≡ num)
  unfolding initialize
  initialize-IsShared memory objects ids things num c h =
      let (v, empty, z, fits, _, _, _) =
        init-IsValid bit_ceil 4 (pos 0) memory ids (some ids) num false false c
          (omega (arith, h)) in
      let (r, e, c', v', z') = enqueue_each-empty pos num built v empty (omega arith) in
      (
        record { inited = true; queue_capacity = num; free_ids = r; storage = objects_built },
        rw (full r e, initialize) refl,
        record {
          ring_valid = v';
          free_eq = c';
          small = h;
          room = omega arith;
          shares = rw append-nil (Perm.refl _);
        },
        refl,
      )
    where
      built : RteRing ℤ
      built = Ring.init bit_ceil 4 (pos 0) (Ring.fresh memory) (some ids) ids num false false

      kept : num % u32_mod ≡ num
      kept = omega arith

      ring_of : ℕ → RteRing ℤ
      ring_of n = Ring.init bit_ceil 4 (pos 0) (Ring.fresh memory) (some ids) ids n false false

      full :
          (r : RteRing ℤ)
          → enqueue_each pos num 0 built ≡ some r
          → enqueue_each pos (int32_bound num) 0 (ring_of (num % u32_mod)) ≡ some r
      full r e = ap₂ (λ k n. enqueue_each pos k 0 (ring_of n)) (int32_bound_lem num h) kept ∙ e

      objects_built : Array T
      objects_built j = if ltb j num then blank else things j
