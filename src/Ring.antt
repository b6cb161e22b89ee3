-- ===== src/Ring.antt =====
-- The state and the operations of `RteRing<T>` (src/fuxi/base/rte_ring.h, rte_ring.hpp) and
-- `UpdateTail` (src/fuxi/base/ring_common.cc), the bounded ring behind the free lists of the shared
-- memory. Each call runs with no other thread between its steps.
-- A `uint32_t` is a number below 2^32, wrapped where the code computes it.
pub mod Copy
pub mod Window
pub mod Queue
pub mod Rest
pub mod Enqueue
pub mod Dequeue
pub mod One
pub mod Init
pub mod Fill
use fuxi_n.Prelude.{
  ℕ, ◌+◌, ◌-◌, ◌*◌, ◌/◌, ◌%◌, bit_and, Bool, true, false, Option, none, some, Array, u32_mod,
  u64_mod, ltb, ◌==◌, if◌then◌else◌, ◌||◌,
}
use Copy.{copy_run, copy_unrolled}

-- `ring_headtail`
pub record HeadTail : Type 0 where
  pub head : ℕ
  pub tail : ℕ

pub record RteRing (A : Type 0) : Type 0 where
  pub size : ℕ
  pub mask : ℕ
  pub capacity : ℕ
  pub is_sp : Bool
  pub is_sc : Bool
  pub inited : Bool
  pub prod : HeadTail
  pub cons : HeadTail
  pub storage : Array A
  pub use_outer_buffer : Bool

-- The spin of a shared ring ends only if the tail is the caller's: `none` is a wait for ever.
pub update_tail : HeadTail → ℕ → ℕ → Bool → Option HeadTail
update_tail ht old_val new_val single =
    if single || ht.tail == old_val then some (record ht { tail = new_val }) else none

-- What `MoveProdHead` and `MoveConsHead` return: `n`, and their out parameters. `new_head` is
-- written on success only; `entries` is `*free_entries` of the one and `*entries` of the other.
pub record Moved : Type 0 where
  pub count : ℕ
  pub old_head : ℕ
  pub new_head : ℕ
  pub entries : ℕ
  pub after : HeadTail

-- One round of the loop. With no other thread the compare-and-swap of a shared ring finds the head
-- that was loaded, so that both ways of storing the head succeed in the first round.
unfoldable pub move_prod_head : ℕ → HeadTail → HeadTail → ℕ → Moved
move_prod_head capacity prod cons n =
    let free = (capacity + cons.tail + u32_mod - prod.head) % u32_mod in
    let max = if ltb free n then 0 else n in
    let next = (prod.head + max) % u32_mod in
    if max == 0
    then record {
      count = 0;
      old_head = prod.head;
      new_head = prod.head;
      entries = free;
      after = prod;
    }
    else record {
      count = max;
      old_head = prod.head;
      new_head = next;
      entries = free;
      after = record prod { head = next };
    }

unfoldable pub move_cons_head : HeadTail → HeadTail → ℕ → Moved
move_cons_head prod cons n =
    let held = (prod.tail + u32_mod - cons.head) % u32_mod in
    let max = if ltb held n then 0 else n in
    let next = (cons.head + max) % u32_mod in
    if max == 0
    then record {
      count = 0;
      old_head = cons.head;
      new_head = cons.head;
      entries = held;
      after = cons;
    }
    else record {
      count = max;
      old_head = cons.head;
      new_head = next;
      entries = held;
      after = record cons { head = next };
    }

module _ {A : Type 0} where
  unfoldable pub enqueue_values : ℕ → ℕ → Array A → ℕ → Array A → ℕ → Array A
  enqueue_values size mask ring prod_head obj_table n =
      let idx = bit_and prod_head mask in
      let upper = size - idx in
      if ltb ((idx + n) % u32_mod) size
      then copy_unrolled n ring idx obj_table 0
      else copy_run (n - upper) (copy_run upper ring idx obj_table 0) 0 obj_table upper

  -- The result is `obj_table` after the call.
  unfoldable pub dequeue_values : ℕ → ℕ → Array A → ℕ → Array A → ℕ → Array A
  dequeue_values size mask ring cons_head obj_table n =
      let idx = bit_and cons_head mask in
      let upper = size - idx in
      if ltb ((idx + n) % u32_mod) size
      then copy_unrolled n obj_table 0 ring idx
      else copy_run (n - upper) (copy_run upper obj_table 0 ring idx) upper ring 0

  -- What `DoEnqueue` returns, `*free_space`, and the ring after the call.
  unfoldable pub do_enqueue : RteRing A → Array A → ℕ → Bool → Option (ℕ × ℕ × RteRing A)
  do_enqueue r obj_table n is_sp =
      let m = move_prod_head r.capacity r.prod r.cons n in
      if m.count == 0
      then some (0, m.entries, record r { prod = m.after })
      else elim (update_tail m.after m.old_head m.new_head is_sp) [
        | none ↦ none
        | some prod ↦ some (
          m.count,
          (m.entries + u32_mod - m.count) % u32_mod,
          record r {
            prod = prod;
            storage = enqueue_values r.size r.mask r.storage m.old_head obj_table m.count;
          },
        )
      ]

  -- What `DoDequeue` returns, `*available`, `obj_table` after the call, and the ring.
  unfoldable pub do_dequeue : RteRing A → Array A → ℕ → Bool → Option (ℕ × ℕ × Array A × RteRing A)
  do_dequeue r obj_table n is_sc =
      let m = move_cons_head r.prod r.cons n in
      if m.count == 0
      then some (0, m.entries, obj_table, record r { cons = m.after })
      else elim (update_tail m.after m.old_head m.new_head is_sc) [
        | none ↦ none
        | some cons ↦ some (
          m.count,
          (m.entries + u32_mod - m.count) % u32_mod,
          dequeue_values r.size r.mask r.storage m.old_head obj_table m.count,
          record r { cons = cons },
        )
      ]

-- `AlignmentSize()`
abbrev pub alignment : ℕ
alignment = 128

-- The constructor's members: `storage` is what lies behind the pointer that `init` will set.
unfoldable pub fresh : {A : Type 0} → Array A → RteRing A
fresh memory = record {
  size = 0;
  mask = 0;
  capacity = 0;
  is_sp = true;
  is_sc = true;
  inited = false;
  prod = record { head = 0; tail = 0 };
  cons = record { head = 0; tail = 0 };
  storage = memory;
  use_outer_buffer = false;
}

-- `absl::bit_ceil`, the size of a value, and the value that `bzero` leaves.
module _ {A : Type 0} (bit_ceil : ℕ → ℕ) (value_size : ℕ) (zeroed : A) where
  -- `x & -alignment` clears the bits below 128.
  unfoldable pub placement_storage_size : ℕ → ℕ
  placement_storage_size num =
      (bit_ceil num * value_size + alignment - 1) % u64_mod / alignment * alignment

  -- `placement` is the memory of a placement storage with one non-null buffer, or `none`, where
  -- `allocated` is what `aligned_alloc` returns. Only whole values below `buffer_size` are zeroed.
  unfoldable pub init : RteRing A → Option (Array A) → Array A → ℕ → Bool → Bool → RteRing A
  unfolding placement_storage_size
  init r placement allocated object_num is_sp is_sc =
      let size = bit_ceil object_num % u32_mod in
      let zeroed_values = placement_storage_size object_num / value_size in
      let cleared =
        λ (memory : Array A) (j : ℕ). if ltb j zeroed_values then zeroed else memory j in
      if r.inited then r else record r {
        size = size;
        mask = (size + u32_mod - 1) % u32_mod;
        capacity = size;
        is_sp = is_sp;
        is_sc = is_sc;
        inited = true;
        storage = elim placement [ none ↦ cleared allocated | some buffer ↦ cleared buffer ];
        use_outer_buffer = elim placement [ none ↦ r.use_outer_buffer | some buffer ↦ true ];
      }
