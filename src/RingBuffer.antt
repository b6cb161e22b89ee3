-- ===== src/RingBuffer.antt =====
-- src/fuxi/base/ring_buffer.h and ring_buffer.cc: the bounded ring of pointers, a second copy of the
-- code of `RteRing` that owns its buffer. A pointer is a number, 0 the null pointer. Each call runs
-- with no other thread between its steps.
pub mod Same
use fuxi_n.Prelude.{
  ℕ, ◌+◌, ◌-◌, ◌*◌, ◌/◌, ◌%◌, bit_and, Bool, true, false, Option, none, some, Array, u32_mod,
  u64_mod, ltb, ◌==◌, if◌then◌else◌,
}
use fuxi_n.Ring.{HeadTail, Moved, update_tail, alignment}
use fuxi_n.Ring.Copy.{copy_run, copy_unrolled}

pub record RingBuffer : Type 0 where
  pub size : ℕ
  pub mask : ℕ
  pub capacity : ℕ
  pub is_sp : Bool
  pub is_sc : Bool
  pub inited : Bool
  pub prod : HeadTail
  pub cons : HeadTail
  pub ring : Option (Array ℕ)

-- `RingBuffer::RingBuffer()`
pub fresh : RingBuffer
fresh = record {
  size = 0;
  mask = 0;
  capacity = 0;
  is_sp = true;
  is_sc = true;
  inited = false;
  prod = record { head = 0; tail = 0 };
  cons = record { head = 0; tail = 0 };
  ring = none;
}

-- `Init`, where `bit_ceil` is `absl::bit_ceil` of a `uint32_t`, and `allocated` the memory that
-- `aligned_alloc` returns, of which whole pointers below `buffer_size` are cleared.
pub init : (ℕ → ℕ) → RingBuffer → Array ℕ → ℕ → Bool → Bool → RingBuffer
init bit_ceil r allocated min_size is_sp is_sc =
    let size = bit_ceil min_size in
    let buffer_size = (size * 8 + alignment - 1) % u64_mod / alignment * alignment in
    if r.inited then r else record r {
      size = size;
      mask = (size + u32_mod - 1) % u32_mod;
      capacity = size;
      is_sp = is_sp;
      is_sc = is_sc;
      inited = true;
      ring = some (λ (j : ℕ). if ltb j (buffer_size / 8) then 0 else allocated j);
    }

-- One round of each loop, which is the last with no other thread.
pub move_prod_head : RingBuffer → ℕ → Moved
move_prod_head r n =
    let free_entries = (r.capacity + r.cons.tail + u32_mod - r.prod.head) % u32_mod in
    let moved = if ltb free_entries n then 0 else n in
    let new_head = (r.prod.head + moved) % u32_mod in
    if moved == 0
    then record {
      count = 0;
      old_head = r.prod.head;
      new_head = r.prod.head;
      entries = free_entries;
      after = r.prod;
    }
    else record {
      count = moved;
      old_head = r.prod.head;
      new_head = new_head;
      entries = free_entries;
      after = record r.prod { head = new_head };
    }

pub move_cons_head : RingBuffer → ℕ → Moved
move_cons_head r n =
    let entries = (r.prod.tail + u32_mod - r.cons.head) % u32_mod in
    let moved = if ltb entries n then 0 else n in
    let new_head = (r.cons.head + moved) % u32_mod in
    if moved == 0
    then record {
      count = 0;
      old_head = r.cons.head;
      new_head = r.cons.head;
      entries = entries;
      after = r.cons;
    }
    else record {
      count = moved;
      old_head = r.cons.head;
      new_head = new_head;
      entries = entries;
      after = record r.cons { head = new_head };
    }

-- The buffer after the call
pub enqueue_ptrs : RingBuffer → Array ℕ → ℕ → Array ℕ → ℕ → Array ℕ
enqueue_ptrs r ring_start prod_head obj_table n =
    let idx = bit_and prod_head r.mask in
    let upper = r.size - idx in
    if ltb ((idx + n) % u32_mod) r.size
    then copy_unrolled n ring_start idx obj_table 0
    else copy_run (n - upper) (copy_run upper ring_start idx obj_table 0) 0 obj_table upper

-- `obj_table` after the call
pub dequeue_ptrs : RingBuffer → Array ℕ → ℕ → Array ℕ → ℕ → Array ℕ
dequeue_ptrs r ring_start cons_head obj_table n =
    let idx = bit_and cons_head r.mask in
    let upper = r.size - idx in
    if ltb ((idx + n) % u32_mod) r.size
    then copy_unrolled n obj_table 0 ring_start idx
    else copy_run (n - upper) (copy_run upper obj_table 0 ring_start idx) upper ring_start 0

-- What `DoEnqueue` returns, `*free_space`, and the ring; `none` is a wait for ever, or a store through
-- the null pointer.
pub do_enqueue : RingBuffer → Array ℕ → ℕ → Bool → Option (ℕ × ℕ × RingBuffer)
do_enqueue r obj_table n is_sp =
    let m = move_prod_head r n in
    if m.count == 0 then some (0, m.entries, record r { prod = m.after }) else elim r.ring [
      | none ↦ none
      | some ring ↦ elim (update_tail m.after m.old_head m.new_head is_sp) [
        | none ↦ none
        | some prod ↦ some (
          m.count,
          (m.entries + u32_mod - m.count) % u32_mod,
          record r { prod = prod; ring = some (enqueue_ptrs r ring m.old_head obj_table m.count) },
        )
      ]
    ]

-- What `DoDequeue` returns, `*available`, `obj_table` after the call, and the ring.
pub do_dequeue : RingBuffer → Array ℕ → ℕ → Bool → Option (ℕ × ℕ × Array ℕ × RingBuffer)
do_dequeue r obj_table n is_sc =
    let m = move_cons_head r n in
    if m.count == 0
    then some (0, m.entries, obj_table, record r { cons = m.after })
    else elim r.ring [
      | none ↦ none
      | some ring ↦ elim (update_tail m.after m.old_head m.new_head is_sc) [
        | none ↦ none
        | some cons ↦ some (
          m.count,
          (m.entries + u32_mod - m.count) % u32_mod,
          dequeue_ptrs r ring m.old_head obj_table m.count,
          record r { cons = cons },
        )
      ]
    ]
