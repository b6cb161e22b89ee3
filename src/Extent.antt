-- ===== src/Extent.antt =====
-- src/fuxi/shm/impl/extent_metadata.h and extent_metadata.cc: an extent, a part of a segment with a
-- ring of free block ids, a table of blocks and their buffers, as it lies in shared memory; and
-- src/fuxi/shm/impl/extent.h and extent.cc: a process's access to it.
-- An address is its offset from the extent's `data`. The words that are printed, and the members of a
-- block, are not modelled.
pub mod Space
pub mod Blocks
use fuxi_n.Prelude.{
  ℕ, ◌+◌, ◌-◌, ◌*◌, ◌%◌, ◌^◌, Bool, true, false, Option, none, some, Array, u16_mod, u32_mod,
  u64_mod, ltb, ◌==◌, if◌then◌else◌,
}
use fuxi_n.Ring
use fuxi_n.Ring.{RteRing}
use fuxi_n.Ring.Fill.{enqueue_each}

pub record ExtentOption : Type 0 where
  pub offset : ℕ
  pub base_addr : ℕ
  pub size : ℕ
  pub block_num : ℕ
  pub block_size : ℕ

pub record ExtentLayout : Type 0 where
  pub magic_header : ℕ
  pub segment_offset : ℕ
  pub space_size : ℕ
  pub space_used : ℕ
  pub block_num : ℕ
  pub block_buffer_size : ℕ
  pub extent_index : ℕ
  pub inited : Bool
  pub free_block_ids : RteRing ℕ
  pub block_offset : ℕ
  pub block_buffer_offset : ℕ

-- The members' initialisers; `memory` is what lies behind the ring's pointer before it is set.
abbrev pub new_layout : Array ℕ → ExtentLayout
new_layout memory = record {
  magic_header = 0;
  segment_offset = 0;
  space_size = 0;
  space_used = 0;
  block_num = 0;
  block_buffer_size = 0;
  extent_index = 0;
  inited = false;
  free_block_ids = Ring.fresh memory;
  block_offset = 0;
  block_buffer_offset = 0;
}

-- `Allocate`: the offset, and the layout. It checks nothing.
pub allocate : ExtentLayout → ℕ → ℕ × ExtentLayout
allocate e size = (e.space_used, record e { space_used = (e.space_used + size) % u64_mod })

-- `RteRing<uint16_t>::PlacementStorageSize`, the only field of the schema.
abbrev pub ids_bytes : (ℕ → ℕ) → ℕ → ℕ
ids_bytes bit_ceil num = Ring.placement_storage_size {A = ℕ} bit_ceil 2 0 num

-- `absl::bit_ceil`, `sizeof(Block)`, `sizeof(ExtentLayout)` and EXTENT_MAGIC_HEADER.
module _ (bit_ceil : ℕ → ℕ) (block_bytes layout_bytes magic : ℕ) where
  pub get_request_size : ℕ → ℕ → ℕ
  get_request_size block_num block_size =
      (layout_bytes + block_num * block_size + ids_bytes bit_ceil block_num) % u64_mod

  -- `ExtentLayout::Init`, where `at` is the memory at an offset of `data`. The loop over the ids ends
  -- at `(uint16_t)block_num`. The bytes of the buffers are a product of 32 bits. `none` stands for a
  -- wait for ever.
  pub init : (ℕ → Array ℕ) → ExtentLayout → ExtentOption → Option (Bool × ExtentLayout)
  init at e opt =
      let block_num = opt.block_num % u32_mod in
      let block_buffer_size = opt.block_size % u32_mod in
      let e1 : ExtentLayout = record e {
        magic_header = magic;
        segment_offset = opt.offset;
        space_size = opt.size;
        block_num = block_num;
        block_buffer_size = block_buffer_size;
      } in
      let (ids, e2) = allocate e1 (ids_bytes bit_ceil block_num) in
      let ring =
        Ring.init bit_ceil 2 0 e2.free_block_ids (some (at ids)) (at ids) block_num false false in
      let (blocks, e3) = allocate e2 (block_bytes * block_num % u64_mod) in
      let (block_buffer_base, e4) = allocate e3 (block_buffer_size * block_num % u32_mod) in
      if e.inited
      then some (true, e)
      else if opt.base_addr == 0
      then some (false, e)
      else elim (enqueue_each (λ (i : ℕ). i) (block_num % u16_mod) 0 ring) [
        | none ↦ none
        | some filled ↦ some (
          true,
          record e4 {
            free_block_ids = filled;
            block_offset = blocks % u32_mod;
            block_buffer_offset = block_buffer_base % u32_mod;
            inited = true;
          },
        )
      ]

-- `ExtentMetadata::GetFreeBlockIndex`: the result, `index` after the call, and the layout.
pub get_free_block_index : ExtentLayout → ℕ → Option (Bool × ℕ × ExtentLayout)
get_free_block_index e index = elim (Ring.do_dequeue e.free_block_ids (λ (j : ℕ). 0) 1 true) [
  | none ↦ none
  | some (ret, _, id, ring) ↦
      let e' : ExtentLayout = record e { free_block_ids = ring } in
      some (if ret == 0 then (false, index, e') else (true, id 0, e'))
]

-- `PutFreeBlockIndex`, `TryLockForRead` and `ReleaseReadLock` return `true` and do nothing else.
pub put_free_block_index : ExtentLayout → ℕ → Bool × ExtentLayout
put_free_block_index e index = (true, e)

pub try_lock_for_read : ExtentLayout → ℕ → Bool × ExtentLayout
try_lock_for_read e index = (true, e)

pub release_read_lock : ExtentLayout → ℕ → Bool × ExtentLayout
release_read_lock e index = (true, e)

-- A process's access: `block_buf_addrs` below the number of blocks.
pub record Extent : Type 0 where
  pub is_init : Bool
  pub block_table : ℕ
  pub block_buf_addrs : Array ℕ

-- `Extent::Initialize`. `i * BlockBufferSize()` is a product of 32 bits.
pub initialize : Extent → ExtentLayout → Bool × Extent
initialize x e = if x.is_init then (true, x) else (
  true,
  record {
    is_init = true;
    block_table = e.block_offset;
    block_buf_addrs = λ (i : ℕ).
        if ltb i e.block_num
        then e.block_buffer_offset + i * e.block_buffer_size % u32_mod
        else x.block_buf_addrs i;
  },
)

-- `WritableBlock`, which is `ReadableBlock` too. `block` is an index of the block table.
pub record WritableBlock : Type 0 where
  pub extent_index : ℕ
  pub block_index : ℕ
  pub block : ℕ
  pub buf : ℕ

-- `AcquireBlockToWrite`: the pointer `writable_block` is null or leads to a block that is filled in.
pub acquire_block_to_write :
    Extent
    → ExtentLayout
    → Option WritableBlock
    → Option (Bool × Option WritableBlock × ExtentLayout)
acquire_block_to_write x e none = some (false, none, e)
acquire_block_to_write x e (some w) = elim (get_free_block_index e 0) [
  | none ↦ none
  | some (found, index, e') ↦ some (
      if found
      then (
        true,
        some (record {
          extent_index = e'.extent_index;
          block_index = index;
          block = index;
          buf = x.block_buf_addrs index;
        }),
        e',
      )
      else (false, some w, e'))
]

pub release_written_block : ExtentLayout → WritableBlock → ExtentLayout
release_written_block e w = (put_free_block_index e w.block_index).1

pub acquire_block_to_read :
    Extent → ExtentLayout → Option WritableBlock → Bool × Option WritableBlock × ExtentLayout
acquire_block_to_read x e none = (false, none, e)
acquire_block_to_read x e (some r) =
    let (locked, e') = try_lock_for_read e r.block_index in
    if locked
    then (
      true,
      some (record r { block = r.block_index; buf = x.block_buf_addrs r.block_index }),
      e',
    )
    else (false, some r, e')

pub release_read_block : ExtentLayout → WritableBlock → ExtentLayout
release_read_block e r = (release_read_lock e r.block_index).1
