-- ===== src/Extent/Space.antt =====
-- What `Init` of an extent lays out, and what it takes of the space asked for.
use fuxi_n.Prelude.{
  ℕ, ◌+◌, ◌*◌, ◌%◌, ◌<◌, ◌≢◌, ◌≡◌, refl, ap, ◌∙◌, List, [], ◌∷◌, map, Array, true, false, some,
  u16_mod, u32_mod, u64_mod, ==_ne, arith, IsBitCeil,
}
use fuxi_n.Prelude.Ids.{ids_from}
use native.Mathlib.Nat.{mul_comm}
use fuxi_n.Ring
use fuxi_n.Ring.{RteRing}
use fuxi_n.Ring.Rest.{IsValid, contents}
use fuxi_n.Ring.Fill.{enqueue_each, enqueue_each-empty}
use fuxi_n.Ring.Init.{init-IsValid}
use fuxi_n.Extent.{
  ExtentOption, ExtentLayout, new_layout, allocate, ids_bytes, get_request_size, init,
}

-- The free blocks of an extent, in the order in which they will be given out.
pub record HasFree (e : ExtentLayout) (free : List ℕ) : Type 0 where
  pub ring_valid : IsValid e.free_block_ids
  pub free_eq : contents e.free_block_ids ≡ free

map-id : (l : List ℕ) → map (λ (i : ℕ). i) l ≡ l
map-id [] = refl
map-id (x ∷ l) = ap (◌∷◌ x) (map-id l)

module _ (bit_ceil : ℕ → ℕ) (block_bytes layout_bytes magic : ℕ) where
  -- `Init` of a new extent at a base address other than null, for less than 2^16 blocks whose
  -- buffers have less than 4 GiB in all, with less than 4 GiB before the buffers, returns
  -- `true`; the free blocks are all blocks, in order; ring, table and buffers lie one behind
  -- the other.
  pub init-HasFree :
      (at : ℕ → Array ℕ) (memory : Array ℕ) (opt : ExtentOption)
      → opt.base_addr ≢ 0
      → IsBitCeil opt.block_num (bit_ceil opt.block_num)
      → opt.block_num < u16_mod
      → opt.block_size * opt.block_num < u32_mod
      → opt.block_size < u32_mod
      → let ids = ids_bytes bit_ceil opt.block_num in
        ids + block_bytes * opt.block_num < u32_mod
        → (e : ExtentLayout) × (init bit_ceil block_bytes layout_bytes magic at
              (new_layout memory)
              opt
            ≡ some (true, e))
          × HasFree e (ids_from 0 opt.block_num)
          × (e.block_num ≡ opt.block_num)
          × (e.block_buffer_size ≡ opt.block_size)
          × (e.block_offset ≡ ids)
          × (e.block_buffer_offset ≡ ids + block_bytes * opt.block_num)
          × (e.space_used ≡ ids + block_bytes * opt.block_num + opt.block_size * opt.block_num)
  unfolding init allocate
  init-HasFree at memory opt base c few small thin near =
      let (v, empty, z, fits, _, _, _) =
        init-IsValid bit_ceil 2 0 memory (at 0) (some (at 0)) n false false (rw kept c)
          (omega arith) in
      let (filled, e, c', v', _) = enqueue_each-empty (λ (i : ℕ). i) n ring v empty fits in
      let all : enqueue_each (λ (i : ℕ). i) (n % u16_mod) 0 ring ≡ some filled =
        ap (λ k. enqueue_each (λ (i : ℕ). i) k 0 ring) rounds ∙ e in
      (
        laid_out filled,
        rw (==_ne opt.base_addr 0 base, all, init) refl,
        record { ring_valid = v'; free_eq = c' ∙ map-id (ids_from 0 n) ∙ ap (ids_from 0) kept },
        kept,
        size_kept,
        rw kept (omega arith),
        rw (kept, table) (omega arith),
        rw (kept, table, size_kept) (omega arith),
      )
    where
      n : ℕ
      n = opt.block_num % u32_mod

      kept : opt.block_num % u32_mod ≡ opt.block_num
      kept = omega arith

      rounds : n % u16_mod ≡ n
      rounds = omega arith

      size_kept : opt.block_size % u32_mod ≡ opt.block_size
      size_kept = omega arith

      table : block_bytes * opt.block_num % u64_mod ≡ block_bytes * opt.block_num
      table = omega arith

      ring : RteRing ℕ
      ring = Ring.init bit_ceil 2 0 (Ring.fresh memory) (some (at 0)) (at 0) n false false

      laid_out : RteRing ℕ → ExtentLayout
      laid_out filled =
          let ids_end = (0 + ids_bytes bit_ceil n) % u64_mod in
          let table_end = (ids_end + block_bytes * n % u64_mod) % u64_mod in
          record {
            magic_header = magic;
            segment_offset = opt.offset;
            space_size = opt.size;
            space_used = (table_end + (opt.block_size % u32_mod) * n % u32_mod) % u64_mod;
            block_num = n;
            block_buffer_size = opt.block_size % u32_mod;
            extent_index = 0;
            inited = true;
            free_block_ids = filled;
            block_offset = ids_end % u32_mod;
            block_buffer_offset = table_end % u32_mod;
          }

  -- Under the conditions of `init-HasFree`, and with a header of less than 4 GiB, an extent
  -- laid out by `Init` takes, with its header, `sizeof(Block) * block_num` bytes more than
  -- `GetRequestSize` asks for.
  pub init_overruns :
      (at : ℕ → Array ℕ) (memory : Array ℕ) (opt : ExtentOption)
      → opt.base_addr ≢ 0
      → IsBitCeil opt.block_num (bit_ceil opt.block_num)
      → opt.block_num < u16_mod
      → opt.block_size * opt.block_num < u32_mod
      → opt.block_size < u32_mod
      → layout_bytes < u32_mod
      → let ids = ids_bytes bit_ceil opt.block_num in
        ids + block_bytes * opt.block_num < u32_mod
        → (e : ExtentLayout) × (init bit_ceil block_bytes layout_bytes magic at
              (new_layout memory)
              opt
            ≡ some (true, e))
          × (layout_bytes + e.space_used
              ≡ get_request_size bit_ceil block_bytes layout_bytes magic opt.block_num
                  opt.block_size
                + block_bytes * opt.block_num)
  unfolding get_request_size
  init_overruns at memory opt base c few small thin head near =
      let (e, done, _, _, _, _, _, used) = init-HasFree at memory opt base c few small thin near in
      (e, done, omega (arith, used, mul_comm opt.block_num opt.block_size))
