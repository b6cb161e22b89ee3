-- ===== src/Vector.antt =====
-- `ConcurrentVector` (src/fuxi/base/vector.h and vector.hpp): where its elements lie, for a block size
-- that is set at run time (DynamicMeta). A block is known by a number, as is a table of blocks.
pub mod Sizes
pub mod Growth
pub mod Places
pub mod Segments
pub mod Writes
pub mod Assigns
pub mod Addresses
pub mod Retire
use fuxi_n.Prelude.{
  ℕ, zero, suc, ◌+◌, ◌-◌, ◌*◌, ◌/◌, ◌%◌, ◌^◌, u32_mod, u64_mod, bit_and, ltb, ◌==◌, Bool, true,
  false, Option, none, some, List, [], ◌∷◌, get_elem?, length, take, drop, Array, update,
}

pub record Meta : Type 0 where
  pub block_mask : ℕ
  pub block_mask_bits : ℕ

-- The loop of `set_block_size`, after which `block_size` is returned. `| 1` of an even number adds 1.
abbrev pub grow : ℕ → ℕ → ℕ → Meta → Option (ℕ × Meta)
grow zero block_size_hint block_size meta = none
grow (suc fuel) block_size_hint block_size meta = elim (ltb block_size block_size_hint) [
  | true ↦ grow fuel block_size_hint (block_size * 2 % u32_mod) (record {
    block_mask = meta.block_mask * 2 % u32_mod + 1;
    block_mask_bits = (meta.block_mask_bits + 1) % u32_mod;
  })
  | false ↦ some (block_size, meta)
]

abbrev pub set_block_size : ℕ → ℕ → Option (ℕ × Meta)
set_block_size fuel block_size_hint =
    grow fuel block_size_hint 1 (record { block_mask = 0; block_mask_bits = 0 })

abbrev pub block_size : Meta → ℕ
block_size meta = (meta.block_mask + 1) % u32_mod

-- `index >> _block_mask_bits`, as a `uint32_t`
abbrev pub block_index : Meta → ℕ → ℕ
block_index meta index = index / 2 ^ meta.block_mask_bits % u32_mod

-- `index & _block_mask`
abbrev pub block_offset : Meta → ℕ → ℕ
block_offset meta index = bit_and index meta.block_mask % u32_mod

-- The element at an index: a block, and the place in it. `none` stands for a read past the table.
abbrev pub within : Option ℕ → ℕ → Option (ℕ × ℕ)
within none offset = none
within (some block) offset = some (block, offset)

abbrev pub place : Meta → List ℕ → ℕ → Option (ℕ × ℕ)
place meta blocks index =
    within (get_elem? blocks (block_index meta index)) (block_offset meta index)

abbrev pub snapshot_size : Meta → List ℕ → ℕ
snapshot_size meta blocks = length blocks * 2 ^ meta.block_mask_bits % u64_mod

-- What `reserve`, `ensure` and `reserved_snapshot` ask `get_qualified_block_table` for
abbrev pub reserve_block_num : Meta → ℕ → ℕ
reserve_block_num meta size = block_index meta ((size + meta.block_mask) % u64_mod)

abbrev pub ensure_block_num : Meta → ℕ → ℕ
ensure_block_num meta index = (block_index meta index + 1) % u32_mod

-- A call callback(segment_begin, segment_end)
pub record Segment : Type 0 where
  pub block : ℕ
  pub segment_begin : ℕ
  pub segment_end : ℕ

-- The segment of a block, and then the calls that follow; a block past the table has none.
abbrev pub call : Option ℕ → ℕ → ℕ → Option (List Segment) → Option (List Segment)
call none first last rest = none
call (some block) first last none = none
call (some block) first last (some rest) =
    some (record { block = block; segment_begin = first; segment_end = last } ∷ rest)

-- The loop of `for_each` and the segment after it, on fuel
abbrev pub for_blocks : ℕ → Meta → List ℕ → ℕ → ℕ → ℕ → ℕ → Option (List Segment)
for_blocks zero meta blocks index offset end_index end_offset = none
for_blocks (suc fuel) meta blocks index offset end_index end_offset = elim (index == end_index) [
  | false ↦
      call (get_elem? blocks index) offset (block_size meta)
        (for_blocks fuel meta blocks ((index + 1) % u32_mod) 0 end_index end_offset)
  | true ↦ elim (offset == end_offset) [
    | false ↦ call (get_elem? blocks index) offset end_offset (some [])
    | true ↦ some []
  ]
]

abbrev pub for_each : ℕ → Meta → List ℕ → ℕ → ℕ → Option (List Segment)
for_each fuel meta blocks begin end =
    for_blocks fuel meta blocks (block_index meta begin) (block_offset meta begin)
      (block_index meta end) (block_offset meta end)

-- The elements of the blocks
abbrev pub Elements : Type 0 → Type 0
Elements A = Array (Array A)

module _ {A : Type 0} where
  abbrev pub store : Elements A → ℕ → ℕ → A → Elements A
  store e block offset v = update e block (update (e block) offset v)

  -- `std::fill(iter, end, value)`, from `offset` on
  abbrev pub fill : ℕ → Elements A → ℕ → ℕ → A → Elements A
  fill zero e block offset v = e
  fill (suc n) e block offset v = fill n (store e block offset v) block (offset + 1) v

  abbrev pub fill_segments : Elements A → List Segment → A → Elements A
  fill_segments e [] v = e
  fill_segments e (s ∷ rest) v =
      fill_segments (fill (s.segment_end - s.segment_begin) e s.block s.segment_begin v) rest v

  abbrev pub fill_n : ℕ → Meta → List ℕ → Elements A → ℕ → ℕ → A → Option (Elements A)
  fill_n fuel meta blocks e offset size v =
      elim (for_each fuel meta blocks offset (offset + size)) [
        | none ↦ none
        | some segments ↦ some (fill_segments e segments v)
      ]

  -- `std::copy_n(begin, size, iter)`: the values, from `offset` on
  abbrev pub copy : Elements A → ℕ → ℕ → List A → Elements A
  copy e block offset [] = e
  copy e block offset (v ∷ vs) = copy (store e block offset v) block (offset + 1) vs

  abbrev pub copy_segments : Elements A → List Segment → List A → Elements A
  copy_segments e [] vs = e
  copy_segments e (s ∷ rest) vs =
      let size = s.segment_end - s.segment_begin in
      copy_segments (copy e s.block s.segment_begin (take size vs)) rest (drop size vs)

  abbrev pub copy_n : ℕ → Meta → List ℕ → Elements A → List A → ℕ → ℕ → Option (Elements A)
  copy_n fuel meta blocks e begin size offset =
      elim (for_each fuel meta blocks offset (offset + size)) [
        | none ↦ none
        | some segments ↦ some (copy_segments e segments begin)
      ]
