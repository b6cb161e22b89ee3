-- ===== src/Tests/Extents.antt =====
-- An extent of three blocks.
use fuxi_n.Prelude.{
  ℕ, ◌+◌, ◌*◌, ◌^◌, ◌<◌, ◌≤◌, ◌≡◌, refl, inr, List, [], ◌∷◌, ◌++◌, length, count, Array, true,
  false, some, arith, IsBitCeil,
}
use fuxi_n.Ring
use fuxi_n.Ring.{RteRing}
use fuxi_n.Extent.{
  ExtentOption, ExtentLayout, Extent, WritableBlock, new_layout, ids_bytes, get_request_size, init,
}
use fuxi_n.Extent.Space.{HasFree, init_overruns}
use fuxi_n.Extent.Blocks.{Call, acquires, releases, reads, ends_read, run, run-HasFree}

abbrev four : ℕ → ℕ
four n = 4

abbrev words : Array ℕ
words j = j

abbrev memory : ℕ → Array ℕ
memory at j = at + j

abbrev three_blocks : ExtentOption
three_blocks = record {
  offset = 64;
  base_addr = 4096;
  size = 5000;
  block_num = 3;
  block_size = 1024;
}

four-IsBitCeil : IsBitCeil 3 4
four-IsBitCeil = record {
  exponent = 2;
  is_pow = refl;
  above = omega arith;
  least = inr (omega arith);
}

-- The ring of ids takes 128 bytes.
ids_bytes-four : ids_bytes four 3 ≡ 128
unfolding Ring.placement_storage_size
ids_bytes-four = refl

near : ids_bytes four 3 + 120 * 3 < 2 ^ 32
near = omega (arith, ids_bytes-four)

init_three_overruns :
    (e : ExtentLayout) × (init four 120 600 77 memory (new_layout words) three_blocks
      ≡ some (true, e))
    × (600 + e.space_used ≡ get_request_size four 120 600 77 3 1024 + 120 * 3)
init_three_overruns =
    init_overruns four 120 600 77 memory words three_blocks (omega arith) four-IsBitCeil
      (omega arith) (omega arith) (omega arith) (omega arith) near

-- The three blocks are free.
abbrev extent : ExtentLayout
extent = record {
  magic_header = 77;
  segment_offset = 64;
  space_size = 5000;
  space_used = 3560;
  block_num = 3;
  block_buffer_size = 1024;
  extent_index = 0;
  inited = true;
  free_block_ids = record {
    size = 4;
    mask = 3;
    capacity = 4;
    is_sp = false;
    is_sc = false;
    inited = true;
    prod = record { head = 3; tail = 3 };
    cons = record { head = 0; tail = 0 };
    storage = words;
    use_outer_buffer = true;
  };
  block_offset = 128;
  block_buffer_offset = 488;
}

extent-HasFree : HasFree extent (0 ∷ 1 ∷ 2 ∷ [])
extent-HasFree = record {
  ring_valid = record {
    bits = 2;
    is_pow = refl;
    small = omega arith;
    masked = refl;
    capacity_eq = refl;
    prod_rest = refl;
    cons_rest = refl;
    prod_word = omega arith;
    cons_word = omega arith;
    fill = omega arith;
  };
  free_eq = refl;
}

-- An access that was not initialized, and one that was
abbrev closed : Extent
closed = record { is_init = false; block_table = 0; block_buf_addrs = words }

abbrev block_1 : WritableBlock
block_1 = record { extent_index = 0; block_index = 1; block = 0; buf = 0 }

abbrev block_0 : WritableBlock
block_0 = record block_1 { block_index = 0 }

abbrev calls : List Call
calls =
    acquires block_0 ∷ releases block_0 ∷ acquires block_0 ∷ reads block_1 ∷ ends_read block_1 ∷ []

differ : (i : ℕ) → count i (0 ∷ 1 ∷ 2 ∷ []) ≤ 1
differ i = ground arith

run_five_calls_on_blocks :
    (got free' : List ℕ) × (e' : ExtentLayout) × (run closed extent calls ≡ some (got, e'))
    × HasFree e' free'
    × (got ++ free' ≡ 0 ∷ 1 ∷ 2 ∷ [])
    × (length got ≡ 2)
    × ((i : ℕ) → count i got + count i free' ≤ 1)
run_five_calls_on_blocks = run-HasFree closed extent (0 ∷ 1 ∷ 2 ∷ []) calls extent-HasFree differ
