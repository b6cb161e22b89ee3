-- ===== src/Memory/Buffer/Places.antt =====
-- `do_align`, and the branch of `do_allocate_already_aligned` that stays in the last page.
use fuxi_n.Prelude.{ℕ, ◌+◌, ◌-◌, ◌%◌, ◌^◌, ◌≤◌, ◌≡◌, List, ◌∷◌, arith}
use fuxi_n.Memory.Pages.{PageAllocator, IsPageAllocator}
use fuxi_n.Memory.Buffer.{Upstream, OversizePage, Placed, State, align}
use fuxi_n.Memory.Buffer.Cover.{cover, cover_bump, cover_rest}
use fuxi_n.Memory.Buffer.Align.{align-ge, align-le}
use fuxi_n.Memory.Buffer.Layout.{IsUpstream, Piece, IsOwner, IsLaid}

module _ (a : PageAllocator) (h : IsPageAllocator a) (u : Upstream) (hu : IsUpstream u) (thread : ℕ)
    (pages_before : ℕ → ℕ) (blocks_before : OversizePage → ℕ) where
  -- What a call gives: an aligned piece beside the others, in a buffer whose tasks are the same
  pub record IsPlaced (s : State a u thread) (pieces : List Piece) (bytes k : ℕ)
      (placed : Placed a.State u.State) : Type 0 where
    pub aligned : placed.address % 2 ^ k ≡ 0
    pub owner : IsOwner a h u hu thread pages_before blocks_before placed.buffer
    pub laid :
        IsLaid a h u hu thread pages_before blocks_before placed.buffer
          (record { start = placed.address; bytes = bytes } ∷ pieces)
    pub tasks : placed.buffer.task_arrays ≡ s.task_arrays
    pub task_pointer : placed.buffer.task_pointer ≡ s.task_pointer

  pub aligned_lem :
      (s : State a u thread) (pieces : List Piece) (bytes k : ℕ)
      → k ≤ 62
      → IsOwner a h u hu thread pages_before blocks_before s
      → IsLaid a h u hu thread pages_before blocks_before s pieces
      → IsOwner a h u hu thread pages_before blocks_before (record s {
        last_page_allocated = align (2 ^ k) s.last_page_allocated;
        space_used = bytes;
      })
        × IsLaid a h u hu thread pages_before blocks_before
            (record s {
              last_page_allocated = align (2 ^ k) s.last_page_allocated;
              space_used = bytes;
            })
            pieces
  aligned_lem s pieces bytes k small o l =
      let up = align-ge k s.last_page_allocated small l.low in
      (
        record {
          page_allocator = o.page_allocator;
          upstream = o.upstream;
          page_pointer = o.page_pointer;
          oversize_pointer = o.oversize_pointer;
          holds = o.holds;
          holds_blocks = o.holds_blocks;
          housed = o.housed;
          space = o.space;
        },
        record {
          low = align-le k s.last_page_allocated small l.low;
          nonzero = omega (arith, up, l.nonzero);
          last_page = l.last_page;
          newest = l.newest;
          rest = λ x. omega (
            arith,
            l.rest x,
            cover_rest x s.last_page s.last_page_allocated (align (2 ^ k) s.last_page_allocated)
                a.page_size up,
          );
          apart = λ x. omega (
            arith,
            l.apart x,
            cover_rest x s.last_page s.last_page_allocated (align (2 ^ k) s.last_page_allocated)
                a.page_size up,
          );
        },
      )

  -- A piece of the free rest of the last page
  pub bump_lem :
      (s : State a u thread) (pieces : List Piece) (bytes : ℕ)
      → s.last_page_allocated + bytes ≤ a.page_size
      → a.page_size ≤ 2 ^ 31
      → IsOwner a h u hu thread pages_before blocks_before s
      → IsLaid a h u hu thread pages_before blocks_before s pieces
      → IsOwner a h u hu thread pages_before blocks_before
          (record s { last_page_allocated = s.last_page_allocated + bytes })
        × IsLaid a h u hu thread pages_before blocks_before
            (record s { last_page_allocated = s.last_page_allocated + bytes })
            (record { start = s.last_page + s.last_page_allocated; bytes = bytes } ∷ pieces)
  bump_lem s pieces bytes fits small o l =
      let split : (x : ℕ)
          → cover x (s.last_page + s.last_page_allocated) (a.page_size - s.last_page_allocated)
            ≡ cover x (s.last_page + s.last_page_allocated) bytes
              + cover x (s.last_page + (s.last_page_allocated + bytes))
                  (a.page_size - (s.last_page_allocated + bytes)) =
        λ x. cover_bump x s.last_page s.last_page_allocated bytes a.page_size fits in
      (
        record {
          page_allocator = o.page_allocator;
          upstream = o.upstream;
          page_pointer = o.page_pointer;
          oversize_pointer = o.oversize_pointer;
          holds = o.holds;
          holds_blocks = o.holds_blocks;
          housed = o.housed;
          space = o.space;
        },
        record {
          low = omega (arith, fits, small);
          nonzero = omega (arith, l.nonzero);
          last_page = l.last_page;
          newest = l.newest;
          rest = λ x. omega (arith, l.rest x, split x);
          apart = λ x. omega (arith, l.apart x, split x);
        },
      )
