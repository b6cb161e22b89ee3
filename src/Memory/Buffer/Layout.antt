-- ===== src/Memory/Buffer/Layout.antt =====
-- What a buffer keeps: the pages and blocks it holds, and where the pieces it handed out lie.
use fuxi_n.Prelude.{
  ℕ, ◌+◌, ◌-◌, ◌%◌, ◌^◌, ◌≤◌, ◌<◌, ◌≡◌, List, [], ◌∷◌, length, some, ◌==◌, ◌&&◌, if◌then◌else◌,
  count, u64_mod,
}
use fuxi_n.Memory.Pages.{PageAllocator, IsPageAllocator}
use fuxi_n.Memory.Buffer.{
  Upstream, PageArray, OversizePage, OversizePageArray, DestroyTaskArray, Buffer, State,
  page_array_size, oversize_array_size, task_array_size,
}
use fuxi_n.Memory.Buffer.Release.{pages_from, oversize_from}
use fuxi_n.Memory.Buffer.Cover.{cover, cover_pages}

-- How often a block is among some
abbrev pub tally_block : OversizePage → OversizePage → ℕ
tally_block b c =
    if b.page == c.page && (b.bytes == c.bytes && b.alignment == c.alignment) then 1 else 0

abbrev pub count_block : OversizePage → List OversizePage → ℕ
count_block b [] = 0
count_block b (c ∷ cs) = tally_block b c + count_block b cs

abbrev pub block : ℕ → ℕ → ℕ → OversizePage
block page bytes alignment = record { page = page; bytes = bytes; alignment = alignment }

-- What a memory resource documents, as long as memory is left: a block is aligned, and is in use
-- until it is given back with the size and alignment that it was asked for with.
pub record IsUpstream (u : Upstream) : Type 1 where
  pub IsValid : u.State → Type 0
  pub live : u.State → OversizePage → ℕ
  pub allocates :
      (bytes k : ℕ) (s : u.State)
      → IsValid s
      → (p : ℕ) × (s' : u.State) × (u.allocate bytes (2 ^ k) s ≡ some (p, s'))
        × IsValid s'
        × (p % 2 ^ k ≡ 0)
        × ((b : OversizePage) → live s' b ≡ live s b + tally_block b (block p bytes (2 ^ k)))
  pub deallocates :
      (b : OversizePage) (s : u.State)
      → IsValid s
      → 1 ≤ live s b
      → (s' : u.State) × (u.deallocate b.page b.bytes b.alignment s ≡ some s')
        × IsValid s'
        × ((c : OversizePage) → live s' c + tally_block c b ≡ live s c)

-- A piece that the buffer handed out
pub record Piece : Type 0 where
  pub start : ℕ
  pub bytes : ℕ

abbrev pub cover_pieces : ℕ → List Piece → ℕ
cover_pieces x [] = 0
cover_pieces x (r ∷ rs) = cover x r.start r.bytes + cover_pieces x rs

abbrev pub cover_blocks : ℕ → List OversizePage → ℕ
cover_blocks x [] = 0
cover_blocks x (b ∷ bs) = cover x b.page b.bytes + cover_blocks x bs

abbrev pub cover_page_arrays : ℕ → List PageArray → ℕ
cover_page_arrays x [] = 0
cover_page_arrays x (y ∷ ys) = cover x y.place page_array_size + cover_page_arrays x ys

abbrev pub cover_oversize_arrays : ℕ → List OversizePageArray → ℕ
cover_oversize_arrays x [] = 0
cover_oversize_arrays x (y ∷ ys) = cover x y.place oversize_array_size + cover_oversize_arrays x ys

abbrev pub cover_task_arrays : ℕ → List DestroyTaskArray → ℕ
cover_task_arrays x [] = 0
cover_task_arrays x (y ∷ ys) = cover x y.place task_array_size + cover_task_arrays x ys

-- The index stands in the newest array.
abbrev pub IsPointer : ℕ → List PageArray → Type 0
IsPointer i [] = i ≡ 0
IsPointer i (y ∷ ys) = i < length y.pages

abbrev pub IsOversizePointer : ℕ → List OversizePageArray → Type 0
IsOversizePointer i [] = i ≡ 0
IsOversizePointer i (y ∷ ys) = i < length y.pages

-- Every array stands in the pages that it and the older ones list: it is read before these go back.
abbrev pub IsHoused : ℕ → ℕ → List PageArray → Type 0
IsHoused size i [] = Unit
IsHoused size i (y ∷ ys) =
    ((x : ℕ) → cover x y.place page_array_size ≤ cover_pages x size (pages_from i (y ∷ ys)))
    × IsHoused size 0 ys

abbrev pub bytes_of : List OversizePage → ℕ
bytes_of [] = 0
bytes_of (b ∷ bs) = b.bytes + bytes_of bs

abbrev pub bytes_in : ℕ → List ℕ → ℕ
bytes_in size [] = 0
bytes_in size (p ∷ ps) = size + bytes_in size ps

-- The pages and the blocks that a buffer has out
abbrev pub pages_of : {P U : Type 0} → Buffer P U → List ℕ
pages_of s = pages_from s.page_pointer s.page_arrays

abbrev pub blocks_of : {P U : Type 0} → Buffer P U → List OversizePage
blocks_of s = oversize_from s.oversize_pointer s.oversize_arrays

-- The last page is the first that is listed.
abbrev pub IsNewest : ℕ → List ℕ → Type 0
IsNewest page [] = Unit
IsNewest page (p ∷ ps) = p ≡ page

module _ (a : PageAllocator) (h : IsPageAllocator a) (u : Upstream) (hu : IsUpstream u) (thread : ℕ)
    (pages_before : ℕ → ℕ) (blocks_before : OversizePage → ℕ) where
  -- The pages and blocks of the buffer are what it has of the two allocators on top of what others
  -- have of them.
  pub record IsOwner (s : State a u thread) : Type 0 where
    pub page_allocator : h.IsValid s.page_allocator
    pub upstream : hu.IsValid s.upstream
    pub page_pointer : IsPointer s.page_pointer s.page_arrays
    pub oversize_pointer : IsOversizePointer s.oversize_pointer s.oversize_arrays
    pub holds : (p : ℕ) → h.held s.page_allocator p ≡ pages_before p + count p (pages_of s)
    pub holds_blocks :
        (b : OversizePage) → hu.live s.upstream b ≡ blocks_before b + count_block b (blocks_of s)
    pub housed : IsHoused a.page_size s.page_pointer s.page_arrays
    pub space :
        s.space_allocated ≡ (bytes_in a.page_size (pages_of s) + bytes_of (blocks_of s)) % u64_mod

  -- The pieces, the arrays and the free rest of the last page lie side by side in the pages and
  -- blocks.
  pub record IsLaid (s : State a u thread) (pieces : List Piece) : Type 0 where
    pub low : s.last_page_allocated ≤ 2 ^ 62
    pub nonzero : 1 ≤ s.last_page_allocated
    pub last_page : s.last_page % a.page_size ≡ 0
    pub newest : IsNewest s.last_page (pages_of s)
    pub rest :
        (x : ℕ)
        → cover x (s.last_page + s.last_page_allocated) (a.page_size - s.last_page_allocated)
          ≤ cover_pages x a.page_size (pages_of s)
    pub apart :
        (x : ℕ)
        → cover_pieces x pieces
            + (cover_page_arrays x s.page_arrays
                + (cover_oversize_arrays x s.oversize_arrays
                    + (cover_task_arrays x s.task_arrays
                        + cover x
                            (s.last_page + s.last_page_allocated)
                            (a.page_size - s.last_page_allocated))))
          ≤ cover_pages x a.page_size (pages_of s) + cover_blocks x (blocks_of s)
