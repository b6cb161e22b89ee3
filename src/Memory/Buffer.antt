-- ===== src/Memory/Buffer.antt =====
-- `ExclusiveMonotonicBufferResource` (src/fuxi/mm/memory_resource.h and memory_resource.cc): memory that is
-- handed out from pages one piece after the other and given back at once. An address is a number. The
-- arrays that the code links within its pages are a list, newest first, each with the place where it
-- stands; the pointer into the newest is an index. A word of an array that was never written is 0.
-- What a destructor does is not modelled.
pub mod Release
pub mod Cover
pub mod Align
pub mod Layout
pub mod Places
pub mod NewPage
pub mod NewArray
pub mod WithPage
pub mod Oversize
pub mod Allocate
pub mod Returns
pub mod Registers
pub mod Contains
pub mod Calls
pub mod History
use fuxi_n.Prelude.{
  Bool, false, ℕ, zero, suc, ◌+◌, ◌-◌, ◌%◌, ◌^◌, max, Option, none, some, List, [], ◌∷◌, ◌++◌, set,
  drop, replicate, ltb, leb, ◌&&◌, ◌||◌, if◌then◌else◌, u32_mod, u64_mod,
}
use fuxi_n.Memory.Pages.{Got, PageAllocator, first, ◌>>=◌}

-- A `::std::pmr::memory_resource`, which is a parameter
pub record Upstream : Type 1 where
  pub State : Type 0
  pub allocate : (bytes alignment : ℕ) → State → Option (ℕ × State)
  pub deallocate : (p bytes alignment : ℕ) → State → Option State

abbrev pub page_array_capacity : ℕ
page_array_capacity = 15

pub record PageArray : Type 0 where
  pub place : ℕ
  pub pages : List ℕ

-- `sizeof` and `alignof` with pointers of eight bytes: of `PageArray`, of `OversizePageArray`, of
-- `DestroyTaskArray`
abbrev pub page_array_size : ℕ
page_array_size = 128

abbrev pub oversize_array_size : ℕ
oversize_array_size = 368

abbrev pub task_array_size : ℕ
task_array_size = 248

abbrev pub array_align : ℕ
array_align = 8

pub record OversizePage : Type 0 where
  pub page : ℕ
  pub bytes : ℕ
  pub alignment : ℕ

pub record OversizePageArray : Type 0 where
  pub place : ℕ
  pub pages : List OversizePage

pub record DestroyTask : Type 0 where
  pub ptr : ℕ
  pub destructor : ℕ

pub record DestroyTaskArray : Type 0 where
  pub place : ℕ
  pub tasks : List DestroyTask

pub record Buffer (P U : Type 0) : Type 0 where
  pub page_allocator : P
  pub upstream : U
  pub page_arrays : List PageArray
  pub page_pointer : ℕ
  pub last_page : ℕ
  pub last_page_allocated : ℕ
  pub space_used : ℕ
  pub space_allocated : ℕ
  pub oversize_arrays : List OversizePageArray
  pub oversize_pointer : ℕ
  pub task_arrays : List DestroyTaskArray
  pub task_pointer : ℕ
  -- `oversize_page_concurrent_adder()`
  pub oversize_page_num : ℕ

-- A buffer as its constructor leaves it
abbrev pub new_buffer : {P U : Type 0} → P → U → Buffer P U
new_buffer p u = record {
  page_allocator = p;
  upstream = u;
  page_arrays = [];
  page_pointer = 0;
  last_page = 0;
  last_page_allocated = u32_mod - 1;
  space_used = 0;
  space_allocated = 0;
  oversize_arrays = [];
  oversize_pointer = 0;
  task_arrays = [];
  task_pointer = 0;
  oversize_page_num = 0;
}

-- An address, and the buffer after the call
pub record Placed (P U : Type 0) : Type 0 where
  pub address : ℕ
  pub buffer : Buffer P U

-- `(x + alignment - 1) & -alignment`, for an alignment that is a power of two
abbrev pub align : ℕ → ℕ → ℕ
align alignment x = let past = (x + (alignment - 1)) % u64_mod in past - past % alignment

-- `*pointer = page` in the newest array
abbrev pub set_page : List PageArray → ℕ → ℕ → List PageArray
set_page [] i page = []
set_page (x ∷ xs) i page = record { place = x.place; pages = set x.pages i page } ∷ xs

abbrev pub set_oversize : List OversizePageArray → ℕ → OversizePage → List OversizePageArray
set_oversize [] i page = []
set_oversize (x ∷ xs) i page = record { place = x.place; pages = set x.pages i page } ∷ xs

abbrev pub no_oversize : OversizePage
no_oversize = record { page = 0; bytes = 0; alignment = 0 }

module _ (a : PageAllocator) (u : Upstream) (thread : ℕ) where
  abbrev pub State : Type 0
  State = Buffer a.State u.State

  -- `_page_allocator->allocate()`
  abbrev pub get_page : a.State → Option (ℕ × a.State)
  get_page s = do got ← a.allocate thread 1 s; page ← first got.pages; some (page, got.state)

  -- The array is put behind what the old page holds, else behind the bytes in the new page, else in
  -- a page of its own.
  abbrev pub do_allocate_with_page_in_new_page_array :
      State → ℕ → ℕ → Option (Placed a.State u.State)
  do_allocate_with_page_in_new_page_array s bytes page =
      let used = align array_align s.last_page_allocated in
      let padded = align array_align bytes in
      if leb ((used + page_array_size) % u64_mod) a.page_size
      then some (record {
        address = page;
        buffer = record s {
          page_arrays =
              record { place = s.last_page + used; pages = replicate 14 0 ++ page ∷ [] }
              ∷ s.page_arrays;
          page_pointer = 14;
          last_page_allocated = bytes;
          last_page = page;
        };
      })
      else if leb ((bytes + page_array_size) % u64_mod) a.page_size
      then some (record {
        address = page;
        buffer = record s {
          page_arrays =
              record { place = page + padded; pages = replicate 14 0 ++ page ∷ [] } ∷ s.page_arrays;
          page_pointer = 14;
          last_page_allocated = padded + page_array_size;
          last_page = page;
        };
      })
      else (do
        (additional_page, p) ← get_page s.page_allocator
        some (record {
          address = page;
          buffer = record s {
            page_allocator = p;
            space_allocated = (s.space_allocated + a.page_size) % u64_mod;
            page_arrays =
                record {
                  place = additional_page;
                  pages = replicate 13 0 ++ additional_page ∷ page ∷ [];
                }
                ∷ s.page_arrays;
            page_pointer = 13;
            last_page_allocated = page_array_size;
            last_page = additional_page;
          };
        }))

  abbrev pub do_allocate_in_oversize_page : State → ℕ → ℕ → Option (Placed a.State u.State)
  do_allocate_in_oversize_page s bytes alignment =
      if ltb 0 s.oversize_pointer
      then (do
        (page, up) ← u.allocate bytes alignment s.upstream
        some (record {
          address = page;
          buffer = record s {
            upstream = up;
            oversize_page_num = (s.oversize_page_num + 1) % u64_mod;
            space_allocated = (s.space_allocated + bytes) % u64_mod;
            oversize_pointer = s.oversize_pointer - 1;
            oversize_arrays =
                set_oversize s.oversize_arrays (s.oversize_pointer - 1)
                  (record { page = page; bytes = bytes; alignment = alignment });
          };
        }))
      else (let larger = max alignment array_align in
          let padded = align larger bytes in
          let whole = (padded + oversize_array_size) % u64_mod in
          do
            (page, up) ← u.allocate whole larger s.upstream
            some (record {
              address = page;
              buffer = record s {
                upstream = up;
                oversize_page_num = (s.oversize_page_num + 1) % u64_mod;
                space_allocated = (s.space_allocated + whole) % u64_mod;
                oversize_pointer = 14;
                oversize_arrays =
                    record {
                      place = page + padded;
                      pages =
                          replicate 14 no_oversize
                          ++ record { page = page; bytes = whole; alignment = larger } ∷ [];
                    }
                    ∷ s.oversize_arrays;
              };
            }))

  -- The branch of `do_allocate_in_new_page` on the room in the newest array
  abbrev pub do_allocate_with_page : State → ℕ → ℕ → Option (Placed a.State u.State)
  do_allocate_with_page s bytes page =
      if ltb 0 s.page_pointer
      then some (record {
        address = page;
        buffer = record s {
          page_pointer = s.page_pointer - 1;
          page_arrays = set_page s.page_arrays (s.page_pointer - 1) page;
          last_page = page;
          last_page_allocated = bytes;
        };
      })
      else do_allocate_with_page_in_new_page_array s bytes page

  abbrev pub do_allocate_in_new_page : State → ℕ → ℕ → Option (Placed a.State u.State)
  do_allocate_in_new_page s bytes alignment =
      if leb bytes a.page_size && leb alignment a.page_size
      then (do
        (page, p) ← get_page s.page_allocator
        do_allocate_with_page
            (record s {
              page_allocator = p;
              space_allocated = (s.space_allocated + a.page_size) % u64_mod;
            })
            bytes page)
      else do_allocate_in_oversize_page s bytes alignment

  abbrev pub do_allocate_already_aligned : State → ℕ → ℕ → Option (Placed a.State u.State)
  do_allocate_already_aligned s bytes alignment =
      let s1 : State = record s { space_used = (s.space_used + bytes) % u64_mod } in
      if leb ((s1.last_page_allocated + bytes) % u64_mod) a.page_size
      then some (record {
        address = s1.last_page + s1.last_page_allocated;
        buffer = record s1 { last_page_allocated = s1.last_page_allocated + bytes };
      })
      else do_allocate_in_new_page s1 bytes alignment

  abbrev pub allocate : State → ℕ → ℕ → Option (Placed a.State u.State)
  allocate s bytes alignment =
      do_allocate_already_aligned
        (record s { last_page_allocated = align alignment s.last_page_allocated }) bytes alignment
