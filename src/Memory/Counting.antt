-- ===== src/Memory/Counting.antt =====
-- `CountingPageAllocator` and `PageHeap` (src/fuxi/mm/page_allocator.cc): a page allocator that counts the pages its users
-- hold. The counter is one word of 64 bits, which a `ConcurrentAdder` is to its users.

pub mod Counts
pub mod Heap
use fuxi_n.Prelude.{ℕ, ◌+◌, ◌-◌, ◌%◌, ◌^◌, Option, some, List, length, u64_mod, ltb, if◌then◌else◌}
use fuxi_n.Memory.Pages.{Got, PageAllocator, ◌>>=◌}
use fuxi_n.Memory.Cached.{cached}

pub record Counted (S : Type 0) : Type 0 where
  pub upstream : S
  pub allocate_page_num : ℕ

-- `counter << value`, of a word and of one that is negated
abbrev pub add : ℕ → ℕ → ℕ
add counter value = (counter + value) % u64_mod

abbrev pub negate : ℕ → ℕ
negate value = (u64_mod - value % u64_mod) % u64_mod

module _ (a : PageAllocator) where
  abbrev pub allocate : (thread num : ℕ) → Counted a.State → Option (Got (Counted a.State))
  allocate thread num s = do
    got ← a.allocate thread num s.upstream
    some (record {
      pages = got.pages;
      state = record { upstream = got.state; allocate_page_num = add s.allocate_page_num num };
    })

  abbrev pub deallocate : List ℕ → Counted a.State → Option (Counted a.State)
  deallocate pages s = do
    upstream ← a.deallocate pages s.upstream
    some (record {
      upstream = upstream;
      allocate_page_num = add s.allocate_page_num (negate (length pages));
    })

  -- `::std::max<ssize_t>(0, _allocate_page_num.value())`
  abbrev pub allocated_page_num : Counted a.State → ℕ
  allocated_page_num s = if ltb s.allocate_page_num (2 ^ 63) then s.allocate_page_num else 0

  abbrev pub counting : PageAllocator
  counting = record {
    State = Counted a.State;
    page_size = a.page_size;
    allocate = allocate;
    deallocate = deallocate;
  }

-- `PageHeap`: the pages that it counts come of a cache over one of the allocators of the runtime.
abbrev pub page_heap : PageAllocator → PageAllocator
page_heap a = counting (cached a)
