-- ===== src/Memory/Counting/Heap.antt =====
-- `PageHeap`, from its construction on.
use fuxi_n.Prelude.{ℕ, ◌+◌, ◌^◌, ◌≤◌, ◌≡◌, ◌⊎◌, refl, some, List, [], length, count, arith}
use fuxi_n.Memory.Pages.{Got, PageAllocator, IsPageAllocator}
use fuxi_n.Memory.History.{Call, run}
use fuxi_n.Memory.Cached.{Cache, destroy, destroy_lem, cached, cached-IsPageAllocator}
use fuxi_n.Memory.Counting.{Counted, allocated_page_num, page_heap}
use fuxi_n.Memory.Counting.Counts.{counting-run}

-- A heap as its constructor and `set_free_page_capacity` leave it
abbrev pub new_heap : {S : Type 0} → (capacity : ℕ) → S → Counted (Cache S)
new_heap capacity s = record {
  upstream = record {
    free_pages = [];
    capacity = capacity;
    upstream = s;
    hit_sum = 0;
    hit_num = 0;
  };
  allocate_page_num = 0;
}

-- From a new page heap of any capacity, over an allocator that keeps its contract, every history of
-- the calls of any threads comes back, no page is held twice, and `allocate_page_num` is the number of
-- the pages held, as long as this is below 2^63. The
-- destructor then comes back too, and what is out of the allocator below besides what was out before
-- is exactly what the users hold.
pub page_heap-run :
    (a : PageAllocator) (h : IsPageAllocator a) (capacity : ℕ) (s : a.State)
    → h.IsValid s
    → (cs : List Call)
    → (s' : Got (Counted (Cache a.State))) × (base : a.State) × (run
          (page_heap a)
          cs
          (record { pages = []; state = new_heap capacity s })
        ≡ some s')
      × ((p : ℕ) → count p s'.pages ≤ 1)
      × ((2 ^ 63 ≤ length s'.pages) ⊎ (allocated_page_num (cached a) s'.state ≡ length s'.pages))
      × (destroy a s'.state.upstream ≡ some base)
      × ((p : ℕ) → h.held base p ≡ h.held s p + count p s'.pages)
page_heap-run a h capacity s v cs =
    let (s', e, lent', once, counted) =
      counting-run (cached a) (cached-IsPageAllocator a h) (h.held s) cs
        (record { pages = []; state = new_heap capacity s })
        (record {
          valid = record { upstream = v; room = omega arith; owned = λ p. omega arith };
          held = λ p. omega arith;
          tracks = refl;
        }) in
    let (base, e', _, back) = destroy_lem a h s'.state.upstream lent'.valid in
    (s', base, e, once, counted, e', λ p. omega (arith, back p, lent'.held p))
