-- ===== src/Memory/Buffer/Release.antt =====
-- The destroy tasks of a buffer, and `release`, `destruct_all` and `contains`
-- (src/fuxi/mm/memory_resource.h and memory_resource.cc).
use fuxi_n.Prelude.{
  Bool, false, ℕ, ◌+◌, ◌-◌, Option, some, List, [], ◌∷◌, ◌++◌, set, drop, replicate, ltb, leb, ◌&&◌,
  ◌||◌, if◌then◌else◌, u32_mod,
}
use fuxi_n.Memory.Pages.{PageAllocator, ◌>>=◌}
use fuxi_n.Memory.Buffer.{
  Upstream, PageArray, OversizePage, OversizePageArray, DestroyTask, DestroyTaskArray,
  task_array_size, array_align, State, allocate,
}

abbrev pub set_task : List DestroyTaskArray → ℕ → DestroyTask → List DestroyTaskArray
set_task [] i task = []
set_task (x ∷ xs) i task = record { place = x.place; tasks = set x.tasks i task } ∷ xs

abbrev pub no_task : DestroyTask
no_task = record { ptr = 0; destructor = 0 }

-- The tasks in the order in which `destruct_all` runs them: the index is that of the newest array,
-- and 0 in the older ones.
abbrev pub tasks_from : ℕ → List DestroyTaskArray → List DestroyTask
tasks_from i [] = []
tasks_from i (x ∷ xs) = drop i x.tasks ++ tasks_from 0 xs

-- `_last_page_allocated` is reset in the loop, so only if there was an array.
abbrev pub reset_allocated : List PageArray → ℕ → ℕ
reset_allocated [] x = x
reset_allocated (_ ∷ _) x = u32_mod - 1

abbrev pub pages_from : ℕ → List PageArray → List ℕ
pages_from i [] = []
pages_from i (x ∷ xs) = drop i x.pages ++ pages_from 0 xs

abbrev pub is_in : ℕ → ℕ → ℕ → Bool
is_in ptr start size = leb start ptr && ltb ptr (start + size)

abbrev pub contains_oversize : ℕ → List OversizePage → Bool
contains_oversize ptr [] = false
contains_oversize ptr (x ∷ rest) = is_in ptr x.page x.bytes || contains_oversize ptr rest

abbrev pub oversize_from : ℕ → List OversizePageArray → List OversizePage
oversize_from i [] = []
oversize_from i (x ∷ xs) = drop i x.pages ++ oversize_from 0 xs

module _ (a : PageAllocator) (u : Upstream) (thread : ℕ) where
  -- `get_destroy_task` and the two writes of `register_destructor`
  abbrev pub do_get_destroy_task_in_new_array : State a u thread → Option (State a u thread)
  do_get_destroy_task_in_new_array s = do
    got ← allocate a u thread s task_array_size array_align
    some (record got.buffer {
      task_arrays =
          record { place = got.address; tasks = replicate 15 no_task } ∷ got.buffer.task_arrays;
      task_pointer = 14;
    })

  abbrev pub get_destroy_task : State a u thread → Option (State a u thread)
  get_destroy_task s =
      if ltb 0 s.task_pointer
      then some (record s { task_pointer = s.task_pointer - 1 })
      else do_get_destroy_task_in_new_array s

  abbrev pub register_destructor : State a u thread → DestroyTask → Option (State a u thread)
  register_destructor s task = do
    s' ← get_destroy_task s
    some (record s' { task_arrays = set_task s'.task_arrays s'.task_pointer task })

  -- The buffer after the call, and the tasks that it ran
  abbrev pub destruct_all : State a u thread → State a u thread × List DestroyTask
  destruct_all s =
      (record s { task_arrays = []; task_pointer = 0 }, tasks_from s.task_pointer s.task_arrays)

  -- The loop over the page arrays: the pages of each go back in one call.
  abbrev pub release_pages : ℕ → List PageArray → a.State → Option a.State
  release_pages i [] p = some p
  release_pages i (x ∷ xs) p = a.deallocate (drop i x.pages) p >>= release_pages 0 xs

  abbrev pub release_array : List OversizePage → u.State → Option u.State
  release_array [] up = some up
  release_array (x ∷ xs) up = u.deallocate x.page x.bytes x.alignment up >>= release_array xs

  abbrev pub release_oversize : ℕ → List OversizePageArray → u.State → Option u.State
  release_oversize i [] up = some up
  release_oversize i (x ∷ xs) up = release_array (drop i x.pages) up >>= release_oversize 0 xs

  abbrev pub release : State a u thread → Option (State a u thread × List DestroyTask)
  release s =
      let (s1, ran) = destruct_all s in
      do
        p ← release_pages s1.page_pointer s1.page_arrays s1.page_allocator
        up ← release_oversize s1.oversize_pointer s1.oversize_arrays s1.upstream
        some (
          record s1 {
            page_allocator = p;
            upstream = up;
            page_arrays = [];
            page_pointer = 0;
            last_page = 0;
            last_page_allocated = reset_allocated s1.page_arrays s1.last_page_allocated;
            space_used = 0;
            space_allocated = 0;
            oversize_arrays = [];
            oversize_pointer = 0;
          },
          ran,
        )

  -- `contains`: the pages of the newest array from the pointer on, then those of the older ones; the
  -- first page counts up to `size`, the others whole.
  abbrev pub contains_pages : ℕ → ℕ → List ℕ → Bool
  contains_pages ptr size [] = false
  contains_pages ptr size (page ∷ rest) = is_in ptr page size || contains_pages ptr a.page_size rest

  abbrev pub contains : ℕ → State a u thread → Bool
  contains ptr s =
      contains_pages ptr s.last_page_allocated (pages_from s.page_pointer s.page_arrays)
      || contains_oversize ptr (oversize_from s.oversize_pointer s.oversize_arrays)
