-- ===== src/Memory/Cached.antt =====
-- `CachedPageAllocator` (src/fuxi/mm/page_allocator.cc): free pages are kept in a bounded queue before they go
-- back to the upstream allocator. The calls run one after the other. The queue is the list of its
-- values, oldest first; a `pop_n` that finds too few has its compensating callback push the missing
-- ones, and a `push_n` that finds too little room has it pop the oldest.
use fuxi_n.Prelude.{
  ℕ, ◌+◌, ◌-◌, ◌%◌, ◌≤◌, ◌≡◌, refl, sym, ap, ◌∙◌, Option, some, List, [], ◌++◌, length,
  length-append, length-take, length-drop, take, drop, take-append-drop, count, count-append, min,
  u64_mod, arith,
}
use fuxi_n.Memory.Pages.{
  Got, PageAllocator, IsPageAllocator, ◌>>=◌, allocate_each, allocate_each_lem, deallocate_each,
  deallocate_each_lem,
}

pub record Cache (S : Type 0) : Type 0 where
  pub free_pages : List ℕ
  pub capacity : ℕ
  pub upstream : S
  -- `_cache_hit`: the pages served by the cache, and the pages asked for
  pub hit_sum : ℕ
  pub hit_num : ℕ

module _ (a : PageAllocator) where
  -- `set_free_page_capacity`, where the queue takes `capacity` as `bit_ceil` of what it is asked for
  abbrev pub set_free_page_capacity : (capacity : ℕ) → Cache a.State → Cache a.State
  set_free_page_capacity capacity s = record s { free_pages = []; capacity = capacity }

  abbrev pub allocate : (thread num : ℕ) → Cache a.State → Option (Got (Cache a.State))
  allocate thread num s =
      let need_pop_num = min num s.capacity in
      let missing = need_pop_num - length s.free_pages in
      do
        pushed ← allocate_each a thread missing s.upstream
        beyond ← allocate_each a thread (num - need_pop_num) pushed.state
        some (record {
          pages = take need_pop_num s.free_pages ++ (pushed.pages ++ beyond.pages);
          state = record {
            free_pages = drop need_pop_num s.free_pages;
            capacity = s.capacity;
            upstream = beyond.state;
            hit_sum = (s.hit_sum + (need_pop_num - missing)) % u64_mod;
            hit_num = (s.hit_num + num) % u64_mod;
          };
        })

  abbrev pub deallocate : List ℕ → Cache a.State → Option (Cache a.State)
  deallocate pages s =
      let need_push_num = min (length pages) s.capacity in
      let overflow = (length s.free_pages + need_push_num) - s.capacity in
      do
        popped ← deallocate_each a (take overflow s.free_pages) s.upstream
        beyond ← deallocate_each a (drop need_push_num pages) popped
        some (record s {
          free_pages = drop overflow s.free_pages ++ take need_push_num pages;
          upstream = beyond;
        })

  -- `~CachedPageAllocator`: what is left is the upstream allocator
  abbrev pub destroy : Cache a.State → Option a.State
  destroy s = deallocate_each a s.free_pages s.upstream

  abbrev pub cached : PageAllocator
  cached = record {
    State = Cache a.State;
    page_size = a.page_size;
    allocate = allocate;
    deallocate = deallocate;
  }

module _ (a : PageAllocator) (h : IsPageAllocator a) where
  -- The queue holds no more than its capacity, and only pages that the upstream allocator gave it.
  pub record IsCache (s : Cache a.State) : Type 0 where
    pub upstream : h.IsValid s.upstream
    pub room : length s.free_pages ≤ s.capacity
    pub owned : (p : ℕ) → count p s.free_pages ≤ h.held s.upstream p

  abbrev pub lent : Cache a.State → ℕ → ℕ
  lent s p = h.held s.upstream p - count p s.free_pages

  count_split : (p n : ℕ) (xs : List ℕ) → count p (take n xs) + count p (drop n xs) ≡ count p xs
  count_split p n xs =
      sym (count-append p (take n xs) (drop n xs)) ∙ ap (count p) (take-append-drop n xs)

  pub allocate-IsCache :
      (thread num : ℕ) (s : Cache a.State)
      → IsCache s
      → (got : Got (Cache a.State)) × (allocate a thread num s ≡ some got)
        × (length got.pages ≡ num)
        × IsCache got.state
        × ((p : ℕ) → lent got.state p ≡ lent s p + count p got.pages)
  allocate-IsCache thread num s v =
      let need = min num s.capacity in
      let missing = need - length s.free_pages in
      let (pushed, e, n, v1, more) = allocate_each_lem a h thread missing s.upstream v.upstream in
      let (beyond, e', n', v2, more') = allocate_each_lem a h thread (num - need) pushed.state v1 in
      let after : Cache a.State = record {
        free_pages = drop need s.free_pages;
        capacity = s.capacity;
        upstream = beyond.state;
        hit_sum = (s.hit_sum + (need - missing)) % u64_mod;
        hit_num = (s.hit_num + num) % u64_mod;
      } in
      (
        record { pages = take need s.free_pages ++ (pushed.pages ++ beyond.pages); state = after },
        rw (e, ◌>>=◌, e', ◌>>=◌) refl,
        omega (
          arith,
          length-append (take need s.free_pages) (pushed.pages ++ beyond.pages),
          length-append pushed.pages beyond.pages,
          length-take need s.free_pages,
          n,
          n',
        ),
        record {
          upstream = v2;
          room = omega (arith, length-drop need s.free_pages, v.room);
          owned = λ p. omega (arith, count_split p need s.free_pages, v.owned p, more p, more' p);
        },
        λ p. omega (
          arith,
          count_split p need s.free_pages,
          v.owned p,
          more p,
          more' p,
          count-append p (take need s.free_pages) (pushed.pages ++ beyond.pages),
          count-append p pushed.pages beyond.pages,
        ),
      )

  pub deallocate-IsCache :
      (pages : List ℕ) (s : Cache a.State)
      → IsCache s
      → ((p : ℕ) → count p pages ≤ lent s p)
      → (s' : Cache a.State) × (deallocate a pages s ≡ some s')
        × IsCache s'
        × ((p : ℕ) → lent s' p + count p pages ≡ lent s p)
  deallocate-IsCache pages s v fits =
      let need = min (length pages) s.capacity in
      let overflow = (length s.free_pages + need) - s.capacity in
      let (popped, e, v1, less) =
        deallocate_each_lem a h (take overflow s.free_pages) s.upstream v.upstream
          (λ p. omega (arith, count_split p overflow s.free_pages, v.owned p)) in
      let (beyond, e', v2, less') = deallocate_each_lem a h (drop need pages) popped v1 (λ p.
        omega
          (arith, count_split p need pages, count_split p overflow s.free_pages, fits p, less p)) in
      (
        record s { free_pages = drop overflow s.free_pages ++ take need pages; upstream = beyond },
        rw (e, ◌>>=◌, e', ◌>>=◌) refl,
        record {
          upstream = v2;
          room = omega (
            arith,
            length-append (drop overflow s.free_pages) (take need pages),
            length-drop overflow s.free_pages,
            length-take need pages,
            v.room,
          );
          owned = λ p. omega (
            arith,
            count_split p overflow s.free_pages,
            count_split p need pages,
            count-append p (drop overflow s.free_pages) (take need pages),
            fits p,
            v.owned p,
            less p,
            less' p,
          );
        },
        λ p. omega (
          arith,
          count_split p overflow s.free_pages,
          count_split p need pages,
          count-append p (drop overflow s.free_pages) (take need pages),
          fits p,
          v.owned p,
          less p,
          less' p,
        ),
      )

  abbrev pub cached-IsPageAllocator : IsPageAllocator (cached a)
  cached-IsPageAllocator = record {
    IsValid = IsCache;
    held = lent;
    held_once = λ s p v. omega (arith, h.held_once s.upstream p v.upstream);
    is_pow = h.is_pow;
    aligned = λ s p v lent_to. h.aligned s.upstream p v.upstream (omega (arith, lent_to));
    allocates = allocate-IsCache;
    deallocates = deallocate-IsCache;
  }

  -- The destructor gives every page of the cache back to the upstream allocator, which then holds
  -- as lent only what the users of the cache still hold.
  pub destroy_lem :
      (s : Cache a.State)
      → IsCache s
      → (s' : a.State) × (destroy a s ≡ some s') × h.IsValid s' × ((p : ℕ) → h.held s' p ≡ lent s p)
  destroy_lem s v =
      let (s', e, v', less) = deallocate_each_lem a h s.free_pages s.upstream v.upstream v.owned in
      (s', e, v', λ p. omega (arith, less p))
