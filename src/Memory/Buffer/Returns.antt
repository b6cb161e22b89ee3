-- ===== src/Memory/Buffer/Returns.antt =====
-- `release` and its loops over the pages and the blocks.
use fuxi_n.Prelude.{
  ℕ, ◌+◌, ◌-◌, ◌%◌, ◌^◌, ◌≤◌, ◌≡◌, refl, some, List, [], ◌∷◌, ◌++◌, drop, count, count-append,
  arith,
}
use native.Mathlib.Decide.{dec_lt}
use native.Mathlib.Nat.{mod-eq_of_lt}
use fuxi_n.Memory.Pages.{PageAllocator, IsPageAllocator, ◌>>=◌}
use fuxi_n.Memory.Buffer.{Upstream, PageArray, OversizePage, OversizePageArray, State}
use fuxi_n.Memory.Buffer.Release.{
  tasks_from, release_pages, release_array, release_oversize, release, reset_allocated, pages_from,
  oversize_from,
}
use fuxi_n.Memory.Buffer.Cover.{cover, cover_pages, cover_none, cover_start}
use fuxi_n.Memory.Buffer.Layout.{IsUpstream, Piece, count_block, tally_block, IsOwner, IsLaid}
use fuxi_n.Memory.Buffer.NewArray.{IsPageSize}

pub count_block-append :
    (b : OversizePage) (xs ys : List OversizePage)
    → count_block b (xs ++ ys) ≡ count_block b xs + count_block b ys
count_block-append b [] ys = omega arith
count_block-append b (x ∷ xs) ys = omega (arith, count_block-append b xs ys)

tally_block_self : (b : OversizePage) → tally_block b b ≡ 1
tally_block_self b = ground arith

module _ (a : PageAllocator) (h : IsPageAllocator a) (u : Upstream) (hu : IsUpstream u)
    (thread : ℕ) where
  release_pages_lem :
      (i : ℕ) (ys : List PageArray) (p : a.State)
      → h.IsValid p
      → ((q : ℕ) → count q (pages_from i ys) ≤ h.held p q)
      → (p' : a.State) × (release_pages a u thread i ys p ≡ some p')
        × h.IsValid p'
        × ((q : ℕ) → h.held p' q + count q (pages_from i ys) ≡ h.held p q)
  release_pages_lem i [] p v fits = (p, refl, v, λ q. omega arith)
  release_pages_lem i (y ∷ ys) p v fits =
      let split : (q : ℕ)
          → count q (pages_from i (y ∷ ys)) ≡ count q (drop i y.pages) + count q (pages_from 0 ys) =
        λ q. count-append q (drop i y.pages) (pages_from 0 ys) in
      let (p1, e, v1, less) =
        h.deallocates (drop i y.pages) p v (λ q. omega (arith, fits q, split q)) in
      let (p2, e', v2, less') =
        release_pages_lem 0 ys p1 v1 (λ q. omega (arith, fits q, split q, less q)) in
      (p2, rw (e, ◌>>=◌) e', v2, λ q. omega (arith, split q, less q, less' q))

  release_array_lem :
      (bs : List OversizePage) (s : u.State)
      → hu.IsValid s
      → ((b : OversizePage) → count_block b bs ≤ hu.live s b)
      → (s' : u.State) × (release_array a u thread bs s ≡ some s')
        × hu.IsValid s'
        × ((b : OversizePage) → hu.live s' b + count_block b bs ≡ hu.live s b)
  release_array_lem [] s v fits = (s, refl, v, λ b. omega arith)
  release_array_lem (x ∷ xs) s v fits =
      let (s1, e, v1, less) = hu.deallocates x s v (omega (arith, fits x, tally_block_self x)) in
      let (s2, e', v2, less') = release_array_lem xs s1 v1 (λ b. omega (arith, fits b, less b)) in
      (s2, rw (e, ◌>>=◌) e', v2, λ b. omega (arith, less b, less' b))

  release_oversize_lem :
      (i : ℕ) (ys : List OversizePageArray) (s : u.State)
      → hu.IsValid s
      → ((b : OversizePage) → count_block b (oversize_from i ys) ≤ hu.live s b)
      → (s' : u.State) × (release_oversize a u thread i ys s ≡ some s')
        × hu.IsValid s'
        × ((b : OversizePage) → hu.live s' b + count_block b (oversize_from i ys) ≡ hu.live s b)
  release_oversize_lem i [] s v fits = (s, refl, v, λ b. omega arith)
  release_oversize_lem i (y ∷ ys) s v fits =
      let split : (b : OversizePage)
          → count_block b (oversize_from i (y ∷ ys))
            ≡ count_block b (drop i y.pages) + count_block b (oversize_from 0 ys) =
        λ b. count_block-append b (drop i y.pages) (oversize_from 0 ys) in
      let (s1, e, v1, less) =
        release_array_lem (drop i y.pages) s v (λ b. omega (arith, fits b, split b)) in
      let (s2, e', v2, less') =
        release_oversize_lem 0 ys s1 v1 (λ b. omega (arith, fits b, split b, less b)) in
      (s2, rw (e, ◌>>=◌) e', v2, λ b. omega (arith, split b, less b, less' b))

pub zero_mod : (n : ℕ) → 1 ≤ n → 0 % n ≡ 0
zero_mod n pos = mod-eq_of_lt pos

-- After `release` no piece fits before a new page comes, and the offset is in range.
reset_allocated-ge :
    (ys : List PageArray) (i start allocated size : ℕ)
    → size ≤ 2 ^ 31
    → ((x : ℕ)
        → cover x (start + allocated) (size - allocated) ≤ cover_pages x size (pages_from i ys))
    → size ≤ reset_allocated ys allocated
reset_allocated-ge (_ ∷ _) i start allocated size small rest = omega (arith, small)
reset_allocated-ge [] i start allocated size small rest = elim (dec_lt allocated size) [
  | yes less ↦ absurd (
      omega (
        arith,
        rest (start + allocated),
        cover_start (start + allocated) (size - allocated) (omega (arith, less)),
      ))
  | no ge ↦ omega (arith, ge)
]

reset_allocated-le :
    (ys : List PageArray) (allocated : ℕ)
    → allocated ≤ 2 ^ 62
    → reset_allocated ys allocated ≤ 2 ^ 62
reset_allocated-le [] allocated low = low
reset_allocated-le (_ ∷ _) allocated low = omega arith

module _ (a : PageAllocator) (h : IsPageAllocator a) (u : Upstream) (hu : IsUpstream u) (thread : ℕ)
    (pages_before : ℕ → ℕ) (blocks_before : OversizePage → ℕ) where
  -- Whatever the buffer did, `release` comes back, the two allocators then have out only what others
  -- have of them, the tasks run newest first, and the buffer is ready for new pieces.
  pub release_lem :
      (s : State a u thread) (pieces : List Piece)
      → IsPageSize a.page_size
      → IsOwner a h u hu thread pages_before blocks_before s
      → IsLaid a h u hu thread pages_before blocks_before s pieces
      → (s' : State a u thread) × (release a u thread s
          ≡ some (s', tasks_from s.task_pointer s.task_arrays))
        × IsOwner a h u hu thread pages_before blocks_before s'
        × IsLaid a h u hu thread pages_before blocks_before s' []
        × ((p : ℕ) → h.held s'.page_allocator p ≡ pages_before p)
        × ((b : OversizePage) → hu.live s'.upstream b ≡ blocks_before b)
        × (s'.task_pointer ≡ 0)
        × (s'.task_arrays ≡ [])
  release_lem s pieces z o l =
      let (p, e, v, less) =
        release_pages_lem a h u hu thread s.page_pointer s.page_arrays s.page_allocator
          o.page_allocator (λ q. omega (arith, o.holds q)) in
      let (up, e', v', less') =
        release_oversize_lem a h u hu thread s.oversize_pointer s.oversize_arrays s.upstream
          o.upstream (λ b. omega (arith, o.holds_blocks b)) in
      let reset = reset_allocated s.page_arrays s.last_page_allocated in
      let full : a.page_size ≤ reset =
        reset_allocated-ge s.page_arrays s.page_pointer s.last_page s.last_page_allocated
          a.page_size z.small l.rest in
      (
        record {
          page_allocator = p;
          upstream = up;
          page_arrays = [];
          page_pointer = 0;
          last_page = 0;
          last_page_allocated = reset;
          space_used = 0;
          space_allocated = 0;
          oversize_arrays = [];
          oversize_pointer = 0;
          task_arrays = [];
          task_pointer = 0;
          oversize_page_num = s.oversize_page_num;
        },
        rw (e, ◌>>=◌, e', ◌>>=◌) refl,
        record {
          page_allocator = v;
          upstream = v';
          page_pointer = refl;
          oversize_pointer = refl;
          holds = λ q. omega (arith, o.holds q, less q);
          holds_blocks = λ b. omega (arith, o.holds_blocks b, less' b);
          housed = tt;
          space = refl;
        },
        record {
          low = reset_allocated-le s.page_arrays s.last_page_allocated l.low;
          nonzero = omega (arith, full, z.large);
          last_page = zero_mod a.page_size (omega (arith, z.large));
          newest = tt;
          rest = λ x.
              omega (arith, cover_none x (0 + reset) (a.page_size - reset) (omega (arith, full)));
          apart = λ x.
              omega (arith, cover_none x (0 + reset) (a.page_size - reset) (omega (arith, full)));
        },
        (λ q. omega (arith, o.holds q, less q)),
        (λ b. omega (arith, o.holds_blocks b, less' b)),
        refl,
        refl,
      )
