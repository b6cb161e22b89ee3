-- ===== src/Memory/Counting/Counts.antt =====
-- The counter of a counting allocator, over any history of calls.
use fuxi_n.Prelude.{
  ℕ, ◌+◌, ◌%◌, ◌^◌, ◌≤◌, ◌≡◌, ◌⊎◌, inl, inr, refl, ap, some, List, length, count, u64_mod, lt→ltb,
  arith,
}
use native.Mathlib.Decide.{dec_lt}
use fuxi_n.Memory.Pages.{Got, PageAllocator, IsPageAllocator, ◌>>=◌, bind_some}
use fuxi_n.Memory.History.{Call, run, IsTracked, IsLent, run-IsLent}
use fuxi_n.Memory.Counting.{
  Counted, add, negate, allocate, deallocate, allocated_page_num, counting,
}

abbrev pub Counts : (a : PageAllocator) → Counted a.State → ℕ → Type 0
Counts a s n = s.allocate_page_num ≡ n % u64_mod

module _ (a : PageAllocator) where
  counts_taken :
      (thread num : ℕ) (s : Counted a.State) (n : ℕ) (got : Got (Counted a.State))
      → Counts a s n
      → allocate a thread num s ≡ some got
      → Counts a got.state (num + n)
  counts_taken thread num s n got c e =
      let (g, _, same) =
        bind_some (a.allocate thread num s.upstream)
          (λ g. record {
            pages = g.pages;
            state = record { upstream = g.state; allocate_page_num = add s.allocate_page_num num };
          })
          got e in
      omega (arith, c, ap (λ t. t.state.allocate_page_num) same)

  counts_given :
      (pages : List ℕ) (s : Counted a.State) (n : ℕ) (s' : Counted a.State)
      → Counts a s (n + length pages)
      → deallocate a pages s ≡ some s'
      → Counts a s' n
  counts_given pages s n s' c e =
      let (up, _, same) =
        bind_some (a.deallocate pages s.upstream)
          (λ up. record {
            upstream = up;
            allocate_page_num = add s.allocate_page_num (negate (length pages));
          })
          s' e in
      omega (arith, c, ap (λ t. t.allocate_page_num) same)

  pub counting-IsTracked : IsTracked (counting a) (Counts a)
  counting-IsTracked = record { took = counts_taken; gave = counts_given }

module _ (a : PageAllocator) (h : IsPageAllocator a) where
  abbrev pub counting-IsPageAllocator : IsPageAllocator (counting a)
  counting-IsPageAllocator = record {
    IsValid = λ s. h.IsValid s.upstream;
    held = λ s. h.held s.upstream;
    held_once = λ s. h.held_once s.upstream;
    is_pow = h.is_pow;
    aligned = λ s. h.aligned s.upstream;
    allocates = λ thread num s v.
        let (got, e, n, v', more) = h.allocates thread num s.upstream v in
        (
          record {
            pages = got.pages;
            state = record {
              upstream = got.state;
              allocate_page_num = add s.allocate_page_num num;
            };
          },
          rw (e, ◌>>=◌) refl,
          n,
          v',
          more,
        );
    deallocates = λ pages s v fits.
        let (s', e, v', less) = h.deallocates pages s.upstream v fits in
        (
          record {
            upstream = s';
            allocate_page_num = add s.allocate_page_num (negate (length pages));
          },
          rw (e, ◌>>=◌) refl,
          v',
          less,
        );
  }

  -- From a counter that is right, every history of calls comes back, the pages on the list stay those
  -- that are held, no page is held twice, and `allocated_page_num` is the number of the pages held, as
  -- long as this is below 2^63.
  pub counting-run :
      (before : ℕ → ℕ) (cs : List Call) (s : Got (Counted a.State))
      → IsLent (counting a) counting-IsPageAllocator (Counts a) (counting-IsTracked a) before s
      → (s' : Got (Counted a.State)) × (run (counting a) cs s ≡ some s')
        × IsLent (counting a) counting-IsPageAllocator (Counts a) (counting-IsTracked a) before s'
        × ((p : ℕ) → count p s'.pages ≤ 1)
        × ((2 ^ 63 ≤ length s'.pages) ⊎ (allocated_page_num a s'.state ≡ length s'.pages))
  counting-run before cs s v =
      let (s', e, v', once) =
        run-IsLent (counting a) counting-IsPageAllocator (Counts a) (counting-IsTracked a) before cs
          s v in
      (
        s',
        e,
        v',
        once,
        elim (dec_lt (length s'.pages) (2 ^ 63)) [
          | yes small ↦
              let same : s'.state.allocate_page_num ≡ length s'.pages =
                omega (arith, v'.tracks, small) in
              inr
                (rw (lt→ltb s'.state.allocate_page_num (2 ^ 63) (omega (arith, small, same))) same)
          | no large ↦ inl (omega (arith, large))
        ],
      )
