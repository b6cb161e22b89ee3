-- ===== src/Memory/NewDelete.antt =====
-- `NewDeletePageAllocator` and `SystemPageAllocator`, which forwards to one (src/fuxi/mm/page_allocator.cc): pages of
-- the C++ runtime. `operator new` and `operator delete` are parameters.
use fuxi_n.Prelude.{
  ℕ, zero, suc, ◌+◌, ◌%◌, ◌^◌, ◌≤◌, ◌≡◌, refl, Option, some, List, [], ◌∷◌, length, count, tally,
  tally_self, arith,
}
use fuxi_n.Memory.Pages.{Got, PageAllocator, IsPageAllocator, ◌>>=◌}

-- The aligned `operator new` and `operator delete`. A call that throws ends the program, since the
-- callers are `noexcept`.
pub record Runtime : Type 1 where
  pub State : Type 0
  pub new : (bytes alignment : ℕ) → State → Option (ℕ × State)
  pub delete : (p bytes alignment : ℕ) → State → Option State

-- What the runtime documents of blocks of one size and alignment, as long as memory is left: a new
-- block is none of those in use and is aligned, and a block in use can be given back.
pub record IsRuntime (r : Runtime) (bytes : ℕ) : Type 1 where
  pub IsValid : r.State → Type 0
  pub live : r.State → ℕ → ℕ
  pub live_once : (s : r.State) (p : ℕ) → IsValid s → live s p ≤ 1
  pub live_aligned : (s : r.State) (p : ℕ) → IsValid s → 1 ≤ live s p → p % bytes ≡ 0
  pub news :
      (s : r.State)
      → IsValid s
      → (p : ℕ) × (s' : r.State) × (r.new bytes bytes s ≡ some (p, s'))
        × IsValid s'
        × ((q : ℕ) → live s' q ≡ live s q + tally q p)
  pub deletes :
      (p : ℕ) (s : r.State)
      → IsValid s
      → 1 ≤ live s p
      → (s' : r.State) × (r.delete p bytes bytes s ≡ some s')
        × IsValid s'
        × ((q : ℕ) → live s' q + tally q p ≡ live s q)

module _ (r : Runtime) (page_size : ℕ) where
  abbrev pub allocate_loop : ℕ → r.State → Option (Got r.State)
  allocate_loop zero s = some (record { pages = []; state = s })
  allocate_loop (suc num) s = do
    (p, s1) ← r.new page_size page_size s
    rest ← allocate_loop num s1
    some (record { pages = p ∷ rest.pages; state = rest.state })

  abbrev pub deallocate_loop : List ℕ → r.State → Option r.State
  deallocate_loop [] s = some s
  deallocate_loop (p ∷ ps) s = r.delete p page_size page_size s >>= deallocate_loop ps

  abbrev pub new_delete : PageAllocator
  new_delete = record {
    State = r.State;
    page_size = page_size;
    allocate = λ thread num s. allocate_loop num s;
    deallocate = deallocate_loop;
  }

module _ (r : Runtime) (page_size k : ℕ) (pow : page_size ≡ 2 ^ k) (h : IsRuntime r page_size) where
  pub allocate_loop_lem :
      (num : ℕ) (s : r.State)
      → h.IsValid s
      → (got : Got r.State) × (allocate_loop r page_size num s ≡ some got)
        × (length got.pages ≡ num)
        × h.IsValid got.state
        × ((p : ℕ) → h.live got.state p ≡ h.live s p + count p got.pages)
  allocate_loop_lem zero s v = (record { pages = []; state = s }, refl, refl, v, λ p. omega arith)
  allocate_loop_lem (suc num) s v =
      let (p, s1, e, v1, more) = h.news s v in
      let (rest, e', n, v2, more') = allocate_loop_lem num s1 v1 in
      (
        record { pages = p ∷ rest.pages; state = rest.state },
        rw (e, ◌>>=◌, e', ◌>>=◌) refl,
        omega (arith, n),
        v2,
        λ q. omega (arith, more q, more' q),
      )

  pub deallocate_loop_lem :
      (pages : List ℕ) (s : r.State)
      → h.IsValid s
      → ((p : ℕ) → count p pages ≤ h.live s p)
      → (s' : r.State) × (deallocate_loop r page_size pages s ≡ some s')
        × h.IsValid s'
        × ((p : ℕ) → h.live s' p + count p pages ≡ h.live s p)
  deallocate_loop_lem [] s v fits = (s, refl, v, λ p. omega arith)
  deallocate_loop_lem (x ∷ xs) s v fits =
      let (s1, e, v1, less) = h.deletes x s v (omega (arith, fits x, tally_self x)) in
      let (s2, e', v2, less') = deallocate_loop_lem xs s1 v1 (λ p. omega (arith, fits p, less p)) in
      (s2, rw (e, ◌>>=◌) e', v2, λ p. omega (arith, less p, less' p))

  -- Pages of the runtime meet what a user of a page allocator counts on: every call comes back, and
  -- no page is handed out again before it was given back.
  abbrev pub new_delete-IsPageAllocator : IsPageAllocator (new_delete r page_size)
  new_delete-IsPageAllocator = record {
    IsValid = h.IsValid;
    held = h.live;
    held_once = h.live_once;
    is_pow = (k, pow);
    aligned = h.live_aligned;
    allocates = λ thread num s v. allocate_loop_lem num s v;
    deallocates = deallocate_loop_lem;
  }
