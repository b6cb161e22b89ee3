-- ===== src/Memory/Pages.antt =====
-- `PageAllocator` (src/fuxi/mm/page_allocator.h): the operations that every page allocator has, and
-- what a user counts on. A page is its address. `none` stands for a call the program does not survive.
use fuxi_n.Prelude.{
  ℕ, zero, suc, ◌+◌, ◌%◌, ◌^◌, ◌≤◌, ◌≡◌, Option, none, some, List, [], ◌∷◌, ◌++◌, length,
  length-append, count, count-append, refl, arith,
}

-- The pages that a call handed out, and the allocator after it
pub record Got (S : Type 0) : Type 0 where
  pub pages : List ℕ
  pub state : S

pub record PageAllocator : Type 1 where
  pub State : Type 0
  pub page_size : ℕ
  -- `thread` asks for `num` pages
  pub allocate : (thread num : ℕ) → State → Option (Got State)
  pub deallocate : List ℕ → State → Option State

-- `held s p` tells how often the users of the allocator hold the page.
pub record IsPageAllocator (a : PageAllocator) : Type 1 where
  pub IsValid : a.State → Type 0
  pub held : a.State → ℕ → ℕ
  pub held_once : (s : a.State) (p : ℕ) → IsValid s → held s p ≤ 1
  pub is_pow : (k : ℕ) × (a.page_size ≡ 2 ^ k)
  pub aligned : (s : a.State) (p : ℕ) → IsValid s → 1 ≤ held s p → p % a.page_size ≡ 0
  pub allocates :
      (thread num : ℕ) (s : a.State)
      → IsValid s
      → (got : Got a.State) × (a.allocate thread num s ≡ some got)
        × (length got.pages ≡ num)
        × IsValid got.state
        × ((p : ℕ) → held got.state p ≡ held s p + count p got.pages)
  pub deallocates :
      (pages : List ℕ) (s : a.State)
      → IsValid s
      → ((p : ℕ) → count p pages ≤ held s p)
      → (s' : a.State) × (a.deallocate pages s ≡ some s')
        × IsValid s'
        × ((p : ℕ) → held s' p + count p pages ≡ held s p)

-- The rest of a call after a part that gave a result
infixl 5 ◌>>=◌
abbrev pub ◌>>=◌ : {A B : Type 0} → Option A → (A → Option B) → Option B
none >>= k = none
some x >>= k = k x

-- The page at the front of a non-empty list
abbrev pub first : List ℕ → Option ℕ
first [] = none
first (p ∷ ps) = some p

-- The part behind a result, and what became of it
pub bind_some :
    {A B : Type 0} (r : Option A) (f : A → B) (y : B)
    → (r >>= λ x. some (f x)) ≡ some y
    → (x : A) × (r ≡ some x) × (f x ≡ y)
bind_some none f y e = absurd (cc e)
bind_some (some x) f y e = (x, refl, cc e)

module _ (a : PageAllocator) where
  -- `*pages++ = _upstream->allocate()`, `num` times
  pub allocate_each : ℕ → ℕ → a.State → Option (Got a.State)
  allocate_each thread zero s = some (record { pages = []; state = s })
  allocate_each thread (suc num) s = do
    first ← a.allocate thread 1 s
    rest ← allocate_each thread num first.state
    some (record { pages = first.pages ++ rest.pages; state = rest.state })

  -- `_upstream->deallocate(*pages++)` for each page
  pub deallocate_each : List ℕ → a.State → Option a.State
  deallocate_each [] s = some s
  deallocate_each (p ∷ ps) s = a.deallocate (p ∷ []) s >>= deallocate_each ps

module _ (a : PageAllocator) (h : IsPageAllocator a) where
  pub allocate_each_lem :
      (thread num : ℕ) (s : a.State)
      → h.IsValid s
      → (got : Got a.State) × (allocate_each a thread num s ≡ some got)
        × (length got.pages ≡ num)
        × h.IsValid got.state
        × ((p : ℕ) → h.held got.state p ≡ h.held s p + count p got.pages)
  unfolding allocate_each
  allocate_each_lem thread zero s v =
      (record { pages = []; state = s }, refl, refl, v, λ p. omega arith)
  allocate_each_lem thread (suc num) s v =
      let (first, e, n, v1, more) = h.allocates thread 1 s v in
      let (rest, e', n', v2, more') = allocate_each_lem thread num first.state v1 in
      (
        record { pages = first.pages ++ rest.pages; state = rest.state },
        rw (e, ◌>>=◌, e', ◌>>=◌) refl,
        omega (arith, length-append first.pages rest.pages, n, n'),
        v2,
        λ p. omega (arith, more p, more' p, count-append p first.pages rest.pages),
      )

  pub deallocate_each_lem :
      (pages : List ℕ) (s : a.State)
      → h.IsValid s
      → ((p : ℕ) → count p pages ≤ h.held s p)
      → (s' : a.State) × (deallocate_each a pages s ≡ some s')
        × h.IsValid s'
        × ((p : ℕ) → h.held s' p + count p pages ≡ h.held s p)
  unfolding deallocate_each
  deallocate_each_lem [] s v fits = (s, refl, v, λ p. omega arith)
  deallocate_each_lem (x ∷ xs) s v fits =
      let (s1, e, v1, less) = h.deallocates (x ∷ []) s v (λ p. omega (arith, fits p)) in
      let (s2, e', v2, less') = deallocate_each_lem xs s1 v1 (λ p. omega (arith, fits p, less p)) in
      (s2, rw (e, ◌>>=◌) e', v2, λ p. omega (arith, less p, less' p))
