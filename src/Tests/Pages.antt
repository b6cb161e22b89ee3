-- ===== src/Tests/Pages.antt =====
-- A runtime that hands out one page after the other, on which the theorems about the page allocators
-- and the buffer hold.
use fuxi_n.Prelude.{
  ℕ, ◌+◌, ◌%◌, ◌^◌, ◌≤◌, ◌<◌, ◌≡◌, ◌⊎◌, refl, none, some, List, [], ◌∷◌, length, count, tally, ◌==◌,
  ltb, if◌then◌else◌, ==_ne, lt→ltb, ap, arith,
}
use native.Mathlib.Decide.{dec_lt, ℕ_discrete}
use fuxi_n.Memory.Pages.{Got, IsPageAllocator}
use fuxi_n.Memory.NewDelete.{Runtime, IsRuntime, new_delete, new_delete-IsPageAllocator}
use fuxi_n.Memory.History.{Call, takes, gives_back, run}
use fuxi_n.Memory.Cached.{Cache, cached, destroy}
use fuxi_n.Memory.Batch
use fuxi_n.Memory.Batch.{Batch, batched}
use fuxi_n.Memory.Counting.{Counted, page_heap, allocated_page_num}
use fuxi_n.Memory.Counting.Heap.{new_heap, page_heap-run}
use fuxi_n.Memory.Batch.Runs.{new_batch, batched-run}

pub record Bump : Type 0 where
  pub next : ℕ
  pub live : List ℕ

abbrev pub remove : ℕ → List ℕ → List ℕ
remove p [] = []
remove p (x ∷ xs) = let rest = remove p xs in if p == x then xs else x ∷ rest

abbrev pub page : ℕ
page = 4096

abbrev pub bump_runtime : Runtime
bump_runtime = record {
  State = Bump;
  new =
      λ bytes alignment s. some (s.next, record { next = s.next + bytes; live = s.next ∷ s.live });
  delete = λ p bytes alignment s.
      if ltb 0 (count p s.live)
      then some (record { next = s.next; live = remove p s.live })
      else none;
}

pub record IsBump (s : Bump) : Type 0 where
  pub once : (p : ℕ) → count p s.live ≤ 1
  pub below : (p : ℕ) → 1 ≤ count p s.live → p < s.next
  pub even : (p : ℕ) → 1 ≤ count p s.live → p % page ≡ 0
  pub next_even : s.next % page ≡ 0

tally_ne : (p q : ℕ) → (p ≡ q → ⊥) → tally p q ≡ 0
tally_ne p q ne = ground arith

pub count-remove :
    (p q : ℕ) (xs : List ℕ) → 1 ≤ count p xs → count q (remove p xs) + tally q p ≡ count q xs
count-remove p q [] h = absurd (omega (arith, h))
count-remove p q (x ∷ xs) h = elim (ℕ_discrete p x) [
  | yes e ↦ ground arith
  | no ne ↦
      let later : tally p x ≡ 0 = tally_ne p x ne in
      rw (==_ne p x ne) (omega (arith, count-remove p q xs (omega (arith, h, later))))
]

tally_once : (p q : ℕ) → tally p q ≤ 1
tally_once p q = grind arith

new_page_once : (s : Bump) → IsBump s → count s.next s.live ≡ 0
new_page_once s v = elim (dec_lt 0 (count s.next s.live)) [
  | yes h ↦ absurd (omega (arith, v.below s.next h))
  | no h ↦ omega (arith, h)
]

tally_same : (p q : ℕ) → 1 ≤ tally p q → p ≡ q
tally_same p q h = ground arith

pub new_IsBump :
    (s : Bump) → IsBump s → IsBump (record { next = s.next + page; live = s.next ∷ s.live })
new_IsBump s v = record {
  once = λ p. elim (ℕ_discrete p s.next) [
    | yes e ↦ omega (arith, ap (λ t. count t s.live) e, new_page_once s v, tally_once p s.next)
    | no ne ↦ omega (arith, v.once p, tally_ne p s.next ne)
  ];
  below = λ p h. elim (dec_lt 0 (count p s.live)) [
    | yes old ↦ omega (arith, v.below p old)
    | no fresh ↦ omega (arith, tally_same p s.next (omega (arith, h, fresh)))
  ];
  even = λ p h. elim (dec_lt 0 (count p s.live)) [
    | yes old ↦ v.even p old
    | no fresh ↦ omega (arith, tally_same p s.next (omega (arith, h, fresh)), v.next_even)
  ];
  next_even = omega (arith, v.next_even);
}

pub delete_IsBump :
    (p : ℕ) (s : Bump)
    → 1 ≤ count p s.live
    → IsBump s
    → IsBump (record { next = s.next; live = remove p s.live })
delete_IsBump p s h v = record {
  once = λ q. omega (arith, v.once q, count-remove p q s.live h);
  below = λ q one. v.below q (omega (arith, one, count-remove p q s.live h));
  even = λ q one. v.even q (omega (arith, one, count-remove p q s.live h));
  next_even = v.next_even;
}

abbrev pub bump-IsRuntime : IsRuntime bump_runtime page
bump-IsRuntime = record {
  IsValid = IsBump;
  live = λ s p. count p s.live;
  live_once = λ s p v. v.once p;
  live_aligned = λ s p v h. v.even p h;
  news = λ s v. (
    s.next,
    record { next = s.next + page; live = s.next ∷ s.live },
    refl,
    new_IsBump s v,
    λ q. omega arith,
  );
  deletes = λ p s v h. (
    record { next = s.next; live = remove p s.live },
    rw (lt→ltb 0 (count p s.live) h) refl,
    delete_IsBump p s h v,
    λ q. count-remove p q s.live h,
  );
}

abbrev pub start : Bump
start = record { next = page; live = [] }

pub start-IsBump : IsBump start
start-IsBump = record {
  once = λ p. omega arith;
  below = λ p h. absurd (omega (arith, h));
  even = λ p h. absurd (omega (arith, h));
  next_even = refl;
}

abbrev pub pages_of_runtime : IsPageAllocator (new_delete bump_runtime page)
pages_of_runtime = new_delete-IsPageAllocator bump_runtime page 12 refl bump-IsRuntime

abbrev calls : List Call
calls = takes 0 3 ∷ takes 1 2 ∷ gives_back 1 3 ∷ takes 0 1 ∷ []

page_heap-run_example :
    (s' : Got (Counted (Cache Bump))) × (base : Bump) × (run
        (page_heap (new_delete bump_runtime page))
        calls
        (record { pages = []; state = new_heap 2 start })
      ≡ some s')
    × ((p : ℕ) → count p s'.pages ≤ 1)
    × ((2 ^ 63 ≤ length s'.pages)
        ⊎ (allocated_page_num (cached (new_delete bump_runtime page)) s'.state ≡ length s'.pages))
    × (destroy (new_delete bump_runtime page) s'.state.upstream ≡ some base)
    × ((p : ℕ) → count p base.live ≡ count p start.live + count p s'.pages)
page_heap-run_example =
    page_heap-run (new_delete bump_runtime page) pages_of_runtime 2 start start-IsBump calls

batched-run_example :
    (s' : Got (Batch Bump)) × (up : Bump) × (run
        (batched (new_delete bump_runtime page))
        calls
        (record { pages = []; state = new_batch 4 start })
      ≡ some s')
    × ((p : ℕ) → count p s'.pages ≤ 1)
    × (Batch.destroy (new_delete bump_runtime page) s'.state ≡ some up)
    × ((p : ℕ) → count p up.live ≡ count p start.live + count p s'.pages)
batched-run_example =
    batched-run (new_delete bump_runtime page) pages_of_runtime 4 start (omega arith) start-IsBump
      calls
