-- ===== src/Memory/History.antt =====
-- Any history of the calls of the users of a page allocator.
use fuxi_n.Prelude.{
  ℕ, ◌+◌, ◌≤◌, ◌≡◌, refl, Option, some, List, [], ◌∷◌, ◌++◌, length, length-append, take, drop,
  take-append-drop, count, count-append, sym, ap, arith,
}
use mathlib.Core.Path.{subst}
use fuxi_n.Memory.Pages.{Got, PageAllocator, IsPageAllocator, ◌>>=◌}

-- A thread takes pages, or `num` pages of those that are held are given back, from a place on.
pub data Call : Type 0 where
  takes : (thread num : ℕ) → Call
  gives_back : (place num : ℕ) → Call

-- The pages that are given back, and those that stay
abbrev pub given : ℕ → ℕ → List ℕ → List ℕ
given place num held = take num (drop place held)

abbrev pub left : ℕ → ℕ → List ℕ → List ℕ
left place num held = take place held ++ drop num (drop place held)

module _ (a : PageAllocator) where
  -- The allocator after a call, and the pages that are held
  pub call : Call → Got a.State → Option (Got a.State)
  call (takes thread num) s = do
    got ← a.allocate thread num s.state
    some (record { pages = got.pages ++ s.pages; state = got.state })
  call (gives_back place num) s = do
    state ← a.deallocate (given place num s.pages) s.state
    some (record { pages = left place num s.pages; state = state })

  pub run : List Call → Got a.State → Option (Got a.State)
  unfolding call
  run [] s = some s
  run (c ∷ cs) s = call c s >>= run cs

count-left : (p i n : ℕ) (xs : List ℕ) → count p (left i n xs) + count p (given i n xs) ≡ count p xs
count-left p i n xs = omega (
  arith,
  count-append p (take i xs) (drop n (drop i xs)),
  count-append p (take i xs) (drop i xs),
  count-append p (take n (drop i xs)) (drop n (drop i xs)),
  ap (count p) (take-append-drop i xs),
  ap (count p) (take-append-drop n (drop i xs)),
)

length-left : (i n : ℕ) (xs : List ℕ) → length (left i n xs) + length (given i n xs) ≡ length xs
length-left i n xs = omega (
  arith,
  length-append (take i xs) (drop n (drop i xs)),
  length-append (take i xs) (drop i xs),
  length-append (take n (drop i xs)) (drop n (drop i xs)),
  ap (length {A = ℕ}) (take-append-drop i xs),
  ap (length {A = ℕ}) (take-append-drop n (drop i xs)),
)

-- What a user of the allocator may keep track of by how many pages it holds.
pub record IsTracked (a : PageAllocator) (J : a.State → ℕ → Type 0) : Type 0 where
  pub took :
      (thread num : ℕ) (s : a.State) (n : ℕ) (got : Got a.State)
      → J s n
      → a.allocate thread num s ≡ some got
      → J got.state (num + n)
  pub gave :
      (pages : List ℕ) (s : a.State) (n : ℕ) (s' : a.State)
      → J s (n + length pages)
      → a.deallocate pages s ≡ some s'
      → J s' n

module _ (a : PageAllocator) (h : IsPageAllocator a) (J : a.State → ℕ → Type 0)
    (tracked : IsTracked a J) (before : ℕ → ℕ) where
  -- The pages on the list are held of the allocator besides those that others hold.
  pub record IsLent (s : Got a.State) : Type 0 where
    pub valid : h.IsValid s.state
    pub held : (p : ℕ) → h.held s.state p ≡ before p + count p s.pages
    pub tracks : J s.state (length s.pages)

  call-IsLent :
      (c : Call) (s : Got a.State)
      → IsLent s
      → (s' : Got a.State) × (call a c s ≡ some s') × IsLent s'
  unfolding call
  call-IsLent (takes thread num) s v =
      let (got, e, n, v', more) = h.allocates thread num s.state v.valid in
      (
        record { pages = got.pages ++ s.pages; state = got.state },
        rw (e, ◌>>=◌) refl,
        record {
          valid = v';
          held = λ p. omega (arith, count-append p got.pages s.pages, v.held p, more p);
          tracks =
              subst (λ k. J got.state k) (omega (arith, n, length-append got.pages s.pages))
                (tracked.took thread num s.state (length s.pages) got v.tracks e);
        },
      )
  call-IsLent (gives_back place num) s v =
      let (state, e, v', less) =
        h.deallocates (given place num s.pages) s.state v.valid
          (λ p. omega (arith, count-left p place num s.pages, v.held p)) in
      (
        record { pages = left place num s.pages; state = state },
        rw (e, ◌>>=◌) refl,
        record {
          valid = v';
          held = λ p. omega (arith, count-left p place num s.pages, v.held p, less p);
          tracks =
              tracked.gave (given place num s.pages) s.state (length (left place num s.pages)) state
                (subst (λ k. J s.state k) (sym (length-left place num s.pages)) v.tracks) e;
        },
      )

  -- Whatever the users do, every call comes back, and no page is held twice.
  pub run-IsLent :
      (cs : List Call) (s : Got a.State)
      → IsLent s
      → (s' : Got a.State) × (run a cs s ≡ some s') × IsLent s' × ((p : ℕ) → count p s'.pages ≤ 1)
  unfolding run
  run-IsLent [] s v = (s, refl, v, λ p. omega (arith, v.held p, h.held_once s.state p v.valid))
  run-IsLent (c ∷ cs) s v =
      let (s1, e, v1) = call-IsLent c s v in
      let (s2, e', v2, once) = run-IsLent cs s1 v1 in (s2, rw (e, ◌>>=◌) e', v2, once)
