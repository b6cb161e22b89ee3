-- ===== src/Memory/Buffer/NewPage.antt =====
-- A buffer that takes new pages: what it holds then, and where the pieces lie.
use mathlib.Core.Path.{subst}
use fuxi_n.Prelude.{
  sym, ℕ, suc, ◌+◌, ◌-◌, ◌%◌, ◌^◌, ◌≤◌, ◌≡◌, refl, ap, ◌∙◌, some, List, [], ◌∷◌, ◌++◌, length,
  u64_mod, length-set, drop-set, count, count-append, tally, tally_self, arith,
}
use fuxi_n.Memory.Pages.{PageAllocator, IsPageAllocator, first, ◌>>=◌}
use fuxi_n.Memory.Buffer.{Upstream, PageArray, OversizePage, State, get_page, set_page}
use fuxi_n.Memory.Buffer.Release.{pages_from}
use fuxi_n.Memory.Buffer.Cover.{cover, cover_pages, cover_pages-append}
use fuxi_n.Memory.Buffer.Layout.{
  IsNewest, IsUpstream, Piece, IsPointer, IsHoused, cover_page_arrays, bytes_in, IsOwner, IsLaid,
}

bytes_in-append :
    (size : ℕ) (ps qs : List ℕ) → bytes_in size (ps ++ qs) ≡ bytes_in size ps + bytes_in size qs
bytes_in-append size [] qs = omega arith
bytes_in-append size (p ∷ ps) qs = omega (arith, bytes_in-append size ps qs)

-- The newest array takes one more page below its pointer.
pub pages_from-set_page :
    (i page : ℕ) (ys : List PageArray)
    → IsPointer (suc i) ys
    → pages_from i (set_page ys i page) ≡ page ∷ pages_from (suc i) ys
pages_from-set_page i page [] h = absurd (omega (arith, h))
pages_from-set_page i page (y ∷ ys) h =
    ap (λ t. t ++ pages_from 0 ys) (drop-set y.pages i page (omega (arith, h)))

pub set_page-IsPointer :
    (i page : ℕ) (ys : List PageArray) → IsPointer (suc i) ys → IsPointer i (set_page ys i page)
set_page-IsPointer i page [] h = absurd (omega (arith, h))
set_page-IsPointer i page (y ∷ ys) h = omega (arith, h, length-set y.pages i page)

pub cover_page_arrays-set_page :
    (x i page : ℕ) (ys : List PageArray)
    → cover_page_arrays x (set_page ys i page) ≡ cover_page_arrays x ys
cover_page_arrays-set_page x i page [] = refl
cover_page_arrays-set_page x i page (y ∷ ys) = refl

pub set_page-IsHoused :
    (size i page : ℕ) (ys : List PageArray)
    → IsPointer (suc i) ys
    → IsHoused size (suc i) ys
    → IsHoused size i (set_page ys i page)
set_page-IsHoused size i page [] h housed = tt
set_page-IsHoused size i page (y ∷ ys) h (here, older) = (
  λ x. omega (arith, here x, ap (cover_pages x size) (pages_from-set_page i page (y ∷ ys) h)),
  older,
)

single : (xs : List ℕ) → length xs ≡ 1 → (page : ℕ) × (xs ≡ page ∷ [])
single [] e = absurd (omega (arith, e))
single (x ∷ []) e = (x, refl)
single (x ∷ y ∷ ys) e = absurd (omega (arith, e))

module _ (a : PageAllocator) (h : IsPageAllocator a) (u : Upstream) (hu : IsUpstream u)
    (thread : ℕ) where
  pub get_page_lem :
      (s : a.State)
      → h.IsValid s
      → (page : ℕ) × (s' : a.State) × (get_page a u thread s ≡ some (page, s'))
        × h.IsValid s'
        × (page % a.page_size ≡ 0)
        × ((q : ℕ) → h.held s' q ≡ h.held s q + tally q page)
  get_page_lem s v =
      let (got, e, n, v', more) = h.allocates thread 1 s v in
      let (page, one) = single got.pages n in
      let counted : (q : ℕ) → count q got.pages ≡ tally q page =
        λ q. ap (count q) one ∙ omega arith in
      (
        page,
        got.state,
        rw (e, ◌>>=◌, ap first one, ◌>>=◌) refl,
        v',
        h.aligned got.state page v' (omega (arith, more page, counted page, tally_self page)),
        λ q. omega (arith, more q, counted q),
      )

module _ (a : PageAllocator) (h : IsPageAllocator a) (u : Upstream) (hu : IsUpstream u) (thread : ℕ)
    (pages_before : ℕ → ℕ) (blocks_before : OversizePage → ℕ) where
  abbrev pub took : State a u thread → a.State → ℕ → List PageArray → ℕ → ℕ → ℕ → State a u thread
  took s p i ys space page allocated = record s {
    page_allocator = p;
    page_pointer = i;
    page_arrays = ys;
    space_allocated = space;
    last_page = page;
    last_page_allocated = allocated;
  }

  -- The buffer holds the new pages besides the ones before.
  pub took-IsOwner :
      (s : State a u thread) (p : a.State) (i : ℕ) (ys : List PageArray) (space page allocated : ℕ)
      (new : List ℕ)
      → IsOwner a h u hu thread pages_before blocks_before s
      → h.IsValid p
      → ((q : ℕ) → h.held p q ≡ h.held s.page_allocator q + count q new)
      → pages_from i ys ≡ new ++ pages_from s.page_pointer s.page_arrays
      → IsPointer i ys
      → IsHoused a.page_size i ys
      → space ≡ (s.space_allocated + bytes_in a.page_size new) % u64_mod
      → IsOwner a h u hu thread pages_before blocks_before (took s p i ys space page allocated)
  took-IsOwner s p i ys space page allocated new o v more listed pointer housed sum = record {
    page_allocator = v;
    upstream = o.upstream;
    page_pointer = pointer;
    oversize_pointer = o.oversize_pointer;
    holds = λ q. omega (
      arith,
      more q,
      o.holds q,
      ap (count q) listed,
      count-append q new (pages_from s.page_pointer s.page_arrays),
    );
    holds_blocks = o.holds_blocks;
    housed = housed;
    space = omega (
      arith,
      sum,
      o.space,
      ap (bytes_in a.page_size) listed,
      bytes_in-append a.page_size new (pages_from s.page_pointer s.page_arrays),
    );
  }

  -- The piece, the arrays and the new rest lie in the new pages and the old rest.
  pub took-IsLaid :
      (s : State a u thread) (p : a.State) (i : ℕ) (ys : List PageArray) (space page allocated : ℕ)
      (new : List ℕ) (pieces : List Piece) (start bytes : ℕ)
      → IsLaid a h u hu thread pages_before blocks_before s pieces
      → pages_from i ys ≡ new ++ pages_from s.page_pointer s.page_arrays
      → IsNewest page (new ++ pages_from s.page_pointer s.page_arrays)
      → allocated ≤ 2 ^ 62
      → 1 ≤ allocated
      → page % a.page_size ≡ 0
      → ((x : ℕ)
          → cover x (page + allocated) (a.page_size - allocated) ≤ cover_pages x a.page_size new)
      → ((x : ℕ)
          → cover x start bytes
              + cover_page_arrays x ys
              + cover x (page + allocated) (a.page_size - allocated)
            ≤ cover_page_arrays x s.page_arrays
              + cover_pages x a.page_size new
              + cover x (s.last_page + s.last_page_allocated) (a.page_size - s.last_page_allocated))
      → IsLaid a h u hu thread pages_before blocks_before
          (took s p i ys space page allocated)
          (record { start = start; bytes = bytes } ∷ pieces)
  took-IsLaid s p i ys space page allocated new pieces start bytes l listed newest low nonzero m
        rest room =
      let joined : (x : ℕ)
          → cover_pages x a.page_size (pages_from i ys)
            ≡ cover_pages x a.page_size new
              + cover_pages x a.page_size (pages_from s.page_pointer s.page_arrays) =
        λ x.
          ap (cover_pages x a.page_size) listed
          ∙ cover_pages-append x a.page_size new (pages_from s.page_pointer s.page_arrays) in
      record {
        low = low;
        nonzero = nonzero;
        last_page = m;
        newest = subst (IsNewest page) (sym listed) newest;
        rest = λ x. omega (arith, rest x, joined x);
        apart = λ x. omega (arith, l.apart x, room x, joined x);
      }
