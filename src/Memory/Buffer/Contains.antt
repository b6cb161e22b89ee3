-- ===== src/Memory/Buffer/Contains.antt =====
-- `contains`, in the pages and in the blocks.
use fuxi_n.Prelude.{
  Bool, true, false, ℕ, ◌+◌, ◌-◌, ◌≤◌, ◌≡◌, ◌⊎◌, inl, inr, refl, sym, ap, ◌∙◌, List, [], ◌∷◌, ◌||◌,
  ltb, ◌&&◌, Bool-cases, lt→ltb, le→leb, if◌then◌else◌, arith,
}
use native.Mathlib.Decide.{dec_lt}
use fuxi_n.Memory.Pages.{PageAllocator, IsPageAllocator}
use fuxi_n.Memory.Buffer.{Upstream, OversizePage, State}
use fuxi_n.Memory.Buffer.Release.{is_in, contains_oversize, contains_pages, contains}
use fuxi_n.Memory.Buffer.Cover.{cover, cover_pages}
use fuxi_n.Memory.Buffer.Layout.{
  IsUpstream, Piece, IsNewest, cover_pieces, cover_blocks, pages_of, blocks_of, IsLaid,
}

or_right : (b c : Bool) → c ≡ true → (b || c) ≡ true
or_right true c e = refl
or_right false c e = e

or_left : (b c : Bool) → b ≡ true → (b || c) ≡ true
or_left true c e = refl
or_left false c e = absurd (cc e)

-- Outside a range, and inside one
cover-is_in : (x s n : ℕ) → is_in x s n ≡ false → cover x s n ≡ 0
cover-is_in x s n e = ap {B = ℕ} (λ b. if b then 1 else 0) e

-- What a whole page has and its used part has not is in the free rest.
cover_unused : (x s m n : ℕ) → is_in x s m ≡ false → cover x s n ≤ cover x (s + m) (n - m)
cover_unused x s m n e = elim (dec_lt x s) [
  | yes before ↦ ground arith
  | no after ↦ elim (dec_lt x (s + m)) [
    | yes inside ↦ absurd (
        cc (
          sym e
          ∙ (ap (λ b. b && ltb x (s + m)) (le→leb s x (omega (arith, after)))
              ∙ lt→ltb x (s + m) inside)))
    | no beyond ↦ ground arith
  ]
]

contains_oversize_lem :
    (x : ℕ) (bs : List OversizePage) → 1 ≤ cover_blocks x bs → contains_oversize x bs ≡ true
contains_oversize_lem x [] h = absurd (omega (arith, h))
contains_oversize_lem x (b ∷ bs) h = elim (Bool-cases (is_in x b.page b.bytes)) [
  | inl e ↦ or_left (is_in x b.page b.bytes) (contains_oversize x bs) e
  | inr e ↦
      or_right (is_in x b.page b.bytes) (contains_oversize x bs)
        (contains_oversize_lem x bs (omega (arith, h, cover-is_in x b.page b.bytes e)))
]

module _ (a : PageAllocator) (u : Upstream) (thread : ℕ) where
  contains_rest :
      (x : ℕ) (ps : List ℕ)
      → 1 ≤ cover_pages x a.page_size ps
      → contains_pages a u thread x a.page_size ps ≡ true
  contains_rest x [] h = absurd (omega (arith, h))
  contains_rest x (p ∷ ps) h = elim (Bool-cases (is_in x p a.page_size)) [
    | inl e ↦ or_left (is_in x p a.page_size) (contains_pages a u thread x a.page_size ps) e
    | inr e ↦
        or_right (is_in x p a.page_size) (contains_pages a u thread x a.page_size ps)
          (contains_rest x ps (omega (arith, h, cover-is_in x p a.page_size e)))
  ]

  contains_pages_lem :
      (x page allocated : ℕ) (ps : List ℕ)
      → IsNewest page ps
      → 1 + cover x (page + allocated) (a.page_size - allocated) ≤ cover_pages x a.page_size ps
      → contains_pages a u thread x allocated ps ≡ true
  contains_pages_lem x page allocated [] newest h = absurd (omega (arith, h))
  contains_pages_lem x page allocated (p ∷ ps) newest h = elim (Bool-cases (is_in x p allocated)) [
    | inl e ↦ or_left (is_in x p allocated) (contains_pages a u thread x a.page_size ps) e
    | inr e ↦
        let same : cover x (p + allocated) (a.page_size - allocated)
            ≡ cover x (page + allocated) (a.page_size - allocated) =
          ap (λ t. cover x (t + allocated) (a.page_size - allocated)) newest in
        or_right (is_in x p allocated) (contains_pages a u thread x a.page_size ps)
          (contains_rest x ps (omega (arith, h, same, cover_unused x p allocated a.page_size e)))
  ]

module _ (a : PageAllocator) (h : IsPageAllocator a) (u : Upstream) (hu : IsUpstream u) (thread : ℕ)
    (pages_before : ℕ → ℕ) (blocks_before : OversizePage → ℕ) where
  pub contains_lem :
      (s : State a u thread) (pieces : List Piece) (x : ℕ)
      → IsLaid a h u hu thread pages_before blocks_before s pieces
      → (cover_pieces x pieces ≡ 0) ⊎ (contains a u thread x s ≡ true)
  contains_lem s pieces x l =
      let in_pages = contains_pages a u thread x s.last_page_allocated (pages_of s) in
      let in_blocks = contains_oversize x (blocks_of s) in
      elim (dec_lt 0 (cover_pieces x pieces)) [
        | no out ↦ inl (omega (arith, out))
        | yes given ↦ elim (dec_lt 0 (cover_blocks x (blocks_of s))) [
          | yes found ↦
              inr (or_right in_pages in_blocks (contains_oversize_lem x (blocks_of s) found))
          | no not_there ↦ inr (
              or_left in_pages in_blocks (
                contains_pages_lem a u thread x s.last_page s.last_page_allocated (pages_of s)
                  l.newest (omega (arith, l.apart x, given, not_there))))
        ]
      ]
