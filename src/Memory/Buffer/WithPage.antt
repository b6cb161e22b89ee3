-- ===== src/Memory/Buffer/WithPage.antt =====
-- `do_allocate_in_new_page`, where the bytes fit a page.
use mathlib.Core.Path.{subst}
use fuxi_n.Prelude.{
  ℕ, suc, ◌+◌, ◌-◌, ◌%◌, ◌^◌, ◌≤◌, ◌<◌, ◌≡◌, refl, sym, ap, ◌∙◌, List, [], ◌∷◌, u64_mod, tally,
  lt→ltb, ge→ltb, arith,
}
use native.Mathlib.Decide.{dec_lt}
use fuxi_n.Memory.Pages.{PageAllocator, IsPageAllocator}
use fuxi_n.Memory.Buffer.{Upstream, OversizePage, State, set_page, do_allocate_with_page}
use fuxi_n.Memory.Buffer.Release.{pages_from}
use fuxi_n.Memory.Buffer.Cover.{cover_whole}
use fuxi_n.Memory.Buffer.Layout.{IsUpstream, Piece, IsPointer, IsHoused, IsOwner, IsLaid}
use fuxi_n.Memory.Buffer.NewPage.{
  pages_from-set_page, set_page-IsPointer, cover_page_arrays-set_page, set_page-IsHoused,
  took-IsOwner, took-IsLaid,
}
use fuxi_n.Memory.Buffer.NewArray.{IsPageSize, Gives, array_lem}

module _ (a : PageAllocator) (h : IsPageAllocator a) (u : Upstream) (hu : IsUpstream u) (thread : ℕ)
    (pages_before : ℕ → ℕ) (blocks_before : OversizePage → ℕ) where
  module _ (s : State a u thread) (pieces : List Piece) (bytes k : ℕ) (p : a.State) (page : ℕ)
      (z : IsPageSize a.page_size) (nonempty : 1 ≤ bytes) (fits : bytes ≤ a.page_size)
      (o : IsOwner a h u hu thread pages_before blocks_before s)
      (l : IsLaid a h u hu thread pages_before blocks_before s pieces) (v : h.IsValid p)
      (m : page % a.page_size ≡ 0) (m' : page % 2 ^ k ≡ 0)
      (more : (q : ℕ) → h.held p q ≡ h.held s.page_allocator q + tally q page) where
    abbrev with_page : State a u thread
    with_page = record s {
      page_allocator = p;
      space_allocated = (s.space_allocated + a.page_size) % u64_mod;
    }

    -- The newest array has room.
    in_newest :
        0 < s.page_pointer
        → Gives a h u hu thread pages_before blocks_before s pieces bytes k
            (do_allocate_with_page a u thread with_page bytes page)
    in_newest room =
        let i = s.page_pointer - 1 in
        let top : s.page_pointer ≡ suc i = omega (arith, room) in
        let pointer : IsPointer (suc i) s.page_arrays =
          subst (λ t. IsPointer t s.page_arrays) top o.page_pointer in
        let ys = set_page s.page_arrays i page in
        let listed : pages_from i ys ≡ page ∷ pages_from s.page_pointer s.page_arrays =
          pages_from-set_page i page s.page_arrays pointer
          ∙ ap (λ t. page ∷ pages_from t s.page_arrays) (sym top) in
        (
          record {
            address = page;
            buffer = record with_page {
              page_pointer = i;
              page_arrays = ys;
              last_page = page;
              last_page_allocated = bytes;
            };
          },
          rw (lt→ltb 0 s.page_pointer room) refl,
          record {
            aligned = m';
            owner =
                took-IsOwner a h u hu thread pages_before blocks_before s p i ys
                  ((s.space_allocated + a.page_size) % u64_mod) page bytes (page ∷ []) o v
                  (λ q. omega (arith, more q)) listed
                  (set_page-IsPointer i page s.page_arrays pointer)
                  (set_page-IsHoused a.page_size i page s.page_arrays pointer
                    (subst (λ t. IsHoused a.page_size t s.page_arrays) top o.housed))
                  (omega arith);
            laid =
                took-IsLaid a h u hu thread pages_before blocks_before s p i ys
                  ((s.space_allocated + a.page_size) % u64_mod) page bytes (page ∷ []) pieces page
                  bytes l listed refl (omega (arith, fits, z.small)) nonempty m
                  (λ x. omega (arith, cover_whole x page bytes a.page_size fits))
                  (λ x. omega (
                    arith,
                    cover_whole x page bytes a.page_size fits,
                    cover_page_arrays-set_page x i page s.page_arrays,
                  ));
            tasks = refl;
            task_pointer = refl;
          },
        )

    pub with_page_lem :
        Gives a h u hu thread pages_before blocks_before s pieces bytes k
          (do_allocate_with_page a u thread with_page bytes page)
    with_page_lem = elim (dec_lt 0 s.page_pointer) [
      | yes room ↦ in_newest room
      | no full ↦
          subst (Gives a h u hu thread pages_before blocks_before s pieces bytes k)
            (sym (rw (ge→ltb 0 s.page_pointer (omega (arith, full))) refl))
            (array_lem a h u hu thread pages_before blocks_before s pieces bytes k p page z nonempty
              fits o l v m m' more (omega (arith, full)))
    ]
