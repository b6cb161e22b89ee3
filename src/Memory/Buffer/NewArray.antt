-- ===== src/Memory/Buffer/NewArray.antt =====
-- `do_allocate_with_page_in_new_page_array`: the new array, wherever it stands.
use mathlib.Core.Path.{subst}
use fuxi_n.Prelude.{
  drop, length, ℕ, ◌+◌, ◌-◌, ◌%◌, ◌^◌, ◌≤◌, ◌<◌, ◌≡◌, refl, sym, ap, ◌∙◌, Option, some, List, [],
  ◌∷◌, ◌++◌, replicate, u64_mod, count, tally, le→leb, gt→leb, arith,
}
use native.Mathlib.Decide.{dec_lt}
use fuxi_n.Memory.Pages.{PageAllocator, IsPageAllocator, ◌>>=◌}
use fuxi_n.Memory.Buffer.{
  Upstream, PageArray, OversizePage, Placed, State, align, array_align, page_array_size,
  do_allocate_with_page_in_new_page_array,
}
use fuxi_n.Memory.Buffer.Release.{pages_from}
use fuxi_n.Memory.Buffer.Align.{align-ge, align-le, align-least}
use fuxi_n.Memory.Buffer.Cover.{
  cover, cover_pages, cover_within, cover_whole, cover_pages-append, cover_three,
}
use fuxi_n.Memory.Buffer.Layout.{
  IsNewest, IsUpstream, Piece, IsHoused, bytes_in, pages_of, IsOwner, IsLaid,
}
use fuxi_n.Memory.Buffer.Places.{IsPlaced}
use fuxi_n.Memory.Buffer.NewPage.{get_page_lem, took, took-IsOwner, took-IsLaid}

-- What the buffer asks of the pages: `sizeof(PageArray)` fits, and the first offset does not.
pub record IsPageSize (size : ℕ) : Type 0 where
  pub large : page_array_size ≤ size
  pub small : size ≤ 2 ^ 31
  pub even : size % array_align ≡ 0

module _ (a : PageAllocator) (h : IsPageAllocator a) (u : Upstream) (hu : IsUpstream u) (thread : ℕ)
    (pages_before : ℕ → ℕ) (blocks_before : OversizePage → ℕ) where
  abbrev pub Gives :
      State a u thread → List Piece → ℕ → ℕ → Option (Placed a.State u.State) → Type 0
  Gives s pieces bytes k result =
      (placed : Placed a.State u.State) × (result ≡ some placed)
      × IsPlaced a h u hu thread pages_before blocks_before s pieces bytes k placed

  module _ (s : State a u thread) (pieces : List Piece) (bytes k : ℕ) (p : a.State) (page : ℕ)
      (z : IsPageSize a.page_size) (nonempty : 1 ≤ bytes) (fits : bytes ≤ a.page_size)
      (o : IsOwner a h u hu thread pages_before blocks_before s)
      (l : IsLaid a h u hu thread pages_before blocks_before s pieces) (v : h.IsValid p)
      (m : page % a.page_size ≡ 0) (m' : page % 2 ^ k ≡ 0)
      (more : (q : ℕ) → h.held p q ≡ h.held s.page_allocator q + tally q page) where
    abbrev pub with_page : State a u thread
    with_page = record s {
      page_allocator = p;
      space_allocated = (s.space_allocated + a.page_size) % u64_mod;
    }

    abbrev in_array : Option (Placed a.State u.State)
    in_array = do_allocate_with_page_in_new_page_array a u thread with_page bytes page

    used : ℕ
    used = align array_align s.last_page_allocated

    padded : ℕ
    padded = align array_align bytes

    -- A new array in front of the others, with the new pages
    array-IsPlaced :
        (p2 : a.State) (i : ℕ) (array : PageArray) (space last allocated : ℕ) (new : List ℕ)
        → s.page_pointer ≡ 0
        → h.IsValid p2
        → ((q : ℕ) → h.held p2 q ≡ h.held s.page_allocator q + count q new)
        → drop i array.pages ≡ new
        → i < length array.pages
        → ((x : ℕ)
            → cover x array.place page_array_size
              ≤ cover_pages x a.page_size new + cover_pages x a.page_size (pages_of s))
        → space ≡ (s.space_allocated + bytes_in a.page_size new) % u64_mod
        → IsNewest last (new ++ pages_of s)
        → allocated ≤ 2 ^ 62
        → 1 ≤ allocated
        → last % a.page_size ≡ 0
        → ((x : ℕ)
            → cover x (last + allocated) (a.page_size - allocated) ≤ cover_pages x a.page_size new)
        → ((x : ℕ)
            → cover x page bytes
                + cover x array.place page_array_size
                + cover x (last + allocated) (a.page_size - allocated)
              ≤ cover_pages x a.page_size new
                + cover x
                    (s.last_page + s.last_page_allocated)
                    (a.page_size - s.last_page_allocated))
        → IsPlaced a h u hu thread pages_before blocks_before s pieces bytes k (record {
          address = page;
          buffer =
              took a h u hu thread pages_before blocks_before s p2 i
                (array ∷ s.page_arrays)
                space
                last
                allocated;
        })
    array-IsPlaced p2 i array space last allocated new full v2 got drops short house sum newest low
          positive even rest room =
        let ys = array ∷ s.page_arrays in
        let listed : pages_from i ys ≡ new ++ pages_of s =
          ap (λ t. t ++ pages_from 0 s.page_arrays) drops
          ∙ ap (λ t. new ++ pages_from t s.page_arrays) (sym full) in
        let joined : (x : ℕ)
            → cover_pages x a.page_size (pages_from i ys)
              ≡ cover_pages x a.page_size new + cover_pages x a.page_size (pages_of s) =
          λ x.
            ap (cover_pages x a.page_size) listed
            ∙ cover_pages-append x a.page_size new (pages_of s) in
        record {
          aligned = m';
          owner =
              took-IsOwner a h u hu thread pages_before blocks_before s p2 i ys space last allocated
                new o v2 got listed short
                (
                  λ x. omega (arith, house x, joined x),
                  subst (λ t. IsHoused a.page_size t s.page_arrays) full o.housed,
                )
                sum;
          laid =
              took-IsLaid a h u hu thread pages_before blocks_before s p2 i ys space last allocated
                new pieces page bytes l listed newest low positive even rest
                (λ x. omega (arith, room x));
          tasks = refl;
          task_pointer = refl;
        }

    -- The new array stands behind what the old page holds.
    behind_old :
        s.page_pointer ≡ 0 → used + page_array_size ≤ a.page_size → Gives s pieces bytes k in_array
    unfolding used
    behind_old full room =
        let up : s.last_page_allocated ≤ used =
          align-ge 3 s.last_page_allocated (omega arith) l.low in
        let array : PageArray = record {
          place = s.last_page + used;
          pages = replicate 14 0 ++ page ∷ [];
        } in
        let inside : (x : ℕ)
            → cover x (s.last_page + used) page_array_size
              ≤ cover x (s.last_page + s.last_page_allocated)
                  (a.page_size - s.last_page_allocated) =
          λ x.
            cover_within x s.last_page s.last_page_allocated used page_array_size a.page_size up
              room in
        (
          _,
          rw
              (le→leb ((used + page_array_size) % u64_mod) a.page_size
                (omega (arith, room, z.small)))
              refl,
          array-IsPlaced p 14 array ((s.space_allocated + a.page_size) % u64_mod) page bytes
              (page ∷ []) full v (λ q. omega (arith, more q)) refl (omega arith)
              (λ x. omega (arith, inside x, l.rest x)) (omega arith) refl
              (omega (arith, fits, z.small)) nonempty m
              (λ x. omega (arith, cover_whole x page bytes a.page_size fits))
              (λ x. omega (arith, cover_whole x page bytes a.page_size fits, inside x)),
        )

    -- It stands behind the bytes in the new page.
    behind_bytes :
        s.page_pointer ≡ 0
        → a.page_size < used + page_array_size
        → used ≤ 2 ^ 62
        → bytes + page_array_size ≤ a.page_size
        → Gives s pieces bytes k in_array
    unfolding used padded
    behind_bytes full no_room low room =
        let up : bytes ≤ padded = align-ge 3 bytes (omega arith) (omega (arith, fits, z.small)) in
        let down : padded ≤ a.page_size - page_array_size =
          align-least 3 bytes (omega arith) (omega (arith, fits, z.small))
            (a.page_size - page_array_size) (omega (arith, room))
            (omega (arith, z.even, z.large)) in
        let array : PageArray = record {
          place = page + padded;
          pages = replicate 14 0 ++ page ∷ [];
        } in
        let three : (x : ℕ)
            → cover x page bytes
                + cover x (page + padded) page_array_size
                + cover x (page + (padded + page_array_size))
                    (a.page_size - (padded + page_array_size))
              ≤ cover x page a.page_size =
          λ x.
            cover_three x page bytes padded page_array_size a.page_size up
              (omega (arith, down, z.large)) in
        (
          _,
          rw
              (
                gt→leb ((used + page_array_size) % u64_mod) a.page_size
                    (omega (arith, no_room, low)),
                le→leb ((bytes + page_array_size) % u64_mod) a.page_size
                    (omega (arith, room, z.small)),
              )
              refl,
          array-IsPlaced p 14 array ((s.space_allocated + a.page_size) % u64_mod) page
              (padded + page_array_size) (page ∷ []) full v (λ q. omega (arith, more q)) refl
              (omega arith) (λ x. omega (arith, three x)) (omega arith) refl
              (omega (arith, down, z.small)) (omega arith) m (λ x. omega (arith, three x))
              (λ x. omega (arith, three x)),
        )

    -- It stands in a page of its own, which is the last page then.
    in_own :
        s.page_pointer ≡ 0
        → a.page_size < used + page_array_size
        → used ≤ 2 ^ 62
        → a.page_size < bytes + page_array_size
        → Gives s pieces bytes k in_array
    unfolding used
    in_own full no_room low wide =
        let (extra, p2, e, v2, m2, more2) = get_page_lem a h u hu thread p v in
        let array : PageArray = record {
          place = extra;
          pages = replicate 13 0 ++ extra ∷ page ∷ [];
        } in
        let own : (x : ℕ)
            → cover x extra a.page_size
              ≡ cover x extra page_array_size
                + cover x (extra + page_array_size) (a.page_size - page_array_size) =
          λ x. cover_whole x extra page_array_size a.page_size z.large in
        (
          _,
          rw
              (
                gt→leb ((used + page_array_size) % u64_mod) a.page_size
                    (omega (arith, no_room, low)),
                gt→leb ((bytes + page_array_size) % u64_mod) a.page_size
                    (omega (arith, wide, fits, z.small)),
                e,
                ◌>>=◌,
              )
              refl,
          array-IsPlaced p2 13 array
              (((s.space_allocated + a.page_size) % u64_mod + a.page_size) % u64_mod) extra
              page_array_size (extra ∷ page ∷ []) full v2 (λ q. omega (arith, more q, more2 q)) refl
              (omega arith) (λ x. omega (arith, own x)) (omega arith) refl (omega arith)
              (omega arith) m2 (λ x. omega (arith, own x))
              (λ x. omega (arith, own x, cover_whole x page bytes a.page_size fits)),
        )

    pub array_lem : s.page_pointer ≡ 0 → Gives s pieces bytes k in_array
    unfolding used
    array_lem full =
        elim (dec_lt a.page_size (align array_align s.last_page_allocated + page_array_size)) [
          | yes no_room ↦ elim (dec_lt a.page_size (bytes + page_array_size)) [
            | yes wide ↦
                in_own full no_room (align-le 3 s.last_page_allocated (omega arith) l.low) wide
            | no room ↦
                behind_bytes full no_room (align-le 3 s.last_page_allocated (omega arith) l.low)
                  (omega (arith, room))
          ]
          | no room ↦ behind_old full (omega (arith, room))
        ]
