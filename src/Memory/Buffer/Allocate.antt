-- ===== src/Memory/Buffer/Allocate.antt =====
-- `allocate`, on every branch.
use mathlib.Core.Path.{subst}
use fuxi_n.Prelude.{
  ℕ, ◌+◌, ◌%◌, ◌^◌, ◌≤◌, ◌≡◌, refl, sym, ap, ◌∙◌, some, List, u64_mod, leb, le→leb, gt→leb,
  if◌then◌else◌, arith,
}
use native.Mathlib.Decide.{dec_lt}
use fuxi_n.Memory.Pages.{PageAllocator, IsPageAllocator, ◌>>=◌}
use fuxi_n.Memory.Buffer.{Upstream, OversizePage, State, align, do_allocate_in_new_page, allocate}
use fuxi_n.Memory.Buffer.Align.{align-mod, mod-mod_pow, add_multiples, multiple_ge, pow_order}
use fuxi_n.Memory.Buffer.Layout.{IsUpstream, Piece, IsOwner, IsLaid}
use fuxi_n.Memory.Buffer.Places.{aligned_lem, bump_lem}
use fuxi_n.Memory.Buffer.NewPage.{get_page_lem}
use fuxi_n.Memory.Buffer.NewArray.{IsPageSize, Gives}
use fuxi_n.Memory.Buffer.WithPage.{with_page_lem}
use fuxi_n.Memory.Buffer.Oversize.{oversize_lem}

module _ (a : PageAllocator) (h : IsPageAllocator a) (u : Upstream) (hu : IsUpstream u) (thread : ℕ)
    (pages_before : ℕ → ℕ) (blocks_before : OversizePage → ℕ) (z : IsPageSize a.page_size) where
  -- A page is aligned to every power of two up to its size.
  page-aligned : (page k : ℕ) → page % a.page_size ≡ 0 → 2 ^ k ≤ a.page_size → page % 2 ^ k ≡ 0
  page-aligned page k m le =
      let (j, pow) = h.is_pow in
      mod-mod_pow page j k (pow_order k j (omega (arith, le, pow)))
        (ap (λ t. page % t) (sym pow) ∙ m)

  new_page_lem :
      (s : State a u thread) (pieces : List Piece) (bytes k : ℕ)
      → 1 ≤ bytes
      → bytes ≤ 2 ^ 62
      → k ≤ 62
      → IsOwner a h u hu thread pages_before blocks_before s
      → IsLaid a h u hu thread pages_before blocks_before s pieces
      → Gives a h u hu thread pages_before blocks_before s pieces bytes k
          (do_allocate_in_new_page a u thread s bytes (2 ^ k))
  new_page_lem s pieces bytes k nonempty low small o l = elim (dec_lt a.page_size bytes) [
    | yes wide ↦
        subst (Gives a h u hu thread pages_before blocks_before s pieces bytes k)
          (sym (rw (gt→leb bytes a.page_size wide) refl))
          (oversize_lem a h u hu thread pages_before blocks_before s pieces bytes k small low o l)
    | no narrow ↦ elim (dec_lt a.page_size (2 ^ k)) [
      | yes coarse ↦
          subst (Gives a h u hu thread pages_before blocks_before s pieces bytes k)
            (sym (
              rw
                (
                  le→leb bytes a.page_size (omega (arith, narrow)),
                  gt→leb (2 ^ k) a.page_size coarse,
                )
                refl))
            (oversize_lem a h u hu thread pages_before blocks_before s pieces bytes k small low o l)
      | no fine ↦
          let (page, p, e, v, m, more) =
            get_page_lem a h u hu thread s.page_allocator o.page_allocator in
          let (placed, e', well) =
            with_page_lem a h u hu thread pages_before blocks_before s pieces bytes k p page z
              nonempty (omega (arith, narrow)) o l v m (page-aligned page k m (omega (arith, fine)))
              more in
          (
            placed,
            rw
                (
                  le→leb bytes a.page_size (omega (arith, narrow)),
                  le→leb (2 ^ k) a.page_size (omega (arith, fine)),
                  e,
                  ◌>>=◌,
                )
                e',
            well,
          )
    ]
  ]

  -- The test of `do_allocate_already_aligned`, once the offset is aligned
  already_aligned_lem :
      (s : State a u thread) (pieces : List Piece) (bytes k : ℕ)
      → 1 ≤ bytes
      → bytes ≤ 2 ^ 62
      → k ≤ 62
      → s.last_page_allocated % 2 ^ k ≡ 0
      → IsOwner a h u hu thread pages_before blocks_before s
      → IsLaid a h u hu thread pages_before blocks_before s pieces
      → Gives a h u hu thread pages_before blocks_before s pieces bytes k (
          if leb ((s.last_page_allocated + bytes) % u64_mod) a.page_size
          then some (record {
            address = s.last_page + s.last_page_allocated;
            buffer = record s { last_page_allocated = s.last_page_allocated + bytes };
          })
          else do_allocate_in_new_page a u thread s bytes (2 ^ k))
  already_aligned_lem s pieces bytes k nonempty low small even o l =
      elim (dec_lt a.page_size (s.last_page_allocated + bytes)) [
        | yes full ↦
            let (placed, e, well) = new_page_lem s pieces bytes k nonempty low small o l in
            (
              placed,
              rw
                  (gt→leb ((s.last_page_allocated + bytes) % u64_mod) a.page_size
                    (omega (arith, full, low, l.low, z.small)))
                  e,
              well,
            )
        | no room ↦
            let (o', l') =
              bump_lem a h u hu thread pages_before blocks_before s pieces bytes
                (omega (arith, room)) z.small o l in
            let fine : 2 ^ k ≤ s.last_page_allocated =
              multiple_ge (2 ^ k) s.last_page_allocated even l.nonzero in
            (
              record {
                address = s.last_page + s.last_page_allocated;
                buffer = record s { last_page_allocated = s.last_page_allocated + bytes };
              },
              rw
                  (le→leb ((s.last_page_allocated + bytes) % u64_mod) a.page_size
                    (omega (arith, room, z.small)))
                  refl,
              record {
                aligned =
                    add_multiples (2 ^ k) s.last_page s.last_page_allocated
                      (page-aligned s.last_page k l.last_page (omega (arith, fine, room))) even;
                owner = o';
                laid = l';
                tasks = refl;
                task_pointer = refl;
              },
            )
      ]

  -- A buffer that is in order, over allocators that keep their contracts and pages of 128 to 2^31
  -- bytes, serves every request for 1 to 2^62 bytes at an alignment that is a power of two up to 2^62:
  -- with an aligned piece. Then a byte is in no more of this piece, the pieces given before and the
  -- arrays of the buffer, counted together, than in its pages and blocks, counted together. The buffer
  -- is in order again, with the same tasks.
  pub allocate_lem :
      (s : State a u thread) (pieces : List Piece) (bytes k : ℕ)
      → 1 ≤ bytes
      → bytes ≤ 2 ^ 62
      → k ≤ 62
      → IsOwner a h u hu thread pages_before blocks_before s
      → IsLaid a h u hu thread pages_before blocks_before s pieces
      → Gives a h u hu thread pages_before blocks_before s pieces bytes k
          (allocate a u thread s bytes (2 ^ k))
  allocate_lem s pieces bytes k nonempty low small o l =
      let s1 : State a u thread = record s {
        last_page_allocated = align (2 ^ k) s.last_page_allocated;
        space_used = (s.space_used + bytes) % u64_mod;
      } in
      let (o1, l1) =
        aligned_lem a h u hu thread pages_before blocks_before s pieces
          ((s.space_used + bytes) % u64_mod) k small o l in
      let (placed, e, well) =
        already_aligned_lem s1 pieces bytes k nonempty low small
          (align-mod k s.last_page_allocated small l.low) o1 l1 in
      (
        placed,
        e,
        record {
          aligned = well.aligned;
          owner = well.owner;
          laid = well.laid;
          tasks = well.tasks;
          task_pointer = well.task_pointer;
        },
      )
