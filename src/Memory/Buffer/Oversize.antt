-- ===== src/Memory/Buffer/Oversize.antt =====
-- `do_allocate_in_oversize_page`: a block of the upstream memory resource.
use mathlib.Core.Path.{subst}
use fuxi_n.Prelude.{
  ℕ, suc, ◌+◌, ◌-◌, ◌%◌, ◌^◌, ◌≤◌, ◌<◌, ◌≡◌, refl, sym, ap, ◌∙◌, max, List, [], ◌∷◌, ◌++◌,
  replicate, u64_mod, length-set, drop-set, lt→ltb, ge→ltb, arith,
}
use native.Mathlib.Decide.{dec_lt}
use native.Mathlib.Nat.{pow-le-pow_right}
use fuxi_n.Memory.Pages.{PageAllocator, IsPageAllocator, ◌>>=◌}
use fuxi_n.Memory.Buffer.{
  Upstream, OversizePage, OversizePageArray, State, set_oversize, no_oversize, align, array_align,
  oversize_array_size, do_allocate_in_oversize_page,
}
use fuxi_n.Memory.Buffer.Release.{oversize_from}
use fuxi_n.Memory.Buffer.Align.{align-ge, align-lt, mod-mod_pow, pow_le62}
use fuxi_n.Memory.Buffer.Cover.{cover_three}
use fuxi_n.Memory.Buffer.Layout.{
  IsUpstream, Piece, block, count_block, cover_blocks, cover_oversize_arrays, bytes_of,
  IsOversizePointer, IsOwner, IsLaid,
}
use fuxi_n.Memory.Buffer.NewArray.{Gives}

oversize_from-set :
    (i : ℕ) (b : OversizePage) (ys : List OversizePageArray)
    → IsOversizePointer (suc i) ys
    → oversize_from i (set_oversize ys i b) ≡ b ∷ oversize_from (suc i) ys
oversize_from-set i b [] h = absurd (omega (arith, h))
oversize_from-set i b (y ∷ ys) h =
    ap (λ t. t ++ oversize_from 0 ys) (drop-set y.pages i b (omega (arith, h)))

set-IsOversizePointer :
    (i : ℕ) (b : OversizePage) (ys : List OversizePageArray)
    → IsOversizePointer (suc i) ys
    → IsOversizePointer i (set_oversize ys i b)
set-IsOversizePointer i b [] h = absurd (omega (arith, h))
set-IsOversizePointer i b (y ∷ ys) h = omega (arith, h, length-set y.pages i b)

cover_oversize_arrays-set :
    (x i : ℕ) (b : OversizePage) (ys : List OversizePageArray)
    → cover_oversize_arrays x (set_oversize ys i b) ≡ cover_oversize_arrays x ys
cover_oversize_arrays-set x i b [] = refl
cover_oversize_arrays-set x i b (y ∷ ys) = refl

-- `max(alignment, alignof(OversizePageArray))` is a power of two again.
larger_pow : (k : ℕ) → k ≤ 62 → (j : ℕ) × (max (2 ^ k) array_align ≡ 2 ^ j) × (k ≤ j) × (j ≤ 62)
larger_pow k small = elim (dec_lt k 3) [
  | yes less ↦
      let below : 2 ^ k ≤ 2 ^ 3 =
        pow-le-pow_right {n = 2} (omega arith) {i = k} {j = 3} (omega (arith, less)) in
      (3, omega (arith, below), omega (arith, less), omega arith)
  | no more ↦
      let above : 2 ^ 3 ≤ 2 ^ k =
        pow-le-pow_right {n = 2} (omega arith) {i = 3} {j = k} (omega (arith, more)) in
      (k, omega (arith, above), omega arith, small)
]

module _ (a : PageAllocator) (h : IsPageAllocator a) (u : Upstream) (hu : IsUpstream u) (thread : ℕ)
    (pages_before : ℕ → ℕ) (blocks_before : OversizePage → ℕ) (s : State a u thread)
    (pieces : List Piece) (bytes k : ℕ) (small : k ≤ 62) (low : bytes ≤ 2 ^ 62)
    (o : IsOwner a h u hu thread pages_before blocks_before s)
    (l : IsLaid a h u hu thread pages_before blocks_before s pieces) where
  in_newest :
      0 < s.oversize_pointer
      → Gives a h u hu thread pages_before blocks_before s pieces bytes k
          (do_allocate_in_oversize_page a u thread s bytes (2 ^ k))
  in_newest room =
      let i = s.oversize_pointer - 1 in
      let top : s.oversize_pointer ≡ suc i = omega (arith, room) in
      let pointer : IsOversizePointer (suc i) s.oversize_arrays =
        subst (λ t. IsOversizePointer t s.oversize_arrays) top o.oversize_pointer in
      let (page, up, e, v, m, more) = hu.allocates bytes k s.upstream o.upstream in
      let b = block page bytes (2 ^ k) in
      let ys = set_oversize s.oversize_arrays i b in
      let listed : oversize_from i ys ≡ b ∷ oversize_from s.oversize_pointer s.oversize_arrays =
        oversize_from-set i b s.oversize_arrays pointer
        ∙ ap (λ t. b ∷ oversize_from t s.oversize_arrays) (sym top) in
      (
        record {
          address = page;
          buffer = record s {
            upstream = up;
            oversize_page_num = (s.oversize_page_num + 1) % u64_mod;
            space_allocated = (s.space_allocated + bytes) % u64_mod;
            oversize_pointer = i;
            oversize_arrays = ys;
          };
        },
        rw (lt→ltb 0 s.oversize_pointer room, e, ◌>>=◌) refl,
        record {
          aligned = m;
          owner = record {
            page_allocator = o.page_allocator;
            upstream = v;
            page_pointer = o.page_pointer;
            oversize_pointer = set-IsOversizePointer i b s.oversize_arrays pointer;
            holds = o.holds;
            holds_blocks = λ c. omega (arith, more c, o.holds_blocks c, ap (count_block c) listed);
            housed = o.housed;
            space = omega (arith, o.space, ap bytes_of listed);
          };
          laid = record {
            low = l.low;
            nonzero = l.nonzero;
            last_page = l.last_page;
            newest = l.newest;
            rest = l.rest;
            apart = λ x. omega (
              arith,
              l.apart x,
              ap (cover_blocks x) listed,
              cover_oversize_arrays-set x i b s.oversize_arrays,
            );
          };
          tasks = refl;
          task_pointer = refl;
        },
      )

  in_new_array :
      s.oversize_pointer ≡ 0
      → (j : ℕ) → max (2 ^ k) array_align ≡ 2 ^ j
      → k ≤ j
      → j ≤ 62
      → Gives a h u hu thread pages_before blocks_before s pieces bytes k
          (do_allocate_in_oversize_page a u thread s bytes (2 ^ k))
  in_new_array full j larger le small_j =
      let padded = align (2 ^ j) bytes in
      let whole = (padded + oversize_array_size) % u64_mod in
      let up_to : padded < bytes + 2 ^ j = align-lt j bytes small_j low in
      let from : bytes ≤ padded = align-ge j bytes small_j low in
      let size : whole ≡ padded + oversize_array_size =
        omega (arith, up_to, low, pow_le62 j small_j) in
      let (page, up, e, v, m, more) = hu.allocates whole j s.upstream o.upstream in
      let b = block page whole (2 ^ j) in
      let array : OversizePageArray = record {
        place = page + padded;
        pages = replicate 14 no_oversize ++ b ∷ [];
      } in
      let listed : oversize_from 14 (array ∷ s.oversize_arrays)
          ≡ b ∷ oversize_from s.oversize_pointer s.oversize_arrays =
        ap (λ t. b ∷ oversize_from t s.oversize_arrays) (sym full) in
      (
        record {
          address = page;
          buffer = record s {
            upstream = up;
            oversize_page_num = (s.oversize_page_num + 1) % u64_mod;
            space_allocated = (s.space_allocated + whole) % u64_mod;
            oversize_pointer = 14;
            oversize_arrays = array ∷ s.oversize_arrays;
          };
        },
        rw (ge→ltb 0 s.oversize_pointer (omega (arith, full)), larger, e, ◌>>=◌) refl,
        record {
          aligned = mod-mod_pow page j k le m;
          owner = record {
            page_allocator = o.page_allocator;
            upstream = v;
            page_pointer = o.page_pointer;
            oversize_pointer = omega arith;
            holds = o.holds;
            holds_blocks = λ c. omega (arith, more c, o.holds_blocks c, ap (count_block c) listed);
            housed = o.housed;
            space = omega (arith, o.space, ap bytes_of listed);
          };
          laid = record {
            low = l.low;
            nonzero = l.nonzero;
            last_page = l.last_page;
            newest = l.newest;
            rest = l.rest;
            apart = λ x. omega (
              arith,
              l.apart x,
              ap (cover_blocks x) listed,
              cover_three x page bytes padded oversize_array_size whole from (omega (arith, size)),
            );
          };
          tasks = refl;
          task_pointer = refl;
        },
      )

  pub oversize_lem :
      Gives a h u hu thread pages_before blocks_before s pieces bytes k
        (do_allocate_in_oversize_page a u thread s bytes (2 ^ k))
  oversize_lem = elim (dec_lt 0 s.oversize_pointer) [
    | yes room ↦ in_newest room
    | no full ↦
        let (j, larger, le, small_j) = larger_pow k small in
        in_new_array (omega (arith, full)) j larger le small_j
  ]
