-- ===== src/Tests/Buffers.antt =====
-- A buffer over pages of the runtime of the other tests, and an upstream resource that takes
-- addresses from a range of its own.
use fuxi_n.Prelude.{
  true, ◌⊎◌, ℕ, ◌+◌, ◌*◌, ◌%◌, ◌^◌, ◌≤◌, ◌≡◌, refl, none, some, List, [], ◌∷◌, ltb, lt→ltb,
  if◌then◌else◌, ◌==◌, count, u64_mod, ==_ne, arith,
}
use native.Mathlib.Decide.{ℕ_discrete}
use native.Mathlib.Nat.{one-le-pow}
use fuxi_n.Memory.NewDelete.{new_delete}
use fuxi_n.Memory.Buffer.{Upstream, OversizePage, DestroyTask, Buffer, Placed, new_buffer, allocate}
use fuxi_n.Memory.Buffer.Release.{contains, release}
use fuxi_n.Memory.Buffer.Align.{multiple-mod}
use fuxi_n.Memory.Buffer.Cover.{cover_pages}
use fuxi_n.Memory.Buffer.Layout.{
  IsUpstream, IsHoused, block, tally_block, count_block, cover_pieces, cover_blocks, bytes_in,
  bytes_of, pages_of, blocks_of,
}
use fuxi_n.Memory.Buffer.NewArray.{IsPageSize}
use fuxi_n.Memory.Buffer.Places.{IsPlaced}
use fuxi_n.Memory.Buffer.Allocate.{allocate_lem}
use fuxi_n.Memory.Buffer.Registers.{IsAlive}
use fuxi_n.Memory.Buffer.Calls.{Call, AreCalls, allocates, registers, releases, Life, run, new_life}
use fuxi_n.Memory.Buffer.History.{new-IsAlive, run-apart, run-due, run-released}
use fuxi_n.Tests.Pages.{Bump, page, bump_runtime, pages_of_runtime, start, start-IsBump}

record Blocks : Type 0 where
  next : ℕ
  live : List OversizePage

abbrev remove_block : OversizePage → List OversizePage → List OversizePage
remove_block b [] = []
remove_block b (x ∷ xs) =
    let rest = remove_block b xs in if tally_block b x == 1 then xs else x ∷ rest

abbrev block_upstream : Upstream
block_upstream = record {
  State = Blocks;
  allocate = λ bytes alignment s.
      (let p = alignment * s.next in
        some (p, record { next = s.next + bytes; live = block p bytes alignment ∷ s.live }));
  deallocate = λ p bytes alignment s.
      if ltb 0 (count_block (block p bytes alignment) s.live)
      then some (record { next = s.next; live = remove_block (block p bytes alignment) s.live })
      else none;
}

same_block : (b c x : OversizePage) → tally_block b x ≡ 1 → tally_block c x ≡ tally_block c b
same_block b c x h = ground arith

tally_block_le : (b x : OversizePage) → tally_block b x ≤ 1
tally_block_le b x = ground arith

count-remove_block :
    (b c : OversizePage) (xs : List OversizePage)
    → 1 ≤ count_block b xs
    → count_block c (remove_block b xs) + tally_block c b ≡ count_block c xs
count-remove_block b c [] h = absurd (omega (arith, h))
count-remove_block b c (x ∷ xs) h = elim (ℕ_discrete (tally_block b x) 1) [
  | yes e ↦ rw e (omega (arith, same_block b c x e))
  | no ne ↦
      rw (==_ne (tally_block b x) 1 ne)
        (omega (arith, count-remove_block b c xs (omega (arith, h, ne, tally_block_le b x))))
]

abbrev blocks-IsUpstream : IsUpstream block_upstream
blocks-IsUpstream = record {
  IsValid = λ s. Unit;
  live = λ s b. count_block b s.live;
  allocates = λ bytes k s v. (
    2 ^ k * s.next,
    record { next = s.next + bytes; live = block (2 ^ k * s.next) bytes (2 ^ k) ∷ s.live },
    refl,
    tt,
    multiple-mod (2 ^ k) s.next (one-le-pow k 2 (omega arith)),
    λ b. omega arith,
  );
  deallocates = λ b s v h. (
    record { next = s.next; live = remove_block b s.live },
    rw (lt→ltb 0 (count_block b s.live) h) refl,
    tt,
    λ c. count-remove_block b c s.live h,
  );
}

abbrev no_blocks : Blocks
no_blocks = record { next = 1000; live = [] }

page-IsPageSize : IsPageSize page
page-IsPageSize = record { large = omega arith; small = omega arith; even = refl }

abbrev task : ℕ → DestroyTask
task n = record { ptr = n; destructor = 1 }

-- Pieces of one page and of two, one larger than a page, and destructors
abbrev calls : List Call
calls =
    allocates 100 3
    ∷ registers (task 1)
    ∷ allocates 4000 4
    ∷ registers (task 2)
    ∷ allocates 9000 3
    ∷ releases
    ∷ allocates 8 3
    ∷ registers (task 3)
    ∷ []

calls-AreCalls : AreCalls calls
calls-AreCalls = (
  omega arith,
  omega arith,
  omega arith,
  (
    omega arith,
    omega arith,
    omega arith,
    (omega arith, omega arith, omega arith, (omega arith, omega arith, omega arith, tt)),
  ),
)

new_buffer-IsAlive :
    IsAlive
      (new_delete bump_runtime page)
      pages_of_runtime
      block_upstream
      blocks-IsUpstream
      0
      (λ p. count p start.live)
      (λ b. count_block b no_blocks.live)
      (new_buffer start no_blocks)
      []
      []
new_buffer-IsAlive =
    new-IsAlive (new_delete bump_runtime page) pages_of_runtime block_upstream blocks-IsUpstream 0
      page-IsPageSize start no_blocks start-IsBump tt

allocate_lem_example :
    (placed : Placed Bump Blocks) × (allocate
        (new_delete bump_runtime page)
        block_upstream
        0
        (new_buffer start no_blocks)
        100
        (2 ^ 3)
      ≡ some placed)
    × IsPlaced
        (new_delete bump_runtime page)
        pages_of_runtime
        block_upstream
        blocks-IsUpstream
        0
        (λ p. count p start.live)
        (λ b. count_block b no_blocks.live)
        (new_buffer start no_blocks)
        []
        100
        3
        placed
allocate_lem_example =
    allocate_lem (new_delete bump_runtime page) pages_of_runtime block_upstream blocks-IsUpstream 0
      (λ p. count p start.live) (λ b. count_block b no_blocks.live) page-IsPageSize
      (new_buffer start no_blocks) [] 100 3 (omega arith) (omega arith) (omega arith)
      new_buffer-IsAlive.owner new_buffer-IsAlive.laid

run-apart_example :
    (w : Life Bump Blocks) × (run
        (new_delete bump_runtime page)
        block_upstream
        0
        calls
        (new_life (new_delete bump_runtime page) block_upstream 0 start no_blocks)
      ≡ some w)
    × ((x : ℕ)
        → (cover_pages x page (pages_of w.buffer) ≤ 1)
          × (cover_pieces x w.pieces
              ≤ cover_pages x page (pages_of w.buffer) + cover_blocks x (blocks_of w.buffer))
          × ((cover_pieces x w.pieces ≡ 0)
              ⊎ (contains (new_delete bump_runtime page) block_upstream 0 x w.buffer ≡ true)))
    × IsHoused page w.buffer.page_pointer w.buffer.page_arrays
run-apart_example =
    run-apart (new_delete bump_runtime page) pages_of_runtime block_upstream blocks-IsUpstream 0
      page-IsPageSize calls start no_blocks calls-AreCalls start-IsBump tt

run-due_example :
    (w : Life Bump Blocks) × (run
        (new_delete bump_runtime page)
        block_upstream
        0
        calls
        (new_life (new_delete bump_runtime page) block_upstream 0 start no_blocks)
      ≡ some w)
    × (w.ran ≡ task 2 ∷ task 1 ∷ [])
run-due_example =
    run-due (new_delete bump_runtime page) pages_of_runtime block_upstream blocks-IsUpstream 0
      page-IsPageSize calls start no_blocks calls-AreCalls start-IsBump tt

run-released_example :
    (w : Life Bump Blocks) × (s : Buffer Bump Blocks) × (ran : List DestroyTask) × (run
        (new_delete bump_runtime page)
        block_upstream
        0
        calls
        (new_life (new_delete bump_runtime page) block_upstream 0 start no_blocks)
      ≡ some w)
    × (release (new_delete bump_runtime page) block_upstream 0 w.buffer ≡ some (s, ran))
    × ((q : ℕ) → count q s.page_allocator.live ≡ count q start.live)
    × ((b : OversizePage) → count_block b s.upstream.live ≡ count_block b no_blocks.live)
    × (w.buffer.space_allocated
        ≡ (bytes_in page (pages_of w.buffer) + bytes_of (blocks_of w.buffer)) % u64_mod)
run-released_example =
    run-released (new_delete bump_runtime page) pages_of_runtime block_upstream blocks-IsUpstream 0
      page-IsPageSize calls start no_blocks calls-AreCalls start-IsBump tt
