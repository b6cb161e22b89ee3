-- ===== src/Memory/Buffer/History.antt =====
-- Any history of calls on one buffer.
use fuxi_n.Prelude.{
  true, ◌⊎◌, ℕ, ◌+◌, ◌-◌, ◌%◌, ◌≤◌, ◌≡◌, refl, sym, ap, ◌∙◌, some, List, [], ◌∷◌, ◌++◌, u32_mod,
  u64_mod, arith,
}
use mathlib.Core.List.{append-nil, append_assoc}
use fuxi_n.Memory.Pages.{PageAllocator, IsPageAllocator, ◌>>=◌}
use fuxi_n.Memory.Buffer.{Upstream, OversizePage, DestroyTask, Buffer, new_buffer}
use fuxi_n.Memory.Buffer.Release.{contains, tasks_from, release}
use fuxi_n.Memory.Buffer.Cover.{cover_none, cover_pages, cover_pages-count}
use fuxi_n.Memory.Buffer.Layout.{
  IsUpstream, cover_pieces, cover_blocks, bytes_in, bytes_of, pages_of, blocks_of, IsHoused,
}
use fuxi_n.Memory.Buffer.NewArray.{IsPageSize}
use fuxi_n.Memory.Buffer.Allocate.{allocate_lem}
use fuxi_n.Memory.Buffer.Returns.{release_lem, zero_mod}
use fuxi_n.Memory.Buffer.Registers.{
  IsAlive, same-IsTaskPointer, tasks_from_same, register_destructor_lem,
}
use fuxi_n.Memory.Buffer.Contains.{contains_lem}
use fuxi_n.Memory.Buffer.Calls.{
  Call, allocates, registers, releases, AreCalls, Life, due, run, new_life,
}

module _ (a : PageAllocator) (h : IsPageAllocator a) (u : Upstream) (hu : IsUpstream u) (thread : ℕ)
    (z : IsPageSize a.page_size) where
  module _ (pages_before : ℕ → ℕ) (blocks_before : OversizePage → ℕ) where
    run-IsAlive :
        (cs : List Call) (w : Life a.State u.State) (waiting : List DestroyTask)
        → AreCalls cs
        → IsAlive a h u hu thread pages_before blocks_before w.buffer w.pieces waiting
        → (w' : Life a.State u.State) × (waiting' : List DestroyTask) × (run a u thread cs w
            ≡ some w')
          × IsAlive a h u hu thread pages_before blocks_before w'.buffer w'.pieces waiting'
          × (w'.ran ≡ w.ran ++ due waiting cs)
    run-IsAlive [] w waiting ok v = (w, waiting, refl, v, sym (append-nil w.ran))
    run-IsAlive (allocates bytes k ∷ cs) w waiting (nonempty, low, small, ok) v =
        let (placed, e, well) =
          allocate_lem a h u hu thread pages_before blocks_before z w.buffer w.pieces bytes k
            nonempty low small v.owner v.laid in
        let (w', waiting', e', v', same) =
          run-IsAlive cs
            (record {
              buffer = placed.buffer;
              pieces = record { start = placed.address; bytes = bytes } ∷ w.pieces;
              ran = w.ran;
            })
            waiting ok
            (record {
              owner = well.owner;
              laid = well.laid;
              task_pointer =
                  same-IsTaskPointer placed.buffer.task_pointer w.buffer.task_pointer
                    placed.buffer.task_arrays w.buffer.task_arrays well.task_pointer well.tasks
                    v.task_pointer;
              tasks =
                  tasks_from_same placed.buffer.task_pointer w.buffer.task_pointer
                    placed.buffer.task_arrays w.buffer.task_arrays well.task_pointer well.tasks
                  ∙ v.tasks;
            }) in
        (w', waiting', rw (e, ◌>>=◌) e', v', same)
    run-IsAlive (registers t ∷ cs) w waiting ok v =
        let (s', e, v1) =
          register_destructor_lem a h u hu thread pages_before blocks_before w.buffer w.pieces
            waiting t z v in
        let (w', waiting', e', v', same) =
          run-IsAlive cs (record { buffer = s'; pieces = w.pieces; ran = w.ran }) (t ∷ waiting) ok
            v1 in
        (w', waiting', rw (e, ◌>>=◌) e', v', same)
    run-IsAlive (releases ∷ cs) w waiting ok v =
        let (s', e, o, l, _, _, top, none_left) =
          release_lem a h u hu thread pages_before blocks_before w.buffer w.pieces z v.owner
            v.laid in
        let ran = tasks_from w.buffer.task_pointer w.buffer.task_arrays in
        let (w', waiting', e', v', same) =
          run-IsAlive cs (record { buffer = s'; pieces = []; ran = w.ran ++ ran }) [] ok
            (record {
              owner = o;
              laid = l;
              task_pointer =
                  same-IsTaskPointer s'.task_pointer 0 s'.task_arrays [] top none_left refl;
              tasks = tasks_from_same s'.task_pointer 0 s'.task_arrays [] top none_left;
            }) in
        (
          w',
          waiting',
          rw (e, ◌>>=◌) e',
          v',
          same ∙ append_assoc w.ran ran (due [] cs) ∙ ap (λ r. w.ran ++ (r ++ due [] cs)) v.tasks,
        )

  pub new-IsAlive :
      (p : a.State) (up : u.State)
      → h.IsValid p
      → hu.IsValid up
      → IsAlive a h u hu thread (h.held p) (hu.live up) (new_buffer p up) [] []
  new-IsAlive p up v v' = record {
    owner = record {
      page_allocator = v;
      upstream = v';
      page_pointer = refl;
      oversize_pointer = refl;
      holds = λ q. omega arith;
      holds_blocks = λ b. omega arith;
      housed = tt;
      space = refl;
    };
    laid = record {
      low = omega arith;
      nonzero = omega arith;
      last_page = zero_mod a.page_size (omega (arith, z.large));
      newest = tt;
      rest = λ x. omega (
        arith,
        cover_none x (0 + (u32_mod - 1)) (a.page_size - (u32_mod - 1)) (omega (arith, z.small)),
      );
      apart = λ x. omega (
        arith,
        cover_none x (0 + (u32_mod - 1)) (a.page_size - (u32_mod - 1)) (omega (arith, z.small)),
      );
    };
    task_pointer = refl;
    tasks = refl;
  }

  -- From a new buffer, over allocators that keep their contracts and pages of 128 to 2^31 bytes, every
  -- history of allocations of 1 to 2^62 bytes, registrations and releases comes back. Then no byte is
  -- in two of its pages, a byte is in no more of the pieces given since the last release than in its
  -- pages and blocks together, `contains` finds it if it is in one of these pieces, and each page array
  -- stands in pages that it and the older ones list.
  pub run-apart :
      (cs : List Call) (p : a.State) (up : u.State)
      → AreCalls cs
      → h.IsValid p
      → hu.IsValid up
      → (w : Life a.State u.State) × (run a u thread cs (new_life a u thread p up) ≡ some w)
        × ((x : ℕ)
            → (cover_pages x a.page_size (pages_of w.buffer) ≤ 1)
              × (cover_pieces x w.pieces
                  ≤ cover_pages x a.page_size (pages_of w.buffer)
                    + cover_blocks x (blocks_of w.buffer))
              × ((cover_pieces x w.pieces ≡ 0) ⊎ (contains a u thread x w.buffer ≡ true)))
        × IsHoused a.page_size w.buffer.page_pointer w.buffer.page_arrays
  run-apart cs p up ok v v' =
      let (w, _, e, alive, _) =
        run-IsAlive (h.held p) (hu.live up) cs (new_life a u thread p up) [] ok
          (new-IsAlive p up v v') in
      let o = alive.owner in
      (
        w,
        e,
        (λ x. (
          omega (
            arith,
            cover_pages-count x a.page_size (pages_of w.buffer) (λ q one.
                h.aligned w.buffer.page_allocator q o.page_allocator
                  (omega (arith, one, o.holds q))),
            o.holds (x - x % a.page_size),
            h.held_once w.buffer.page_allocator (x - x % a.page_size) o.page_allocator,
          ),
          omega (arith, alive.laid.apart x),
          contains_lem a h u hu thread (h.held p) (hu.live up) w.buffer w.pieces x alive.laid,
        )),
        o.housed,
      )

  -- Over every such history from a new buffer the destructors that run are those that are due: at
  -- each release the ones registered since the release before, newest first, and no others.
  pub run-due :
      (cs : List Call) (p : a.State) (up : u.State)
      → AreCalls cs
      → h.IsValid p
      → hu.IsValid up
      → (w : Life a.State u.State) × (run a u thread cs (new_life a u thread p up) ≡ some w)
        × (w.ran ≡ due [] cs)
  run-due cs p up ok v v' =
      let (w, _, e, _, same) =
        run-IsAlive (h.held p) (hu.live up) cs (new_life a u thread p up) [] ok
          (new-IsAlive p up v v') in
      (w, e, same)

  -- After every such history from a new buffer a release comes back, and the page allocator and the
  -- upstream resource then have out what they had out before: every page and every block went back
  -- once, each block with the size and alignment it was asked for with. Until then `space_allocated`
  -- was the sum of their sizes, modulo 2^64.
  pub run-released :
      (cs : List Call) (p : a.State) (up : u.State)
      → AreCalls cs
      → h.IsValid p
      → hu.IsValid up
      → (w : Life a.State u.State) × (s : Buffer a.State u.State) × (ran : List DestroyTask) × (run
            a u thread cs
            (new_life a u thread p up)
          ≡ some w)
        × (release a u thread w.buffer ≡ some (s, ran))
        × ((q : ℕ) → h.held s.page_allocator q ≡ h.held p q)
        × ((b : OversizePage) → hu.live s.upstream b ≡ hu.live up b)
        × (w.buffer.space_allocated
            ≡ (bytes_in a.page_size (pages_of w.buffer) + bytes_of (blocks_of w.buffer)) % u64_mod)
  run-released cs p up ok v v' =
      let (w, _, e, alive, _) =
        run-IsAlive (h.held p) (hu.live up) cs (new_life a u thread p up) [] ok
          (new-IsAlive p up v v') in
      let (s, e', _, _, back, back', _, _) =
        release_lem a h u hu thread (h.held p) (hu.live up) w.buffer w.pieces z alive.owner
          alive.laid in
      (
        w,
        s,
        tasks_from w.buffer.task_pointer w.buffer.task_arrays,
        e,
        e',
        back,
        back',
        alive.owner.space,
      )
