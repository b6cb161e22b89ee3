-- ===== src/Memory/Buffer/Registers.antt =====
-- `register_destructor`, with room in the newest array and without.
use mathlib.Core.Path.{subst}
use fuxi_n.Prelude.{
  ℕ, suc, ◌+◌, ◌-◌, ◌≤◌, ◌<◌, ◌≡◌, refl, sym, ap, ◌∙◌, some, List, [], ◌∷◌, ◌++◌, length, set,
  length-set, drop-set, replicate, lt→ltb, ge→ltb, arith,
}
use native.Mathlib.Decide.{dec_lt}
use fuxi_n.Memory.Pages.{PageAllocator, IsPageAllocator, ◌>>=◌}
use fuxi_n.Memory.Buffer.{
  Upstream, OversizePage, DestroyTask, DestroyTaskArray, State, task_array_size,
}
use fuxi_n.Memory.Buffer.Release.{set_task, no_task, tasks_from, register_destructor}
use fuxi_n.Memory.Buffer.Layout.{
  IsUpstream, Piece, cover_pieces, cover_task_arrays, IsOwner, IsLaid,
}
use fuxi_n.Memory.Buffer.NewArray.{IsPageSize}
use fuxi_n.Memory.Buffer.Allocate.{allocate_lem}

-- The index stands in the newest array.
abbrev pub IsTaskPointer : ℕ → List DestroyTaskArray → Type 0
IsTaskPointer i [] = i ≡ 0
IsTaskPointer i (y ∷ ys) = i < length y.tasks

tasks_from-set :
    (i : ℕ) (t : DestroyTask) (ys : List DestroyTaskArray)
    → IsTaskPointer (suc i) ys
    → tasks_from i (set_task ys i t) ≡ t ∷ tasks_from (suc i) ys
tasks_from-set i t [] h = absurd (omega (arith, h))
tasks_from-set i t (y ∷ ys) h =
    ap (λ r. r ++ tasks_from 0 ys) (drop-set y.tasks i t (omega (arith, h)))

set-IsTaskPointer :
    (i : ℕ) (t : DestroyTask) (ys : List DestroyTaskArray)
    → IsTaskPointer (suc i) ys
    → IsTaskPointer i (set_task ys i t)
set-IsTaskPointer i t [] h = absurd (omega (arith, h))
set-IsTaskPointer i t (y ∷ ys) h = omega (arith, h, length-set y.tasks i t)

cover_task_arrays-set :
    (x i : ℕ) (t : DestroyTask) (ys : List DestroyTaskArray)
    → cover_task_arrays x (set_task ys i t) ≡ cover_task_arrays x ys
cover_task_arrays-set x i t [] = refl
cover_task_arrays-set x i t (y ∷ ys) = refl

-- Equal task arrays with equal indices
pub same-IsTaskPointer :
    (i j : ℕ) (xs ys : List DestroyTaskArray)
    → i ≡ j
    → xs ≡ ys
    → IsTaskPointer j ys
    → IsTaskPointer i xs
same-IsTaskPointer i j xs ys e e' h =
    subst (λ r. IsTaskPointer i r) (sym e') (subst (λ r. IsTaskPointer r ys) (sym e) h)

pub tasks_from_same :
    (i j : ℕ) (xs ys : List DestroyTaskArray) → i ≡ j → xs ≡ ys → tasks_from i xs ≡ tasks_from j ys
tasks_from_same i j xs ys e e' = ap (tasks_from i) e' ∙ ap (λ r. tasks_from r ys) e

module _ (a : PageAllocator) (h : IsPageAllocator a) (u : Upstream) (hu : IsUpstream u) (thread : ℕ)
    (pages_before : ℕ → ℕ) (blocks_before : OversizePage → ℕ) where
  -- The buffer is in order, with these pieces given and these tasks waiting, newest first.
  pub record IsAlive (s : State a u thread) (pieces : List Piece) (waiting : List DestroyTask)
      : Type 0 where
    pub owner : IsOwner a h u hu thread pages_before blocks_before s
    pub laid : IsLaid a h u hu thread pages_before blocks_before s pieces
    pub task_pointer : IsTaskPointer s.task_pointer s.task_arrays
    pub tasks : tasks_from s.task_pointer s.task_arrays ≡ waiting

  -- The same buffer with other task arrays, on the room that they take
  retask :
      (s : State a u thread) (pieces rest : List Piece) (i : ℕ) (ys : List DestroyTaskArray)
      (waiting : List DestroyTask)
      → IsOwner a h u hu thread pages_before blocks_before s
      → IsLaid a h u hu thread pages_before blocks_before s pieces
      → ((x : ℕ)
          → cover_pieces x rest + cover_task_arrays x ys
            ≤ cover_pieces x pieces + cover_task_arrays x s.task_arrays)
      → IsTaskPointer i ys
      → tasks_from i ys ≡ waiting
      → IsAlive (record s { task_arrays = ys; task_pointer = i }) rest waiting
  retask s pieces rest i ys waiting o l room pointer tasks = record {
    owner = record {
      page_allocator = o.page_allocator;
      upstream = o.upstream;
      page_pointer = o.page_pointer;
      oversize_pointer = o.oversize_pointer;
      holds = o.holds;
      holds_blocks = o.holds_blocks;
      housed = o.housed;
      space = o.space;
    };
    laid = record {
      low = l.low;
      nonzero = l.nonzero;
      last_page = l.last_page;
      newest = l.newest;
      rest = l.rest;
      apart = λ x. omega (arith, l.apart x, room x);
    };
    task_pointer = pointer;
    tasks = tasks;
  }

  pub register_destructor_lem :
      (s : State a u thread) (pieces : List Piece) (waiting : List DestroyTask) (t : DestroyTask)
      → IsPageSize a.page_size
      → IsAlive s pieces waiting
      → (s' : State a u thread) × (register_destructor a u thread s t ≡ some s')
        × IsAlive s' pieces (t ∷ waiting)
  register_destructor_lem s pieces waiting t z v = elim (dec_lt 0 s.task_pointer) [
    | yes room ↦
        let i = s.task_pointer - 1 in
        let top : s.task_pointer ≡ suc i = omega (arith, room) in
        let pointer : IsTaskPointer (suc i) s.task_arrays =
          subst (λ r. IsTaskPointer r s.task_arrays) top v.task_pointer in
        (
          record s { task_arrays = set_task s.task_arrays i t; task_pointer = i },
          rw (lt→ltb 0 s.task_pointer room, ◌>>=◌) refl,
          retask s pieces pieces i (set_task s.task_arrays i t) (t ∷ waiting) v.owner v.laid
              (λ x. omega (arith, cover_task_arrays-set x i t s.task_arrays))
              (set-IsTaskPointer i t s.task_arrays pointer)
              (tasks_from-set i t s.task_arrays pointer
                ∙ ap (λ r. t ∷ tasks_from r s.task_arrays) (sym top)
                ∙ ap (λ r. t ∷ r) v.tasks),
        )
    | no none_left ↦
        let full : s.task_pointer ≡ 0 = omega (arith, none_left) in
        let (placed, e, well) =
          allocate_lem a h u hu thread pages_before blocks_before z s pieces task_array_size 3
            (omega arith) (omega arith) (omega arith) v.owner v.laid in
        let array : DestroyTaskArray = record {
          place = placed.address;
          tasks = set (replicate 15 no_task) 14 t;
        } in
        (
          record placed.buffer {
            task_arrays = array ∷ placed.buffer.task_arrays;
            task_pointer = 14;
          },
          rw (ge→ltb 0 s.task_pointer (omega (arith, full)), e, ◌>>=◌) refl,
          retask placed.buffer (record { start = placed.address; bytes = task_array_size } ∷ pieces)
              pieces 14 (array ∷ placed.buffer.task_arrays) (t ∷ waiting) well.owner well.laid
              (λ x. omega arith) (omega arith)
              (ap (λ r. t ∷ r)
                (ap (tasks_from 0) well.tasks
                  ∙ ap (λ r. tasks_from r s.task_arrays) (sym full)
                  ∙ v.tasks)),
        )
  ]
