-- ===== src/Extent/Blocks.antt =====
-- The blocks of an extent over any history of calls, and where their buffers lie.
use fuxi_n.Prelude.{
  ℕ, ◌+◌, ◌*◌, ◌≤◌, ◌<◌, ◌≡◌, refl, ap, ◌∙◌, List, [], ◌∷◌, ◌++◌, length, min, count, count-append,
  Bool, true, false, Option, none, some, u32_mod, if◌then◌else◌, arith,
}
use native.Mathlib.Nat.{mul-le-mul_right}
use fuxi_n.Ring.One.{dequeue_one-empty, dequeue_one}
use fuxi_n.Extent.{
  ExtentLayout, Extent, WritableBlock, get_free_block_index, put_free_block_index,
  try_lock_for_read, release_read_lock, initialize, acquire_block_to_write, release_written_block,
  acquire_block_to_read, release_read_block,
}
use fuxi_n.Extent.Space.{HasFree}

module _ (x : Extent) (e : ExtentLayout) (w : WritableBlock) where
  -- Without a free block `AcquireBlockToWrite` returns `false`, and neither the block nor the extent
  -- is changed.
  pub acquire-empty : HasFree e [] → acquire_block_to_write x e (some w) ≡ some (false, some w, e)
  unfolding acquire_block_to_write get_free_block_index
  acquire-empty h =
      rw
        (
          dequeue_one-empty e.free_block_ids h.ring_valid (λ j. 0) true h.free_eq,
          acquire_block_to_write,
        )
        refl

  -- Else it returns `true`, and gives the first free block and that block's buffer.
  pub acquire-next :
      (i : ℕ) (free : List ℕ)
      → HasFree e (i ∷ free)
      → (e' : ExtentLayout) × (acquire_block_to_write x e (some w)
          ≡ some (
            true,
            some (record {
              extent_index = e.extent_index;
              block_index = i;
              block = i;
              buf = x.block_buf_addrs i;
            }),
            e',
          ))
        × HasFree e' free
  unfolding acquire_block_to_write get_free_block_index
  acquire-next i free h =
      let (left, t, r, d, first, c, v, z) =
        dequeue_one e.free_block_ids h.ring_valid (λ j. 0) true i free h.free_eq in
      (
        record e { free_block_ids = r },
        rw (d, acquire_block_to_write) (rw first refl),
        record { ring_valid = v; free_eq = c },
      )

-- What the users of an extent do: each call has the block that it is made with.
pub data Call : Type 0 where
  acquires : WritableBlock → Call
  releases : WritableBlock → Call
  reads : WritableBlock → Call
  ends_read : WritableBlock → Call

-- The indexes given out to write, in order, and the layout at the end
pub run : Extent → ExtentLayout → List Call → Option (List ℕ × ExtentLayout)
run x e [] = some ([], e)
run x e (acquires w ∷ cs) = elim (acquire_block_to_write x e (some w)) [
  | none ↦ none
  | some (found, out, e') ↦ elim (run x e' cs) [
    | none ↦ none
    | some (got, e'') ↦
        some (elim out [ none ↦ got | some b ↦ if found then b.block_index ∷ got else got ], e'')
  ]
]
run x e (releases w ∷ cs) = run x (release_written_block e w) cs
run x e (reads w ∷ cs) = run x (acquire_block_to_read x e (some w)).2 cs
run x e (ends_read w ∷ cs) = run x (release_read_block e w) cs

-- How often the calls acquire a block to write
abbrev pub acquires_of : List Call → ℕ
acquires_of [] = 0
acquires_of (acquires w ∷ cs) = acquires_of cs + 1
acquires_of (releases w ∷ cs) = acquires_of cs
acquires_of (reads w ∷ cs) = acquires_of cs
acquires_of (ends_read w ∷ cs) = acquires_of cs

run-acquires :
    (x : Extent) (e e' e'' : ExtentLayout) (w b : WritableBlock) (found : Bool) (cs : List Call)
    (got : List ℕ)
    → acquire_block_to_write x e (some w) ≡ some (found, some b, e')
    → run x e' cs ≡ some (got, e'')
    → run x e (acquires w ∷ cs) ≡ some (if found then b.block_index ∷ got else got, e'')
unfolding run
run-acquires x e e' e'' w b found cs got one more =
    ap
      (λ (s : Option (Bool × Option WritableBlock × ExtentLayout)). elim s [
        | none ↦ none
        | some (found, out, e') ↦ elim (run x e' cs) [
          | none ↦ none
          | some (got, e'') ↦
              some
                (elim out [ none ↦ got | some b ↦ if found then b.block_index ∷ got else got ], e'')
        ]
      ])
      one
    ∙ ap
        (λ (s : Option (List ℕ × ExtentLayout)). elim s [
          | none ↦ none
          | some (got, e'') ↦ some (if found then b.block_index ∷ got else got, e'')
        ])
        more

-- The blocks given out, and as many as are acquired while there are any
run-split :
    (x : Extent) (e : ExtentLayout) (free : List ℕ) (cs : List Call)
    → HasFree e free
    → (got free' : List ℕ) × (e' : ExtentLayout) × (run x e cs ≡ some (got, e'))
      × HasFree e' free'
      × (got ++ free' ≡ free)
      × (length got ≡ min (acquires_of cs) (length free))
unfolding run release_written_block put_free_block_index acquire_block_to_read try_lock_for_read
    release_read_block release_read_lock
run-split x e free [] h = ([], free, e, refl, h, refl, omega arith)
run-split x e [] (acquires w ∷ cs) h =
    let (got, free', e', ran, h', all, many) = run-split x e [] cs h in
    (
      got,
      free',
      e',
      run-acquires x e e e' w w false cs got (acquire-empty x e w h) ran,
      h',
      all,
      omega (arith, many),
    )
run-split x e (i ∷ free) (acquires w ∷ cs) h =
    let (e1, one, h1) = acquire-next x e w i free h in
    let (got, free', e', ran, h', all, many) = run-split x e1 free cs h1 in
    (
      i ∷ got,
      free',
      e',
      run-acquires x e e1 e' w _ true cs got one ran,
      h',
      ap (◌∷◌ i) all,
      omega (arith, many),
    )
run-split x e free (releases w ∷ cs) h = run-split x e free cs h
run-split x e free (reads w ∷ cs) h = run-split x e free cs h
run-split x e free (ends_read w ∷ cs) h = run-split x e free cs h

-- Over any history of calls on an extent whose free blocks are different ones, no call waits for
-- ever. The blocks given out are, in order, the first of those that were free at the start: one for
-- each call that acquires to write, as long as there are any, and the rest are free at the end. No
-- block is given out twice, and none that was given out is free at the end, released or not.
pub run-HasFree :
    (x : Extent) (e : ExtentLayout) (free : List ℕ) (cs : List Call)
    → HasFree e free
    → ((i : ℕ) → count i free ≤ 1)
    → (got free' : List ℕ) × (e' : ExtentLayout) × (run x e cs ≡ some (got, e'))
      × HasFree e' free'
      × (got ++ free' ≡ free)
      × (length got ≡ min (acquires_of cs) (length free))
      × ((i : ℕ) → count i got + count i free' ≤ 1)
run-HasFree x e free cs h once =
    let (got, free', e', ran, h', all, many) = run-split x e free cs h in
    (
      got,
      free',
      e',
      ran,
      h',
      all,
      many,
      (λ i. omega (arith, once i, count-append i got free', ap (count i) all)),
    )

-- The buffers that the first `Initialize` finds, in an extent whose buffers have less than 4 GiB
-- in all, lie within `block_buffer_size * block_num` bytes from their base, and those of two
-- blocks do not meet.
pub initialize_disjoint :
    (x : Extent) (e : ExtentLayout) (i j : ℕ)
    → x.is_init ≡ false
    → e.block_num * e.block_buffer_size < u32_mod
    → i < j
    → j < e.block_num
    → let addrs = (initialize x e).1.block_buf_addrs in
      (e.block_buffer_offset ≤ addrs i)
      × (addrs i + e.block_buffer_size ≤ addrs j)
      × (addrs j + e.block_buffer_size ≤ e.block_buffer_offset + e.block_num * e.block_buffer_size)
unfolding initialize
initialize_disjoint x e i j fresh small lt below = ground (
  arith,
  fresh,
  mul-le-mul_right {m = i + 1} {n = j} e.block_buffer_size (omega arith),
  mul-le-mul_right {m = j + 1} {n = e.block_num} e.block_buffer_size (omega arith),
)

-- Where two processes called `Initialize` on an extent, and one acquires its first free block to
-- write, the other, by that block's index, acquires to read the same block and the same bytes.
pub read_written :
    (x y : Extent) (e : ExtentLayout) (w r : WritableBlock) (i : ℕ) (free : List ℕ)
    → x.is_init ≡ false
    → y.is_init ≡ false
    → HasFree e (i ∷ free)
    → i < e.block_num
    → r.block_index ≡ i
    → (e' : ExtentLayout) × (written got : WritableBlock) × (acquire_block_to_write
          (initialize x e).1
          e
          (some w)
        ≡ some (true, some written, e'))
      × (acquire_block_to_read (initialize y e).1 e' (some r) ≡ (true, some got, e'))
      × (got.block ≡ written.block)
      × (got.buf ≡ written.buf)
unfolding initialize acquire_block_to_read try_lock_for_read
read_written x y e w r i free fx fy h lt same =
    let (e', one, _) = acquire-next (initialize x e).1 e w i free h in
    (e', _, _, one, refl, same, ground (arith, fx, fy, same))
