-- ===== src/Memory/Batch/Lends.antt =====
-- The calls of `BatchPageAllocator`, and the pages that it has out.
use fuxi_n.Prelude.{
  ℕ, zero, suc, ◌+◌, ◌-◌, ◌≤◌, ◌<◌, ◌≡◌, refl, Option, some, List, [], ◌∷◌, ◌++◌, length,
  length-append, length-drop, drop, lt→ltb, ge→ltb, le→leb, count, count-append, arith,
}
use native.Mathlib.Decide.{dec_lt}
use fuxi_n.Memory.Pages.{Got, PageAllocator, IsPageAllocator, ◌>>=◌}
use fuxi_n.Memory.Batch.{
  Slot, Batch, local, put, remaining, allocate_one, allocate_loop, deallocate, destroy_slots,
  destroy, batched,
}
use fuxi_n.Memory.Batch.Slots.{
  kept, AreSlots, count-drop_all, first-drop, length-local, put-AreSlots, kept-put,
}

module _ (a : PageAllocator) (h : IsPageAllocator a) where
  -- The pages that wait for a thread belong to the upstream allocator, and a batch is not empty.
  pub record IsBatch (s : Batch a.State) : Type 0 where
    pub upstream : h.IsValid s.upstream
    pub nonempty : 1 ≤ s.batch_size
    pub slots : AreSlots s.batch_size s.cache
    pub owned : (p : ℕ) → kept s.cache p ≤ h.held s.upstream p

  abbrev pub lent : Batch a.State → ℕ → ℕ
  lent s p = h.held s.upstream p - kept s.cache p

  -- What a call gives that ends well
  abbrev pub Gives : Batch a.State → ℕ → Option (Got (Batch a.State)) → Type 0
  Gives s num result =
      (got : Got (Batch a.State)) × (result ≡ some got)
      × (length got.pages ≡ num)
      × IsBatch got.state
      × ((p : ℕ) → lent got.state p ≡ lent s p + count p got.pages)

  -- A page of the batch that the thread has
  take_next :
      (thread : ℕ) (s : Batch a.State)
      → IsBatch s
      → (local s.batch_size thread s.cache).next_page
        < length (local s.batch_size thread s.cache).buffer
      → Gives s 1 (allocate_one a thread s)
  take_next thread s v more =
      let x = local s.batch_size thread s.cache in
      let (page, e, split) = first-drop x.next_page x.buffer more in
      let y : Slot = record { buffer = x.buffer; next_page = suc x.next_page } in
      let moved : (p : ℕ)
          → kept (put s.batch_size thread y s.cache) p + count p (page ∷ []) ≡ kept s.cache p =
        λ p. omega (arith, kept-put p s.batch_size thread y s.cache, split p) in
      (
        record {
          pages = page ∷ [];
          state = record s { cache = put s.batch_size thread y s.cache };
        },
        rw (lt→ltb x.next_page (length x.buffer) more, e, ◌>>=◌) refl,
        refl,
        record {
          upstream = v.upstream;
          nonempty = v.nonempty;
          slots =
              put-AreSlots s.batch_size thread y s.cache
                (length-local s.batch_size thread s.cache v.slots) v.slots;
          owned = λ p. omega (arith, v.owned p, moved p);
        },
        λ p. omega (arith, v.owned p, moved p),
      )

  -- The first page of a new batch
  take_first :
      (thread : ℕ) (s : Batch a.State)
      → IsBatch s
      → length (local s.batch_size thread s.cache).buffer
        ≤ (local s.batch_size thread s.cache).next_page
      → Gives s 1 (allocate_one a thread s)
  take_first thread s v used =
      let x = local s.batch_size thread s.cache in
      let size = length-local s.batch_size thread s.cache v.slots in
      let (got, e, n, v1, more) = h.allocates thread s.batch_size s.upstream v.upstream in
      let rest = drop (length got.pages) x.buffer in
      let filled = got.pages ++ rest in
      let long = length-append got.pages rest in
      let (page, e', split) = first-drop 0 filled (omega (arith, v.nonempty, n, long)) in
      let y : Slot = record { buffer = filled; next_page = 1 } in
      let moved : (p : ℕ)
          → kept (put s.batch_size thread y s.cache) p + count p (page ∷ [])
            ≡ kept s.cache p + count p got.pages =
        λ p. omega (
          arith,
          kept-put p s.batch_size thread y s.cache,
          split p,
          count-append p got.pages rest,
          count-drop_all p (length got.pages) x.buffer (omega (arith, n, size)),
          count-drop_all p x.next_page x.buffer used,
        ) in
      (
        record {
          pages = page ∷ [];
          state = record {
            upstream = got.state;
            batch_size = s.batch_size;
            cache = put s.batch_size thread y s.cache;
          };
        },
        rw
            (
              ge→ltb x.next_page (length x.buffer) used,
              e,
              ◌>>=◌,
              le→leb (length got.pages) (length x.buffer) (omega (arith, n, size)),
              ◌>>=◌,
              e',
              ◌>>=◌,
            )
            refl,
        refl,
        record {
          upstream = v1;
          nonempty = v.nonempty;
          slots =
              put-AreSlots s.batch_size thread y s.cache
                (omega (arith, long, length-drop (length got.pages) x.buffer, n, size)) v.slots;
          owned = λ p. omega (arith, v.owned p, moved p, more p);
        },
        λ p. omega (arith, v.owned p, moved p, more p),
      )

  allocate_one_lem :
      (thread : ℕ) (s : Batch a.State) → IsBatch s → Gives s 1 (allocate_one a thread s)
  allocate_one_lem thread s v =
      elim (dec_lt (local s.batch_size thread s.cache).next_page
        (length (local s.batch_size thread s.cache).buffer)) [
          | yes more ↦ take_next thread s v more
          | no used ↦ take_first thread s v (omega (arith, used))
        ]

  pub allocate_loop_lem :
      (thread num : ℕ) (s : Batch a.State) → IsBatch s → Gives s num (allocate_loop a thread num s)
  allocate_loop_lem thread zero s v =
      (record { pages = []; state = s }, refl, refl, v, λ p. omega arith)
  allocate_loop_lem thread (suc num) s v =
      let (one, e, n, v1, more) = allocate_one_lem thread s v in
      let (rest, e', n', v2, more') = allocate_loop_lem thread num one.state v1 in
      (
        record { pages = one.pages ++ rest.pages; state = rest.state },
        rw (e, ◌>>=◌, e', ◌>>=◌) refl,
        omega (arith, length-append one.pages rest.pages, n, n'),
        v2,
        λ p. omega (arith, more p, more' p, count-append p one.pages rest.pages),
      )

  pub deallocate-IsBatch :
      (pages : List ℕ) (s : Batch a.State)
      → IsBatch s
      → ((p : ℕ) → count p pages ≤ lent s p)
      → (s' : Batch a.State) × (deallocate a pages s ≡ some s')
        × IsBatch s'
        × ((p : ℕ) → lent s' p + count p pages ≡ lent s p)
  deallocate-IsBatch pages s v fits =
      let (up, e, v1, less) =
        h.deallocates pages s.upstream v.upstream (λ p. omega (arith, fits p)) in
      (
        record s { upstream = up },
        rw (e, ◌>>=◌) refl,
        record {
          upstream = v1;
          nonempty = v.nonempty;
          slots = v.slots;
          owned = λ p. omega (arith, v.owned p, fits p, less p);
        },
        λ p. omega (arith, v.owned p, fits p, less p),
      )

  abbrev pub batched-IsPageAllocator : IsPageAllocator (batched a)
  batched-IsPageAllocator = record {
    IsValid = IsBatch;
    held = lent;
    held_once = λ s p v. omega (arith, h.held_once s.upstream p v.upstream);
    is_pow = h.is_pow;
    aligned = λ s p v lent_to. h.aligned s.upstream p v.upstream (omega (arith, lent_to));
    allocates = allocate_loop_lem;
    deallocates = deallocate-IsBatch;
  }

  destroy_slots_lem :
      (xs : List Slot) (s : a.State)
      → h.IsValid s
      → ((p : ℕ) → kept xs p ≤ h.held s p)
      → (s' : a.State) × (destroy_slots a xs s ≡ some s')
        × h.IsValid s'
        × ((p : ℕ) → h.held s' p + kept xs p ≡ h.held s p)
  unfolding destroy_slots kept
  destroy_slots_lem [] s v owned = (s, refl, v, λ p. omega arith)
  destroy_slots_lem (x ∷ xs) s v owned = elim (dec_lt x.next_page (length x.buffer)) [
    | yes more ↦
        let (s1, e, v1, less) = h.deallocates (remaining x) s v (λ p. omega (arith, owned p)) in
        let (s2, e', v2, less') =
          destroy_slots_lem xs s1 v1 (λ p. omega (arith, owned p, less p)) in
        (
          s2,
          rw (lt→ltb x.next_page (length x.buffer) more, e, ◌>>=◌) e',
          v2,
          λ p. omega (arith, less p, less' p),
        )
    | no used ↦
        let none_left : (p : ℕ) → count p (remaining x) ≡ 0 =
          λ p. count-drop_all p x.next_page x.buffer (omega (arith, used)) in
        let (s2, e', v2, less') = destroy_slots_lem xs s v (λ p. omega (arith, owned p)) in
        (
          s2,
          rw (ge→ltb x.next_page (length x.buffer) (omega (arith, used)), ◌>>=◌) e',
          v2,
          λ p. omega (arith, none_left p, less' p),
        )
  ]

  -- The destructor gives back the pages that no thread took: the upstream allocator then holds as
  -- lent only what the users still hold.
  pub destroy_lem :
      (s : Batch a.State)
      → IsBatch s
      → (s' : a.State) × (destroy a s ≡ some s') × h.IsValid s' × ((p : ℕ) → h.held s' p ≡ lent s p)
  unfolding destroy
  destroy_lem s v =
      let (s', e, v', less) = destroy_slots_lem s.cache s.upstream v.upstream v.owned in
      (s', e, v', λ p. omega (arith, less p))
