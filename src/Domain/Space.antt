-- ===== src/Domain/Space.antt =====
-- The bump allocator of a domain, and the addresses of its segments.
use fuxi_n.Prelude.{
  ℕ, zero, suc, ◌+◌, ◌-◌, ◌*◌, ◌%◌, ◌^◌, ◌≤◌, ◌<◌, ◌≢◌, ◌≡◌, refl, ap, ◌∙◌, ◌⊎◌, Bool, true, false,
  Option, none, some, u32_mod, ltb, if◌then◌else◌, List, [], ◌∷◌, arith,
}
use fuxi_n.Domain.{
  ShmProtoHeader, allocate, allocate_all, init, total_space_size, segment_address, max_segment_num,
  max_segment_size, max_process_num,
}

-- What was given out lies within the free space.
abbrev pub IsWithin : ShmProtoHeader → Type 0
IsWithin h = (h.free_space_used ≤ h.free_space_size) × (h.free_space_size < u32_mod)

-- `Allocate` gives the next bytes where they fit, and else null and no change; what was given out
-- stays within the free space.
pub allocate_lem :
    (h : ShmProtoHeader) (size : ℕ)
    → IsWithin h
    → size < 2 ^ 63
    → let fits = ltb (h.free_space_size - h.free_space_used) size in
      (allocate h size ≡ (
        if fits
        then (none, h)
        else (some h.free_space_used, record h { free_space_used = h.free_space_used + size })))
      × IsWithin (allocate h size).1
unfolding allocate
allocate_lem h size w small = ground arith

-- `n` offsets, `size` apart, from `start` on
pub offsets_from : ℕ → ℕ → ℕ → List ℕ
offsets_from start size zero = []
offsets_from start size (suc n) = start ∷ offsets_from (start + size) size n

allocate_all-suc :
    (n size o : ℕ) (h h' : ShmProtoHeader) (rest : Bool × List ℕ × ShmProtoHeader)
    → allocate h size ≡ (some o, h')
    → allocate_all n size h' ≡ rest
    → allocate_all (suc n) size h ≡ (rest.0, o ∷ rest.1, rest.2)
unfolding allocate_all
allocate_all-suc n size o h h' rest one more =
    ap
      (λ (r : Option ℕ × ShmProtoHeader). elim r.0 [
        | none ↦ (false, [], r.1)
        | some offset ↦
            let (done, offsets, h'') = allocate_all n size r.1 in (done, offset ∷ offsets, h'')
      ])
      one
    ∙ ap (λ (r : Bool × List ℕ × ShmProtoHeader). (r.0, o ∷ r.1, r.2)) more

allocate_all_fits :
    (n size : ℕ) (h : ShmProtoHeader)
    → IsWithin h
    → h.free_space_used + n * size ≤ h.free_space_size
    → allocate_all n size h ≡ (
      true,
      offsets_from h.free_space_used size n,
      record h { free_space_used = h.free_space_used + n * size },
    )
unfolding allocate_all offsets_from
allocate_all_fits zero size h w fits = ground arith
allocate_all_fits (suc n) size h w fits =
    allocate_all-suc n size h.free_space_used h next _ one
      (allocate_all_fits n size next (omega arith, omega arith) (omega arith))
    ∙ ap
        (λ u. (
          true,
          h.free_space_used ∷ offsets_from (h.free_space_used + size) size n,
          record h { free_space_used = u },
        ))
        (omega arith)
  where
    next : ShmProtoHeader
    next = record h { free_space_used = h.free_space_used + size }

    one : allocate h size ≡ (some h.free_space_used, next)
    one = ground (arith, allocate_lem h size w (omega arith))

-- In a memory of `TotalSpaceSize` bytes below 4 GiB, the first `Init` succeeds: each of the 256
-- process states gets a buffer of its own, one behind the other, and these use up the free space
-- exactly.
pub init_lem :
    (layout_size queue_size : ℕ) (h : ShmProtoHeader)
    → h.inited ≡ false
    → layout_size + max_process_num * queue_size < u32_mod
    → let nbytes = total_space_size layout_size queue_size in
      let (done, offsets, h') = init layout_size queue_size h nbytes in
      (done ≡ true)
      × (offsets ≡ offsets_from 0 queue_size max_process_num)
      × (h'.inited ≡ true)
      × (h'.free_space_used ≡ h'.free_space_size)
      × (h'.free_space_size ≡ max_process_num * queue_size)
unfolding init total_space_size
init_lem layout_size queue_size h fresh small =
    rw (fresh, init) (rw (filled) (refl, refl, refl, omega arith, omega arith))
  where
    start : ShmProtoHeader
    start = record {
      inited = false;
      header_space_size = layout_size % u32_mod;
      total_space_size = total_space_size layout_size queue_size;
      free_space_size =
          (total_space_size layout_size queue_size + u32_mod - layout_size % u32_mod) % u32_mod;
      free_space_used = 0;
    }

    filled : allocate_all max_process_num queue_size start ≡ (
      true,
      offsets_from 0 queue_size max_process_num,
      record start { free_space_used = 0 + max_process_num * queue_size },
    )
    filled = allocate_all_fits max_process_num queue_size start (omega arith) (omega arith)

-- Segments of two indexes in the table have address ranges of 4 GiB that do not meet, and all end
-- below 0x5800_0000_0000.
pub segment_address_disjoint :
    (i j : ℕ)
    → i < max_segment_num
    → j < max_segment_num
    → i ≢ j
    → ((segment_address i + max_segment_size ≤ segment_address j)
        ⊎ (segment_address j + max_segment_size ≤ segment_address i))
      × (segment_address i + max_segment_size ≤ 0x580000000000)
unfolding segment_address
segment_address_disjoint i j hi hj ne = ground arith
