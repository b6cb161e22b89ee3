-- ===== src/Vector/Segments.antt =====
-- The segments of `for_each`, and the elements that `fill_n` and `copy_n` write.
use fuxi_n.Prelude.{
  ℕ, zero, suc, ◌+◌, ◌-◌, ◌*◌, ◌/◌, ◌%◌, ◌^◌, ◌≤◌, ◌<◌, ◌≡◌, ◌≢◌, refl, sym, ap, ◌∙◌, u32_mod,
  Option, some, List, [], ◌∷◌, ◌++◌, get_elem?, length, arith,
}
use mathlib.Core.List.{append-nil}
use native.Mathlib.Decide.{ℕ_discrete, dec_lt}
use native.Mathlib.Nat.{mod-eq_of_lt, mul-le-mul_right, suc-mul}
use fuxi_n.Vector.{
  Meta, block_size, block_index, block_offset, place, Segment, call, for_blocks, for_each,
}
use fuxi_n.Vector.Places.{
  IsMeta, positive, block_size-pow, block_index-div, div-le-div, div-length, index_whole,
  place-split, get_elem?-some,
}

-- `count` places of a block, from one on
abbrev pub cells : ℕ → ℕ → ℕ → List (Option (ℕ × ℕ))
cells block offset zero = []
cells block offset (suc n) = some (block, offset) ∷ cells block (offset + 1) n

-- The places of the segments, in the order of the calls
abbrev pub segments_cells : List Segment → List (Option (ℕ × ℕ))
segments_cells [] = []
segments_cells (s ∷ rest) =
    cells s.block s.segment_begin (s.segment_end - s.segment_begin) ++ segments_cells rest

-- The places of `n` elements, one after the other
abbrev pub places : Meta → List ℕ → ℕ → ℕ → List (Option (ℕ × ℕ))
places meta blocks index zero = []
places meta blocks index (suc n) = place meta blocks index ∷ places meta blocks (index + 1) n

places-add :
    (meta : Meta) (blocks : List ℕ) (i m n : ℕ)
    → places meta blocks i (m + n) ≡ places meta blocks i m ++ places meta blocks (i + m) n
places-add meta blocks i zero n =
    ap (places meta blocks i) {x = 0 + n} {y = n} (omega arith)
    ∙ ap (λ t. places meta blocks t n) {x = i} {y = i + 0} (omega arith)
places-add meta blocks i (suc m) n =
    ap (places meta blocks i) {x = suc m + n} {y = suc (m + n)} (omega arith)
    ∙ ap (λ t. place meta blocks i ∷ t) (places-add meta blocks (i + 1) m n)
    ∙ ap (λ t. place meta blocks i ∷ (places meta blocks (i + 1) m ++ places meta blocks t n))
        {x = i + 1 + m} {y = i + suc m} (omega arith)

for_blocks-next :
    (fuel : ℕ) (meta : Meta) (blocks : List ℕ) (i o end_i end_o : ℕ)
    → i ≢ end_i
    → for_blocks (suc fuel) meta blocks i o end_i end_o
      ≡ call
          (get_elem? blocks i)
          o
          (block_size meta)
          (for_blocks fuel meta blocks ((i + 1) % u32_mod) 0 end_i end_o)
for_blocks-next fuel meta blocks i o end_i end_o ne = ground arith

for_blocks-last :
    (fuel : ℕ) (meta : Meta) (blocks : List ℕ) (i o end_i end_o : ℕ)
    → i ≡ end_i
    → o ≢ end_o
    → for_blocks (suc fuel) meta blocks i o end_i end_o
      ≡ call (get_elem? blocks i) o end_o (some [])
for_blocks-last fuel meta blocks i o end_i end_o same ne = ground arith

for_blocks-end :
    (fuel : ℕ) (meta : Meta) (blocks : List ℕ) (i o end_i end_o : ℕ)
    → i ≡ end_i
    → o ≡ end_o
    → for_blocks (suc fuel) meta blocks i o end_i end_o ≡ some []
for_blocks-end fuel meta blocks i o end_i end_o same same_o = ground arith

module _ {k : ℕ} {meta : Meta} (is : IsMeta k meta) (blocks : List ℕ) where
  places-cells :
      (q b r n : ℕ)
      → q < u32_mod
      → get_elem? blocks q ≡ some b
      → r + n ≤ 2 ^ k
      → places meta blocks (q * 2 ^ k + r) n ≡ cells b r n
  places-cells q b r zero few at le = refl
  places-cells q b r (suc n) few at le =
      ap (λ t. t ∷ places meta blocks (q * 2 ^ k + r + 1) n)
        (place-split is blocks q r b (omega (arith, le)) few at)
      ∙ ap (λ t. some (b, r) ∷ places meta blocks t n) {x = q * 2 ^ k + r + 1}
          {y = q * 2 ^ k + (r + 1)} (omega arith)
      ∙ ap (λ t. some (b, r) ∷ t) (places-cells q b (r + 1) n few at (omega (arith, le)))

  below-table : (q y : ℕ) → 0 < y → q * 2 ^ k + y ≤ length blocks * 2 ^ k → q < length blocks
  below-table q y pos le = elim (dec_lt q (length blocks)) [
    | yes lt ↦ lt
    | no ge ↦ absurd (
        omega (
          arith,
          mul-le-mul_right {m = length blocks} {n = q} (2 ^ k) (omega (arith, ge)),
          pos,
          le,
        ))
  ]

  next-row : (q : ℕ) → (q + 1) * 2 ^ k ≡ q * 2 ^ k + 2 ^ k
  next-row q = ap (λ t. t * 2 ^ k) {x = q + 1} {y = suc q} (omega arith) ∙ suc-mul q (2 ^ k)

  -- The rest of a block, and then the elements from the next block on
  row-places :
      (i o c b : ℕ) (rest : List (Option (ℕ × ℕ)))
      → i < u32_mod
      → get_elem? blocks i ≡ some b
      → o < 2 ^ k
      → 2 ^ k ≤ o + c
      → rest ≡ places meta blocks ((i + 1) * 2 ^ k + 0) (c - (2 ^ k - o))
      → cells b o (block_size meta - o) ++ rest ≡ places meta blocks (i * 2 ^ k + o) c
  row-places i o c b rest few at lt le same =
      ap (λ t. cells b o (t - o) ++ rest) (block_size-pow is)
      ∙ ap (λ t. cells b o (2 ^ k - o) ++ t) same
      ∙ ap (λ t. t ++ places meta blocks ((i + 1) * 2 ^ k + 0) (c - (2 ^ k - o)))
          (sym (places-cells i b o (2 ^ k - o) few at (omega (arith, lt))))
      ∙ ap
          (λ t.
            places meta blocks (i * 2 ^ k + o) (2 ^ k - o)
            ++ places meta blocks t (c - (2 ^ k - o)))
          {x = (i + 1) * 2 ^ k + 0} {y = (i * 2 ^ k + o) + (2 ^ k - o)}
          (omega (arith, next-row i, lt))
      ∙ sym (places-add meta blocks (i * 2 ^ k + o) (2 ^ k - o) (c - (2 ^ k - o)))
      ∙ ap (places meta blocks (i * 2 ^ k + o)) {x = (2 ^ k - o) + (c - (2 ^ k - o))} {y = c}
          (omega (arith, le))

  -- The calls from an element on, of which `c` are left
  abbrev Calls : ℕ → ℕ → ℕ → ℕ → ℕ → ℕ → Type 0
  Calls fuel i o end_i end_o c =
      (segments : List Segment) × (for_blocks fuel meta blocks i o end_i end_o ≡ some segments)
      × (segments_cells segments ≡ places meta blocks (i * 2 ^ k + o) c)

  module _ (end_i end_o : ℕ) (end_few : end_i < u32_mod) (end_small : end_o < 2 ^ k)
      (inside : end_i * 2 ^ k + end_o ≤ length blocks * 2 ^ k) where
    Calls-last :
        (fuel i o c : ℕ)
        → i ≡ end_i
        → (i * 2 ^ k + o) + c ≡ end_i * 2 ^ k + end_o
        → Calls (suc fuel) i o end_i end_o c
    Calls-last fuel i o c same whole = elim (ℕ_discrete o end_o) [
      | yes e ↦ (
        [],
        for_blocks-end fuel meta blocks i o end_i end_o same e,
        ap (places meta blocks (i * 2 ^ k + o)) {x = 0} {y = c} (omega (arith, row, e, whole)),
      )
      | no ne ↦
          let (b, at) =
            get_elem?-some blocks i
              (below-table i end_o (omega (arith, ne, row, whole)) (omega (arith, row, inside))) in
          (
            record { block = b; segment_begin = o; segment_end = end_o } ∷ [],
            for_blocks-last fuel meta blocks i o end_i end_o same ne
                ∙ ap (λ t. call t o end_o (some [])) at,
            append-nil (cells b o (end_o - o))
                ∙ sym (
                    places-cells i b o (end_o - o) (omega (arith, same, end_few)) at
                      (omega (arith, end_small, ne, row, whole)))
                ∙ ap (places meta blocks (i * 2 ^ k + o)) {x = end_o - o} {y = c}
                    (omega (arith, row, whole)),
          )
    ]
      where
        row : i * 2 ^ k ≡ end_i * 2 ^ k
        row = ap (λ t. t * 2 ^ k) same

    for_blocks-Calls :
        (fuel n i o c : ℕ)
        → n < fuel
        → i + n ≡ end_i
        → o < 2 ^ k
        → (i * 2 ^ k + o) + c ≡ end_i * 2 ^ k + end_o
        → Calls fuel i o end_i end_o c
    for_blocks-Calls zero n i o c enough far lt whole = absurd (omega (arith, enough))
    for_blocks-Calls (suc fuel) zero i o c enough far lt whole =
        Calls-last fuel i o c (omega (arith, far)) whole
    for_blocks-Calls (suc fuel) (suc n) i o c enough far lt whole =
        let further : suc i * 2 ^ k ≤ end_i * 2 ^ k =
          mul-le-mul_right {m = suc i} {n = end_i} (2 ^ k) (omega (arith, far)) in
        let row = suc-mul i (2 ^ k) in
        let (b, at) =
          get_elem?-some blocks i
            (below-table i (2 ^ k) (positive is) (omega (arith, further, row, inside))) in
        let i_next : (i + 1) % u32_mod ≡ i + 1 = mod-eq_of_lt (omega (arith, far, end_few)) in
        let (rest, calls, same) =
          for_blocks-Calls fuel n (i + 1) 0 (c - (2 ^ k - o)) (omega (arith, enough))
            (omega (arith, far)) (positive is)
            (omega (arith, next-row i, further, row, lt, whole)) in
        (
          record { block = b; segment_begin = o; segment_end = block_size meta } ∷ rest,
          for_blocks-next fuel meta blocks i o end_i end_o (omega (arith, far))
              ∙ ap
                  (λ t.
                    call t o (block_size meta)
                      (for_blocks fuel meta blocks ((i + 1) % u32_mod) 0 end_i end_o))
                  at
              ∙ ap
                  (λ t.
                    call (some b) o (block_size meta) (for_blocks fuel meta blocks t 0 end_i end_o))
                  i_next
              ∙ ap (call (some b) o (block_size meta)) calls,
          row-places i o c b (segments_cells rest) (omega (arith, far, end_few)) at lt
              (omega (arith, further, row, lt, whole)) same,
        )

  -- For a range within a table of fewer than 2^32 blocks, and fuel beyond their number, `for_each` ends,
  -- and the places of its segments, in the order of the calls, are those of the elements of the range,
  -- one after the other.
  pub for_each-places :
      (fuel begin size : ℕ)
      → length blocks < fuel
      → length blocks < u32_mod
      → begin + size ≤ length blocks * 2 ^ k
      → (segments : List Segment) × (for_each fuel meta blocks begin (begin + size) ≡ some segments)
        × (segments_cells segments ≡ places meta blocks begin size)
  for_each-places fuel begin size enough few inside =
      let end = begin + size in
      let end_few : end / 2 ^ k < u32_mod = omega (arith, div-length is blocks end inside, few) in
      let order = div-le-div begin end (2 ^ k) (positive is) (omega arith) in
      let (first, first_small) = index_whole is begin (omega (arith, order, end_few)) in
      let (last, last_small) = index_whole is end end_few in
      let first_index = block_index-div is begin (omega (arith, order, end_few)) in
      let last_index = block_index-div is end end_few in
      let (segments, calls, same) =
        for_blocks-Calls (block_index meta end) (block_offset meta end)
          (omega (arith, last_index, end_few)) last_small (omega (arith, last, inside)) fuel
          (block_index meta end - block_index meta begin) (block_index meta begin)
          (block_offset meta begin) size
          (omega (arith, last_index, div-length is blocks end inside, enough))
          (omega (arith, first_index, last_index, order)) first_small
          (omega (arith, first, last)) in
      (segments, calls, same ∙ ap (λ t. places meta blocks t size) (sym first))
