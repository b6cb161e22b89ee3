-- ===== src/Vector/Addresses.antt =====
-- The elements of a `ConcurrentVector` that threads grow: they do not move, and none is shared.
use fuxi_n.Prelude.{
  ℕ, zero, suc, ◌+◌, ◌/◌, ◌%◌, ◌^◌, ◌≤◌, ◌<◌, ◌≡◌, sym, ap, ◌∙◌, u32_mod, some, List, [], ◌∷◌, ◌++◌,
  get_elem?, count, count-get_elem?, Prefix, arith,
}
use fuxi_n.Vector.{Meta, block_index, block_offset, within, place, ensure_block_num}
use fuxi_n.Vector.Places.{IsMeta, place_unique, ensure-place, within-some}
use fuxi_n.Vector.Growth.{block_table, returning, System, Run, new_vector}
use fuxi_n.Vector.Growth.Defs.{given}
use fuxi_n.Vector.Growth.Invariant.{Run-Inv, reached-Inv}
use fuxi_n.Vector.Growth.Safety.{returned-Prefix}

get_elem?-Prefix :
    (xs ys : List ℕ) (i b : ℕ) → Prefix xs ys → get_elem? xs i ≡ some b → get_elem? ys i ≡ some b
get_elem?-Prefix xs ys i b (zs, e) at = ap (λ t. get_elem? t i) e ∙ in_front xs zs i at
  where
    in_front : (xs zs : List ℕ) (i : ℕ) → get_elem? xs i ≡ some b → get_elem? (xs ++ zs) i ≡ some b
    in_front [] zs i at = absurd (cc at)
    in_front (x ∷ xs) zs zero at = at
    in_front (x ∷ xs) zs (suc i) at = in_front xs zs i at

place-Prefix :
    (meta : Meta) (xs ys : List ℕ) (i : ℕ) (p : ℕ × ℕ)
    → Prefix xs ys
    → place meta xs i ≡ some p
    → place meta ys i ≡ some p
place-Prefix meta xs ys i p pre at =
    let (block, offset) = within-some _ _ p at in
    ap (λ t. within t (block_offset meta i))
      (get_elem?-Prefix xs ys (block_index meta i) p.0 pre block)
    ∙ ap (λ t. some (p.0, t)) offset

given-le : (next x : ℕ) → given next x ≤ 1
given-le next x = ground arith

-- A call returned a table for at least as many blocks as `ensure` of an index asks for, the index lying in
-- one of fewer than 2^32 blocks: at any later time the table of the call and the vector's own have the
-- element at the place that it had, and its block was not deleted.
pub place_kept :
    (n a k expect table index : ℕ) (meta : Meta) {s u : System}
    → IsMeta k meta
    → index / 2 ^ k + 1 < u32_mod
    → ensure_block_num meta index ≤ expect
    → Run n new_vector s
    → s.pc a ≡ returning expect table
    → Run n s u
    → (p : ℕ × ℕ) × (place meta (s.mem.blocks table) index ≡ some p)
      × (place meta (u.mem.blocks table) index ≡ some p)
      × (place meta (block_table u.mem) index ≡ some p)
      × (count p.0 u.mem.deleted ≡ 0)
place_kept n a k expect table index meta {s} {u} is few asked reached at run =
    let (enough, same, pre) = returned-Prefix n a expect table reached at run in
    let inv = Run-Inv (reached-Inv reached) run in
    let (b, there) =
      ensure-place is (u.mem.blocks table) index few (omega (arith, asked, enough)) in
    let current =
      place-Prefix meta (u.mem.blocks table) (block_table u.mem) index (b, index % 2 ^ k) pre
        there in
    (
      (b, index % 2 ^ k),
      ap (λ t. place meta t index) (sym same) ∙ there,
      there,
      current,
      omega (
        arith,
        inv.conserved b,
        given-le u.mem.next_block b,
        count-get_elem? b (block_table u.mem) (block_index meta index)
            (within-some _ _ (b, index % 2 ^ k) current).0,
      ),
    )

-- No two elements of a vector that threads grew share a place, for indexes in blocks below 2^32.
pub element_unique :
    (n k i j : ℕ) (p : ℕ × ℕ) (meta : Meta) {s : System}
    → IsMeta k meta
    → Run n new_vector s
    → i / 2 ^ k < u32_mod
    → j / 2 ^ k < u32_mod
    → place meta (block_table s.mem) i ≡ some p
    → place meta (block_table s.mem) j ≡ some p
    → i ≡ j
element_unique n k i j p meta {s} is reached i_few j_few at_i at_j =
    let inv = reached-Inv reached in
    place_unique is (block_table s.mem) i j p
      (λ x. omega (arith, inv.conserved x, given-le s.mem.next_block x)) i_few j_few at_i at_j
