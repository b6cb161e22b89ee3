-- ===== src/Vector/Assigns.antt =====
-- What stands at the places of a range of elements after values were assigned to them.
use fuxi_n.Prelude.{
  ℕ, zero, suc, ◌+◌, ◌*◌, ◌/◌, ◌^◌, ◌≤◌, ◌<◌, ◌≡◌, ◌≢◌, ◌⊎◌, inl, inr, refl, sym, ap, ◌∙◌, u32_mod,
  Option, none, some, Option-cases, List, [], ◌∷◌, get_elem?, length, replicate, count, arith,
}
use mathlib.Core.Path.{subst}
use native.Mathlib.Nat.{one-le-pow}
use fuxi_n.Vector.{Meta, place, Elements, Segment, copy_segments, fill_segments, copy_n, fill_n}
use fuxi_n.Vector.Places.{IsMeta, place_unique, div-le-div, div-length}
use fuxi_n.Vector.Segments.{places, segments_cells, for_each-places}
use fuxi_n.Vector.Writes.{
  read, assign, assign_each, read-store_self, read-store_ne, copy_segments-assign_each,
  fill_segments-copy,
}

first-few : (k i n : ℕ) → (i + n) / 2 ^ k < u32_mod → i / 2 ^ k < u32_mod
first-few k i n few =
    omega (arith, few, div-le-div i (i + n) (2 ^ k) (one-le-pow k 2 (omega arith)) (omega arith))

rest-few : (k i n : ℕ) → (i + suc n) / 2 ^ k < u32_mod → (i + 1 + n) / 2 ^ k < u32_mod
rest-few k i n few =
    subst (λ t. t / 2 ^ k < u32_mod) {x = i + suc n} {y = i + 1 + n} (omega arith) few

-- What stands at the places of a range after the values were assigned to them
get_elem?-lt : {A : Type 0} (vs : List A) (d : ℕ) (v : A) → get_elem? vs d ≡ some v → d < length vs
get_elem?-lt [] d v e = absurd (cc e)
get_elem?-lt (w ∷ vs) zero v e = omega arith
get_elem?-lt (w ∷ vs) (suc d) v e = omega (arith, get_elem?-lt vs d v e)

length-places : (meta : Meta) (blocks : List ℕ) (i n : ℕ) → length (places meta blocks i n) ≡ n
length-places meta blocks i zero = refl
length-places meta blocks i (suc n) = ap suc (length-places meta blocks (i + 1) n)

-- The ends of `copy_n` and of `fill_n`
copied : {A : Type 0} → Elements A → List A → Option (List Segment) → Option (Elements A)
copied e vs none = none
copied e vs (some segments) = some (copy_segments e segments vs)

filled : {A : Type 0} → Elements A → A → Option (List Segment) → Option (Elements A)
filled e v none = none
filled e v (some segments) = some (fill_segments e segments v)

module _ {A : Type 0} {k : ℕ} {meta : Meta} (is : IsMeta k meta) (blocks : List ℕ)
    (once : (x : ℕ) → count x blocks ≤ 1) where
  assign_apart :
      (e : Elements A) (i j : ℕ) (v : A) (p : ℕ × ℕ)
      → i / 2 ^ k < u32_mod
      → j / 2 ^ k < u32_mod
      → i ≢ j
      → place meta blocks j ≡ some p
      → read (assign e (place meta blocks i) v) p ≡ read e p
  assign_apart e i j v p i_few j_few ne at = elim (Option-cases (place meta blocks i)) [
    | inl outside ↦ ap (λ o. read (assign e o v) p) outside
    | inr (q, inside) ↦
        ap (λ o. read (assign e o v) p) inside
        ∙ read-store_ne e q p v
            (λ same. ne (place_unique is blocks i j p once i_few j_few (inside ∙ ap some same) at))
  ]

  assign_other :
      (n : ℕ) (e : Elements A) (i j : ℕ) (vs : List A) (p : ℕ × ℕ)
      → (i + n) / 2 ^ k < u32_mod
      → j / 2 ^ k < u32_mod
      → (j < i) ⊎ (i + n ≤ j)
      → place meta blocks j ≡ some p
      → read (assign_each e (places meta blocks i n) vs) p ≡ read e p
  assign_other zero e i j vs p i_few j_few out at = refl
  assign_other (suc n) e i j [] p i_few j_few out at = refl
  assign_other (suc n) e i j (v ∷ vs) p i_few j_few out at =
      assign_other n (assign e (place meta blocks i) v) (i + 1) j vs p (rest-few k i n i_few) j_few
        (elim out [
          | inl before ↦ inl (omega (arith, before))
          | inr behind ↦ inr (omega (arith, behind))
        ])
        at
      ∙ assign_apart e i j v p (first-few k i (suc n) i_few) j_few (λ e'. omega (arith, e', out)) at

  assign_read :
      (n d : ℕ) (e : Elements A) (i : ℕ) (vs : List A) (p : ℕ × ℕ) (v : A)
      → (i + n) / 2 ^ k < u32_mod
      → d < n
      → get_elem? vs d ≡ some v
      → place meta blocks (i + d) ≡ some p
      → read (assign_each e (places meta blocks i n) vs) p ≡ v
  assign_read zero d e i vs p v few lt at_v at = absurd (omega (arith, lt))
  assign_read (suc n) d e i [] p v few lt at_v at = absurd (cc at_v)
  assign_read (suc n) zero e i (w ∷ vs) p v few lt at_v at =
      let here : place meta blocks i ≡ some p =
        ap (place meta blocks) {x = i} {y = i + 0} (omega arith) ∙ at in
      assign_other n (assign e (place meta blocks i) w) (i + 1) i vs p (rest-few k i n few)
        (first-few k i (suc n) few) (inl (omega arith)) here
      ∙ ap (λ o. read (assign e o w) p) here
      ∙ read-store_self e p w
      ∙ cc at_v
  assign_read (suc n) (suc d) e i (w ∷ vs) p v few lt at_v at =
      assign_read n d (assign e (place meta blocks i) w) (i + 1) vs p v (rest-few k i n few)
        (omega (arith, lt)) at_v
        (ap (place meta blocks) {x = i + 1 + d} {y = i + suc d} (omega arith) ∙ at)

  -- `copy_n` to a range within a table of fewer than 2^32 blocks, none of them twice, on fuel beyond their
  -- number: it ends; each place of the range then has the value for it, and the place of any element
  -- outside the range what it had.
  pub copy_n-read :
      (fuel offset : ℕ) (e : Elements A) (vs : List A) (d j : ℕ) (v : A) (p q : ℕ × ℕ)
      → length blocks < fuel
      → length blocks < u32_mod
      → offset + length vs ≤ length blocks * 2 ^ k
      → get_elem? vs d ≡ some v
      → place meta blocks (offset + d) ≡ some p
      → (j < offset) ⊎ (offset + length vs ≤ j)
      → j / 2 ^ k < u32_mod
      → place meta blocks j ≡ some q
      → (e' : Elements A) × (copy_n fuel meta blocks e vs (length vs) offset ≡ some e')
        × (e' p.0 p.1 ≡ v)
        × (e' q.0 q.1 ≡ e q.0 q.1)
  unfolding copied
  copy_n-read fuel offset e vs d j v p q enough few inside at_v at out j_few at_q =
      let (segments, calls, same) =
        for_each-places is blocks fuel offset (length vs) enough few inside in
      let end_few : (offset + length vs) / 2 ^ k < u32_mod =
        omega (arith, div-length is blocks (offset + length vs) inside, few) in
      let written = copy_segments-assign_each e segments vs ∙ ap (λ t. assign_each e t vs) same in
      (
        copy_segments e segments vs,
        ap (copied e vs) calls,
        ap (λ t. read t p) written
            ∙ assign_read (length vs) d e offset vs p v end_few (get_elem?-lt vs d v at_v) at_v at,
        ap (λ t. read t q) written
            ∙ assign_other (length vs) e offset j vs q end_few j_few out at_q,
      )

  -- `fill_n` writes what `copy_n` of as many copies of the value would.
  pub fill_n-copy_n :
      (fuel offset size : ℕ) (e : Elements A) (v : A)
      → length blocks < fuel
      → length blocks < u32_mod
      → offset + size ≤ length blocks * 2 ^ k
      → (e' : Elements A) × (fill_n fuel meta blocks e offset size v ≡ some e')
        × (copy_n fuel meta blocks e (replicate size v) size offset ≡ some e')
  unfolding copied filled
  fill_n-copy_n fuel offset size e v enough few inside =
      let (segments, calls, same) = for_each-places is blocks fuel offset size enough few inside in
      let all : length (segments_cells segments) ≡ size =
        ap length same ∙ length-places meta blocks offset size in
      (
        fill_segments e segments v,
        ap (filled e v) calls,
        ap (copied e (replicate size v)) calls
            ∙ ap some (
                ap (λ t. copy_segments e segments (replicate t v)) (sym all)
                ∙ sym (fill_segments-copy e segments v)),
      )
