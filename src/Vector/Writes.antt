-- ===== src/Vector/Writes.antt =====
-- What `copy_n` and `fill_n` write, read back element by element.
use fuxi_n.Prelude.{
  ℕ, zero, suc, ◌+◌, ◌-◌, ◌≤◌, ◌≡◌, ◌≢◌, refl, sym, ap, ◌∙◌, update, update_self, update-ne, Option,
  none, some, List, [], ◌∷◌, ◌++◌, length, length-append, length-take, take, drop, replicate,
  take-replicate, drop-replicate, arith,
}
use native.Mathlib.Decide.{ℕ_discrete}
use fuxi_n.Vector.{Segment, Elements, store, copy, fill, copy_segments, fill_segments}
use fuxi_n.Vector.Segments.{cells, segments_cells}

same_pair : (p q : ℕ × ℕ) → q.0 ≡ p.0 → q.1 ≡ p.1 → p ≡ q
same_pair p q e e' = cc

module _ {A : Type 0} where
  abbrev pub read : Elements A → ℕ × ℕ → A
  read e p = e p.0 p.1

  -- A value for each place, in order
  abbrev pub assign : Elements A → Option (ℕ × ℕ) → A → Elements A
  assign e none v = e
  assign e (some p) v = store e p.0 p.1 v

  abbrev pub assign_each : Elements A → List (Option (ℕ × ℕ)) → List A → Elements A
  assign_each e [] vs = e
  assign_each e (p ∷ ps) [] = e
  assign_each e (p ∷ ps) (v ∷ vs) = assign_each (assign e p v) ps vs

  pub read-store_self : (e : Elements A) (p : ℕ × ℕ) (v : A) → read (store e p.0 p.1 v) p ≡ v
  read-store_self e p v =
      ap (λ f. f p.1) (update_self e p.0 (update (e p.0) p.1 v)) ∙ update_self (e p.0) p.1 v

  pub read-store_ne :
      (e : Elements A) (p q : ℕ × ℕ) (v : A) → p ≢ q → read (store e p.0 p.1 v) q ≡ read e q
  read-store_ne e p q v ne = elim (ℕ_discrete q.0 p.0) [
    | no other ↦ ap (λ f. f q.1) (update-ne e p.0 (update (e p.0) p.1 v) q.0 other)
    | yes same ↦
        let inner : q.1 ≢ p.1 = λ e'. ne (same_pair p q same e') in
        ap (λ t. update e p.0 (update (e p.0) p.1 v) t q.1) same
        ∙ ap (λ f. f q.1) (update_self e p.0 (update (e p.0) p.1 v))
        ∙ update-ne (e p.0) p.1 v q.1 inner
        ∙ ap (λ t. e t q.1) (sym same)
  ]

  copy-assign_each :
      (e : Elements A) (block offset n : ℕ) (vs : List A)
      → length vs ≤ n
      → copy e block offset vs ≡ assign_each e (cells block offset n) vs
  copy-assign_each e block offset zero [] le = refl
  copy-assign_each e block offset zero (v ∷ vs) le = absurd (omega (arith, le))
  copy-assign_each e block offset (suc n) [] le = refl
  copy-assign_each e block offset (suc n) (v ∷ vs) le =
      copy-assign_each (store e block offset v) block (offset + 1) n vs (omega (arith, le))

  assign_each-append :
      (e : Elements A) (ps qs : List (Option (ℕ × ℕ))) (n : ℕ) (vs : List A)
      → length ps ≡ n
      → assign_each e (ps ++ qs) vs ≡ assign_each (assign_each e ps (take n vs)) qs (drop n vs)
  assign_each-append e [] qs zero vs len = refl
  assign_each-append e [] qs (suc n) vs len = absurd (omega (arith, len))
  assign_each-append e (p ∷ ps) qs zero vs len = absurd (omega (arith, len))
  assign_each-append e (p ∷ ps) [] (suc n) [] len = refl
  assign_each-append e (p ∷ ps) (q ∷ qs) (suc n) [] len = refl
  assign_each-append e (p ∷ ps) qs (suc n) (v ∷ vs) len =
      assign_each-append (assign e p v) ps qs n vs (omega (arith, len))

length-cells : (block offset n : ℕ) → length (cells block offset n) ≡ n
length-cells block offset zero = refl
length-cells block offset (suc n) = ap suc (length-cells block (offset + 1) n)

module _ {A : Type 0} where
  pub copy_segments-assign_each :
      (e : Elements A) (segments : List Segment) (vs : List A)
      → copy_segments e segments vs ≡ assign_each e (segments_cells segments) vs
  copy_segments-assign_each e [] vs = refl
  copy_segments-assign_each e (s ∷ rest) vs =
      let n = s.segment_end - s.segment_begin in
      let block = cells s.block s.segment_begin n in
      ap (λ t. copy_segments t rest (drop n vs))
        (copy-assign_each e s.block s.segment_begin n (take n vs) (omega (arith, length-take n vs)))
      ∙ copy_segments-assign_each (assign_each e block (take n vs)) rest (drop n vs)
      ∙ sym (
          assign_each-append e block (segments_cells rest) n vs
            (length-cells s.block s.segment_begin n))

  fill-copy :
      (n : ℕ) (e : Elements A) (block offset : ℕ) (v : A)
      → fill n e block offset v ≡ copy e block offset (replicate n v)
  fill-copy zero e block offset v = refl
  fill-copy (suc n) e block offset v = fill-copy n (store e block offset v) block (offset + 1) v

  pub fill_segments-copy :
      (e : Elements A) (segments : List Segment) (v : A)
      → fill_segments e segments v
        ≡ copy_segments e segments (replicate (length (segments_cells segments)) v)
  fill_segments-copy e [] v = refl
  fill_segments-copy e (s ∷ rest) v =
      let n = s.segment_end - s.segment_begin in
      let m = length (segments_cells rest) in
      let all : length (segments_cells (s ∷ rest)) ≡ n + m =
        length-append (cells s.block s.segment_begin n) (segments_cells rest)
        ∙ ap (λ t. t + m) (length-cells s.block s.segment_begin n) in
      ap (λ t. fill_segments t rest v) (fill-copy n e s.block s.segment_begin v)
      ∙ fill_segments-copy (copy e s.block s.segment_begin (replicate n v)) rest v
      ∙ ap (λ t. copy_segments (copy e s.block s.segment_begin t) rest (replicate m v))
          (sym (take-replicate n m v))
      ∙ ap
          (λ t.
            copy_segments (copy e s.block s.segment_begin (take n (replicate (n + m) v))) rest t)
          (sym (drop-replicate n m v))
      ∙ ap (λ t. copy_segments e (s ∷ rest) (replicate t v)) (sym all)
