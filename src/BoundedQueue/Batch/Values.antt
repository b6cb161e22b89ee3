-- ===== src/BoundedQueue/Batch/Values.antt =====
-- What the copies of a batch read and write.
use fuxi_n.Prelude.{
  ℕ, zero, suc, ◌+◌, ◌^◌, ◌≤◌, ◌<◌, ◌≡◌, refl, sym, ap, ◌∙◌, Array, update, update_self, update-ne,
  List, [], ◌∷◌, ◌++◌, length, arith,
}
use mathlib.Core.Path.{ap₂, subst}
use mathlib.Core.List.{append_assoc, append-nil}
use fuxi_n.BoundedQueue.{slot_index}
use fuxi_n.BoundedQueue.Batch.{copy_in, copy_out}
use fuxi_n.BoundedQueue.Batch.Contents.{
  InRound, InRound-head, InRound-tail, values_of, window-injective,
}

module _ {A : Type 0} (bits : ℕ) where
  pub length-values_of : (value : Array A) (t n : ℕ) → length (values_of bits value t n) ≡ n
  length-values_of value t zero = refl
  length-values_of value t (suc n) = ap suc (length-values_of value (suc t) n)

  pub values_of-append :
      (value : Array A) (t a b : ℕ)
      → values_of bits value t (a + b) ≡ values_of bits value t a ++ values_of bits value (t + a) b
  values_of-append value t zero b =
      ap₂ (λ u v. values_of bits value u v) {x = t} {y = t + 0} {u = 0 + b} {v = b} (omega arith)
        (omega arith)
  values_of-append value t (suc a) b =
      ap (λ n. values_of bits value t n) {x = suc a + b} {y = suc (a + b)} (omega arith)
      ∙ ap (λ r. value (slot_index bits t) ∷ r) (values_of-append value (suc t) a b)
      ∙ ap (λ u. values_of bits value t (suc a) ++ values_of bits value u b) {x = suc t + a}
          {y = t + suc a} (omega arith)

  pub copy_out-values :
      (value : Array A) (num t s e : ℕ)
      → InRound bits t num s e
      → copy_out value s num ≡ values_of bits value t num
  copy_out-values value zero t s e h = refl
  copy_out-values value (suc num) t s e h =
      ap₂ ◌∷◌ (ap value (sym (InRound-head bits t num s e h).0))
        (copy_out-values value num (suc t) (suc s) e (InRound-tail bits t num s e h))

  -- A write past the elements does not change them.
  values_of-update :
      (value : Array A) (x : A) (i : ℕ) (n t : ℕ)
      → t + n ≤ i
      → i < t + 2 ^ bits
      → values_of bits (update value (slot_index bits i) x) t n ≡ values_of bits value t n
  values_of-update value x i zero t le lt = refl
  values_of-update value x i (suc n) t le lt =
      ap₂ ◌∷◌
        (update-ne value (slot_index bits i) x (slot_index bits t)
          (λ e. omega (arith, window-injective bits t i e (omega (arith, le)) lt, le)))
        (values_of-update value x i n (suc t) (omega (arith, le)) (omega (arith, lt)))

  values_of-snoc :
      (value : Array A) (x : A) (t n : ℕ)
      → n < 2 ^ bits
      → values_of bits (update value (slot_index bits (t + n)) x) t (suc n)
        ≡ values_of bits value t n ++ (x ∷ [])
  values_of-snoc value x t n lt =
      let written = update value (slot_index bits (t + n)) x in
      ap (values_of bits written t) {x = suc n} {y = n + 1} (omega arith)
      ∙ values_of-append written t n 1
      ∙ ap₂ ◌++◌ (values_of-update value x (t + n) n t (omega arith) (omega (arith, lt)))
          (ap (λ v. v ∷ []) (update_self value (slot_index bits (t + n)) x))

  pub copy_in-values :
      (xs : List A) (value : Array A) (t n s e : ℕ)
      → n + length xs ≤ 2 ^ bits
      → InRound bits (t + n) (length xs) s e
      → values_of bits (copy_in value s xs) t (n + length xs) ≡ values_of bits value t n ++ xs
  copy_in-values [] value t n s e le h =
      ap (values_of bits value t) {x = n + 0} {y = n} (omega arith)
      ∙ sym (append-nil (values_of bits value t n))
  copy_in-values (x ∷ xs) value t n s e le h =
      let (slots, epochs) = InRound-head bits (t + n) (length xs) s e h in
      let tail : InRound bits (t + suc n) (length xs) (suc s) e =
        subst (λ u. InRound bits u (length xs) (suc s) e) {x = suc (t + n)} {y = t + suc n}
          (omega arith) (InRound-tail bits (t + n) (length xs) s e h) in
      let last : values_of bits (update value s x) t (suc n)
          ≡ values_of bits value t n ++ (x ∷ []) =
        subst
          (λ u. values_of bits (update value u x) t (suc n) ≡ values_of bits value t n ++ (x ∷ []))
          slots (values_of-snoc value x t n (omega (arith, le))) in
      ap (values_of bits (copy_in value s (x ∷ xs)) t) {x = n + suc (length xs)}
        {y = suc n + length xs} (omega arith)
      ∙ copy_in-values xs (update value s x) t (suc n) (suc s) e (omega (arith, le)) tail
      ∙ ap (λ ys. ys ++ xs) last
      ∙ append_assoc (values_of bits value t n) (x ∷ []) xs
