-- ===== src/Prelude/Ids.antt =====
-- Lists of ids up to their order, as a free list and its users share them.
use Prim.Native.Nat.{ℕ, zero, suc, ◌+◌, ◌≤◌, ◌<◌}
use mathlib.Core.Path.{◌≡◌, refl, sym, ap, ◌∙◌}
use mathlib.Core.Logic.Or
use mathlib.Core.Option.{some}
use mathlib.Core.HLevel.{×_prop}
use mathlib.Core.List
use mathlib.Core.List.{
  List, [], ◌∷◌, ◌++◌, Mem, Nodup, Perm, mem-cons, not-mem-nil, Nodup-cons, Nodup-nil,
}
use mathlib.Core.List.Perm
use native.Mathlib.Bridge.{from_ℕ, le_prop}
use native.Mathlib.Omega.{arith}
use fuxi_n.Prelude.Lists.{length, get_elem?}

module _ {ℓ} {A : Type ℓ} where
  -- The list without the entry at an index; past the end it is unchanged.
  abbrev pub remove_at : List A → ℕ → List A
  remove_at [] i = []
  remove_at (x ∷ xs) zero = xs
  remove_at (x ∷ xs) (suc i) = x ∷ remove_at xs i

  pub remove_at-perm :
      (xs : List A) (i : ℕ) (x : A) → get_elem? xs i ≡ some x → Perm xs (x ∷ remove_at xs i)
  remove_at-perm [] i x e = cc
  remove_at-perm (y ∷ xs) zero x e = Perm.cons' (ground arith) Perm.rfl
  remove_at-perm (y ∷ xs) (suc i) x e =
      Perm.trans (Perm.cons y (remove_at-perm xs i x e)) (Perm.swap x y (remove_at xs i))

  length-from_ℕ : (xs : List A) → length xs ≡ from_ℕ (List.length xs)
  length-from_ℕ [] = refl
  length-from_ℕ (x ∷ xs) = ap suc (length-from_ℕ xs)

  pub length-perm : {xs ys : List A} → Perm xs ys → length xs ≡ length ys
  length-perm {xs} {ys} p = length-from_ℕ xs ∙ ap from_ℕ (Perm.length-eq p) ∙ sym (length-from_ℕ ys)

-- `s` to `s + n - 1`
abbrev pub ids_from : ℕ → ℕ → List ℕ
ids_from s zero = []
ids_from s (suc n) = s ∷ ids_from (s + 1) n

pub length-ids_from : (s n : ℕ) → length (ids_from s n) ≡ n
length-ids_from s zero = refl
length-ids_from s (suc n) = ap suc (length-ids_from (s + 1) n)

pub mem-ids_from : (s n i : ℕ) → Mem i (ids_from s n) → (s ≤ i) × (i < s + n)
mem-ids_from s zero i m = absurd (not-mem-nil m)
mem-ids_from s (suc n) i m =
    Or.elim (×_prop le_prop le_prop) (mem-cons.0 m) (λ e. omega arith)
      λ later. omega (arith, mem-ids_from (s + 1) n i later)

pub Nodup-ids_from : (s n : ℕ) → Nodup (ids_from s n)
Nodup-ids_from s zero = Nodup-nil
Nodup-ids_from s (suc n) =
    Nodup-cons.1
      ((λ m. absurd (omega (arith, mem-ids_from (s + 1) n s m))), Nodup-ids_from (s + 1) n)
