-- ===== src/Memory/Batch/Slots.antt =====
-- The pages that wait in the slots of the threads.
use fuxi_n.Prelude.{
  ℕ, zero, suc, ◌+◌, ◌≤◌, ◌<◌, ◌≡◌, refl, some, List, [], ◌∷◌, length, length-replicate, drop,
  replicate, count, tally, arith,
}
use fuxi_n.Memory.Pages.{first}
use fuxi_n.Memory.Batch.{Slot, new_slot, local, put, remaining}

unfoldable pub kept : List Slot → ℕ → ℕ
kept [] p = 0
kept (x ∷ xs) p = count p (remaining x) + kept xs p

-- The buffer of every slot has the size of a batch.
unfoldable pub AreSlots : ℕ → List Slot → Type 0
AreSlots n [] = Unit
AreSlots n (x ∷ xs) = (length x.buffer ≡ n) × AreSlots n xs

pub count-drop_all : (p n : ℕ) (xs : List ℕ) → length xs ≤ n → count p (drop n xs) ≡ 0
count-drop_all p zero [] h = refl
count-drop_all p (suc n) [] h = refl
count-drop_all p zero (x ∷ xs) h = absurd (omega (arith, h))
count-drop_all p (suc n) (x ∷ xs) h = count-drop_all p n xs (omega (arith, h))

-- The next page of a batch that is not used up
pub first-drop :
    (n : ℕ) (xs : List ℕ)
    → n < length xs
    → (page : ℕ) × (first (drop n xs) ≡ some page)
      × ((p : ℕ) → count p (drop n xs) ≡ tally p page + count p (drop (suc n) xs))
first-drop n [] h = absurd (omega (arith, h))
first-drop zero (x ∷ xs) h = (x, refl, λ p. refl)
first-drop (suc n) (x ∷ xs) h = first-drop n xs (omega (arith, h))

pub length-local : (n t : ℕ) (cs : List Slot) → AreSlots n cs → length (local n t cs).buffer ≡ n
unfolding local AreSlots
length-local n zero [] s = length-replicate n 0
length-local n (suc t) [] s = length-local n t [] s
length-local n zero (x ∷ xs) (e, s) = e
length-local n (suc t) (x ∷ xs) (e, s) = length-local n t xs s

pub put-AreSlots :
    (n t : ℕ) (y : Slot) (cs : List Slot)
    → length y.buffer ≡ n
    → AreSlots n cs
    → AreSlots n (put n t y cs)
unfolding put AreSlots
put-AreSlots n zero y [] h s = (h, s)
put-AreSlots n (suc t) y [] h s = (length-replicate n 0, put-AreSlots n t y [] h s)
put-AreSlots n zero y (x ∷ xs) h (e, s) = (h, s)
put-AreSlots n (suc t) y (x ∷ xs) h (e, s) = (e, put-AreSlots n t y xs h s)

count-new_slot : (p n : ℕ) → count p (remaining (new_slot n)) ≡ 0
count-new_slot p n =
    count-drop_all p n (replicate n 0) (omega (arith, length-replicate {A = ℕ} n 0))

pub kept-put :
    (p n t : ℕ) (y : Slot) (cs : List Slot)
    → kept (put n t y cs) p + count p (remaining (local n t cs)) ≡ kept cs p + count p (remaining y)
unfolding kept put local
kept-put p n zero y [] = omega (arith, count-new_slot p n)
kept-put p n (suc t) y [] = omega (arith, count-new_slot p n, kept-put p n t y [])
kept-put p n zero y (x ∷ xs) = omega arith
kept-put p n (suc t) y (x ∷ xs) = omega (arith, kept-put p n t y xs)
