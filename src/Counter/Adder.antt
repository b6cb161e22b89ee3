-- ===== src/Counter/Adder.antt =====
-- `ConcurrentAdder`: its value is the sum of what all threads added.
use fuxi_n.Prelude.{
  ℕ, zero, suc, ◌+◌, ◌%◌, ◌≤◌, ◌<◌, ◌≡◌, refl, ap, ◌∙◌, Array, update, u64_mod, ltb, if◌then◌else◌,
  List, [], ◌∷◌, arith,
}
use native.Mathlib.Decide.{ℕ_discrete}

pub record ConcurrentAdder : Type 0 where
  pub threads : ℕ
  pub storage : Array ℕ

-- `operator<<` by the thread `t`
pub add : ConcurrentAdder → ℕ → ℕ → ConcurrentAdder
add c t value = record c { storage = update c.storage t ((c.storage t + value) % u64_mod) }

-- The loop of `value` over the first threads
pub sum : Array ℕ → ℕ → ℕ
sum storage zero = 0
sum storage (suc n) = (sum storage n + storage n) % u64_mod

pub value : ConcurrentAdder → ℕ
value c = sum c.storage c.threads

pub reset : ConcurrentAdder → ConcurrentAdder
reset c = record c { storage = λ (t : ℕ). if ltb t c.threads then 0 else c.storage t }

-- What the users do, one call after the other
pub data Call : Type 0 where
  adds : ℕ → ℕ → Call
  resets : Call

pub run : ConcurrentAdder → List Call → ConcurrentAdder
run c [] = c
run c (adds t v ∷ cs) = run (add c t v) cs
run c (resets ∷ cs) = run (reset c) cs

-- One counter that all threads share, as the class comment describes it
pub total : ℕ → List Call → ℕ
total n [] = n
total n (adds t v ∷ cs) = total ((n + v) % u64_mod) cs
total n (resets ∷ cs) = total 0 cs

-- Every addition is made by one of the threads.
unfoldable pub AreCallsOf : ℕ → List Call → Type 0
AreCallsOf threads [] = threads ≡ threads
AreCallsOf threads (adds t v ∷ cs) = (t < threads) × AreCallsOf threads cs
AreCallsOf threads (resets ∷ cs) = AreCallsOf threads cs

sum-word : (a : Array ℕ) (n : ℕ) → sum a n < u64_mod
unfolding sum
sum-word a zero = omega arith
sum-word a (suc n) = omega arith

sum-beyond : (a : Array ℕ) (t x n : ℕ) → n ≤ t → sum (update a t x) n ≡ sum a n
unfolding sum
sum-beyond a t x zero h = refl
sum-beyond a t x (suc n) h = rw (sum-beyond a t x n (omega arith)) (ground arith)

pub sum-update :
    (a : Array ℕ) (t v n : ℕ)
    → t < n
    → sum (update a t ((a t + v) % u64_mod)) n ≡ (sum a n + v) % u64_mod
unfolding sum
sum-update a t v zero h = absurd (omega arith)
sum-update a t v (suc n) h = elim (ℕ_discrete t n) [
  | yes same ↦ ground (arith, same, sum-beyond a t ((a t + v) % u64_mod) n (omega (arith, same)))
  | no other ↦ rw (sum-update a t v n (omega arith)) (ground (arith, other))
]

sum-zero : (a : Array ℕ) (m n : ℕ) → n ≤ m → sum (λ t. if ltb t m then 0 else a t) n ≡ 0
unfolding sum
sum-zero a m zero h = refl
sum-zero a m (suc n) h = rw (sum-zero a m n (omega arith)) (ground arith)

value-add :
    (c : ConcurrentAdder) (t v : ℕ) → t < c.threads → value (add c t v) ≡ (value c + v) % u64_mod
unfolding value add
value-add c t v h = sum-update c.storage t v c.threads h

value-reset : (c : ConcurrentAdder) → value (reset c) ≡ 0
unfolding value reset
value-reset c = sum-zero c.storage c.threads c.threads (omega arith)

-- After any sequence of additions by the threads and of resets, `value` is that of one shared counter
-- of 64 bits that every call updates.
pub value-run_adder :
    (c : ConcurrentAdder) (cs : List Call)
    → AreCallsOf c.threads cs
    → value (run c cs) ≡ total (value c) cs
unfolding run total AreCallsOf add reset
value-run_adder c [] h = refl
value-run_adder c (adds t v ∷ cs) (lt, h) =
    value-run_adder (add c t v) cs h ∙ ap (λ n. total n cs) (value-add c t v lt)
value-run_adder c (resets ∷ cs) h =
    value-run_adder (reset c) cs h ∙ ap (λ n. total n cs) (value-reset c)
