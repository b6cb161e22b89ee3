-- ===== src/Counter/Summer.antt =====
-- `ConcurrentSummer`: the sum and the number of what all threads added, which belong together.
use fuxi_n.Prelude.{
  ℕ, zero, suc, ◌+◌, ◌%◌, ◌≤◌, ◌<◌, ◌≡◌, refl, sym, ap, ◌∙◌, Array, update, u64_mod, ==_refl, ==_ne,
  List, [], ◌∷◌, arith,
}
use mathlib.Core.Path.{ap₂}
use native.Mathlib.Decide.{ℕ_discrete}

-- `Summary`: `sum` is a signed word.
pub record Summary : Type 0 where
  pub sum : ℕ
  pub num : ℕ

pub record ConcurrentSummer : Type 0 where
  pub threads : ℕ
  pub storage : Array Summary

-- `_mm_add_epi64` adds the two words of the pair by themselves.
pub plus : Summary → Summary → Summary
plus a b = record { sum = (a.sum + b.sum) % u64_mod; num = (a.num + b.num) % u64_mod }

-- `operator<<(Summary)` by the thread `t`
pub add_summary : ConcurrentSummer → ℕ → Summary → ConcurrentSummer
add_summary c t summary = record c { storage = update c.storage t (plus (c.storage t) summary) }

-- `operator<<(ssize_t)`
pub add : ConcurrentSummer → ℕ → ℕ → ConcurrentSummer
add c t value = add_summary c t (record { sum = value; num = 1 })

-- The loop of `value` over the first threads
pub collect : Array Summary → ℕ → Summary
collect storage zero = record { sum = 0; num = 0 }
collect storage (suc n) = plus (collect storage n) (storage n)

pub value : ConcurrentSummer → Summary
value c = collect c.storage c.threads

-- What the users do, one call after the other
pub data Call : Type 0 where
  adds : ℕ → ℕ → Call
  adds_summary : ℕ → Summary → Call

pub run : ConcurrentSummer → List Call → ConcurrentSummer
run c [] = c
run c (adds t v ∷ cs) = run (add c t v) cs
run c (adds_summary t s ∷ cs) = run (add_summary c t s) cs

-- One pair behind a lock, as the class comment describes it
pub total : Summary → List Call → Summary
total s [] = s
total s (adds t v ∷ cs) =
    total (record { sum = (s.sum + v) % u64_mod; num = (s.num + 1) % u64_mod }) cs
total s (adds_summary t d ∷ cs) =
    total (record { sum = (s.sum + d.sum) % u64_mod; num = (s.num + d.num) % u64_mod }) cs

unfoldable pub AreCallsOf : ℕ → List Call → Type 0
AreCallsOf threads [] = threads ≡ threads
AreCallsOf threads (adds t v ∷ cs) = (t < threads) × AreCallsOf threads cs
AreCallsOf threads (adds_summary t s ∷ cs) = (t < threads) × AreCallsOf threads cs

plus-exchange : (a b s : Summary) → plus a (plus b s) ≡ plus (plus a b) s
unfolding plus
plus-exchange a b s = ap₂ (λ x y. record { sum = x; num = y }) (omega arith) (omega arith)

plus-swap : (a b s : Summary) → plus (plus a s) b ≡ plus (plus a b) s
unfolding plus
plus-swap a b s = ap₂ (λ x y. record { sum = x; num = y }) (omega arith) (omega arith)

collect-beyond :
    (a : Array Summary) (t : ℕ) (x : Summary) (n : ℕ)
    → n ≤ t
    → collect (update a t x) n ≡ collect a n
unfolding collect
collect-beyond a t x zero h = refl
collect-beyond a t x (suc n) h =
    ap₂ plus (collect-beyond a t x n (omega arith))
      (rw (==_ne n t (λ e. absurd (omega (arith, e)))) refl)

collect-update :
    (a : Array Summary) (t : ℕ) (s : Summary) (n : ℕ)
    → t < n
    → collect (update a t (plus (a t) s)) n ≡ plus (collect a n) s
unfolding collect
collect-update a t s zero h = absurd (omega arith)
collect-update a t s (suc n) h = elim (ℕ_discrete n t) [
  | yes same ↦
      ap₂ plus (collect-beyond a t (plus (a t) s) n (omega (arith, same)))
        (rw (same, ==_refl t) refl)
      ∙ plus-exchange (collect a n) (a t) s
      ∙ ap (λ i. plus (plus (collect a n) (a i)) s) (sym same)
  | no other ↦
      ap₂ plus (collect-update a t s n (omega (arith, other))) (rw (==_ne n t other) refl)
      ∙ plus-swap (collect a n) (a n) s
]

-- After any sequence of additions by the threads, `value` returns the pair that one shared pair
-- of words holds which every call updates.
pub value-run_summer :
    (c : ConcurrentSummer) (cs : List Call)
    → AreCallsOf c.threads cs
    → value (run c cs) ≡ total (value c) cs
unfolding run total AreCallsOf add add_summary value plus
value-run_summer c [] h = refl
value-run_summer c (adds t v ∷ cs) (lt, h) =
    value-run_summer (add c t v) cs h
    ∙ ap (λ n. total n cs) (collect-update c.storage t (record { sum = v; num = 1 }) c.threads lt)
value-run_summer c (adds_summary t s ∷ cs) (lt, h) =
    value-run_summer (add_summary c t s) cs h
    ∙ ap (λ n. total n cs) (collect-update c.storage t s c.threads lt)
