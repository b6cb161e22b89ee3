-- ===== src/Counter/Maxer.antt =====
-- `ConcurrentMaxer`: its value is the greatest of what all threads recorded since the last reset.
use fuxi_n.Prelude.{
  ℕ, zero, suc, ◌+◌, ◌-◌, ◌%◌, ◌^◌, ◌≤◌, ◌<◌, ◌≢◌, ◌≡◌, refl, sym, ap, ◌∙◌, Bool, true, false,
  Array, update, u64_mod, ltb, ◌==◌, if◌then◌else◌, List, [], ◌∷◌, arith, max, ◌⊎◌,
}
use mathlib.Core.Path.{ap₂}
use native.Mathlib.Decide.{ℕ_discrete}

-- `Slot`
pub record Slot : Type 0 where
  pub version : ℕ
  pub value : ℕ

pub record ConcurrentMaxer : Type 0 where
  pub threads : ℕ
  pub storage : Array Slot
  pub version : ℕ

-- The order of signed words is that of these numbers.
abbrev pub rank : ℕ → ℕ
rank word = (word + 2 ^ 63) % u64_mod

-- SSIZE_MIN
abbrev pub ssize_min : ℕ
ssize_min = 2 ^ 63

-- `operator<<` by the thread `t`
pub record_value : ConcurrentMaxer → ℕ → ℕ → ConcurrentMaxer
record_value c t value =
    let local : Slot = c.storage t in
    if c.version == local.version
    then (if ltb (rank local.value) (rank value)
        then record c { storage = update c.storage t (record local { value = value }) }
        else c)
    else record c { storage = update c.storage t (record { version = c.version; value = value }) }

-- The loop of `value` over the first threads: `has_result` and `result`
pub scan : ℕ → Array Slot → ℕ → Bool × ℕ
scan version storage zero = (false, ssize_min)
scan version storage (suc n) =
    let (has_result, result) = scan version storage n in
    let slot : Slot = storage n in
    if slot.version == version
    then (if ltb (rank result) (rank slot.value) then (true, slot.value) else (has_result, result))
    else (has_result, result)

-- `bool value(ssize_t&)`: the result, and `max_value` after the call
pub try_value : ConcurrentMaxer → ℕ → Bool × ℕ
try_value c max_value =
    let (has_result, result) = scan c.version c.storage c.threads in
    if has_result then (true, result) else (false, max_value)

-- `ssize_t value()`
pub value : ConcurrentMaxer → ℕ
value c = (try_value c 0).1

pub reset : ConcurrentMaxer → ConcurrentMaxer
reset c = record c { version = (c.version + 1) % u64_mod }

-- What the users do, one call after the other
pub data Call : Type 0 where
  records : ℕ → ℕ → Call
  resets : Call

pub run : ConcurrentMaxer → List Call → ConcurrentMaxer
run c [] = c
run c (records t v ∷ cs) = run (record_value c t v) cs
run c (resets ∷ cs) = run (reset c) cs

-- The rank of the greatest value of the last period, from the rank `best` on; 0 is that of SSIZE_MIN.
pub best_rank : ℕ → List Call → ℕ
best_rank best [] = best
best_rank best (records t v ∷ cs) = best_rank (max best (rank v)) cs
best_rank best (resets ∷ cs) = best_rank 0 cs

-- Every value is recorded by one of the threads, and the resets do not bring the version round.
unfoldable pub AreCallsOf : ℕ → ℕ → List Call → Type 0
AreCallsOf threads version [] = version < u64_mod - 1
AreCallsOf threads version (records t v ∷ cs) = (t < threads) × AreCallsOf threads version cs
AreCallsOf threads version (resets ∷ cs) =
    (version + 1 < u64_mod - 1) × AreCallsOf threads (version + 1) cs

-- No slot is of a period to come: new slots have the version SIZE_MAX.
unfoldable pub IsPast : ConcurrentMaxer → Type 0
IsPast c = (t : ℕ) → ((c.storage t).version ≤ c.version) ⊎ ((c.storage t).version ≡ u64_mod - 1)

slot_rank : ℕ → Slot → ℕ
slot_rank version s = if s.version == version then rank s.value else 0

pub scan_rank : ℕ → Array Slot → ℕ → ℕ
scan_rank version a n = rank (scan version a n).1

scan_rank-suc :
    (version : ℕ) (a : Array Slot) (n : ℕ)
    → scan_rank version a (suc n) ≡ max (scan_rank version a n) (slot_rank version (a n))
unfolding scan_rank slot_rank scan
scan_rank-suc version a n = ground arith

scan_rank-beyond :
    (version : ℕ) (a b : Array Slot) (t n : ℕ)
    → n ≤ t
    → ((j : ℕ) → j ≢ t → b j ≡ a j)
    → scan_rank version b n ≡ scan_rank version a n
unfolding scan_rank scan
scan_rank-beyond version a b t zero h same = refl
scan_rank-beyond version a b t (suc n) h same =
    scan_rank-suc version b n
    ∙ ap₂ (λ p s. max p (slot_rank version s)) (scan_rank-beyond version a b t n (omega arith) same)
        (same n (omega arith))
    ∙ sym (scan_rank-suc version a n)

scan_rank-update :
    (version : ℕ) (a b : Array Slot) (t k n : ℕ)
    → t < n
    → ((j : ℕ) → j ≢ t → b j ≡ a j)
    → slot_rank version (b t) ≡ max (slot_rank version (a t)) k
    → scan_rank version b n ≡ max (scan_rank version a n) k
scan_rank-update version a b t k zero h same at = absurd (omega arith)
scan_rank-update version a b t k (suc n) h same at = elim (ℕ_discrete t n) [
  | yes e ↦ omega (
    arith,
    scan_rank-suc version a n,
    scan_rank-suc version b n,
    scan_rank-beyond version a b t n (omega (arith, e)) same,
    at,
    ap (λ i. slot_rank version (a i)) e,
    ap (λ i. slot_rank version (b i)) e,
  )
  | no other ↦ omega (
    arith,
    scan_rank-suc version a n,
    scan_rank-suc version b n,
    scan_rank-update version a b t k n (omega (arith, other)) same at,
    ap (slot_rank version) (same n (λ e. other (sym e))),
  )
]

record_value-version : (c : ConcurrentMaxer) (t v : ℕ) → (record_value c t v).version ≡ c.version
unfolding record_value
record_value-version c t v = ground arith

record_value-threads : (c : ConcurrentMaxer) (t v : ℕ) → (record_value c t v).threads ≡ c.threads
unfolding record_value
record_value-threads c t v = ground arith

record_value-other :
    (c : ConcurrentMaxer) (t v j : ℕ) → j ≢ t → (record_value c t v).storage j ≡ c.storage j
unfolding record_value
record_value-other c t v j ne = ground (arith, ne)

record_value-own :
    (c : ConcurrentMaxer) (t v : ℕ)
    → slot_rank c.version ((record_value c t v).storage t)
      ≡ max (slot_rank c.version (c.storage t)) (rank v)
unfolding record_value slot_rank
record_value-own c t v = ground arith

record_value-IsPast : (c : ConcurrentMaxer) (t v : ℕ) → IsPast c → IsPast (record_value c t v)
unfolding record_value IsPast
record_value-IsPast c t v past j = ground (arith, past j)

-- The rank of what a counter shows
pub best_of : ConcurrentMaxer → ℕ
best_of c = scan_rank c.version c.storage c.threads

best_of-record_value :
    (c : ConcurrentMaxer) (t v : ℕ)
    → t < c.threads
    → best_of (record_value c t v) ≡ max (best_of c) (rank v)
unfolding best_of
best_of-record_value c t v h =
    ap₂ (λ ver n. scan_rank ver (record_value c t v).storage n) (record_value-version c t v)
      (record_value-threads c t v)
    ∙ scan_rank-update c.version c.storage (record_value c t v).storage t (rank v) c.threads h
        (λ j ne. record_value-other c t v j ne) (record_value-own c t v)

scan_rank-none :
    (version : ℕ) (a : Array Slot) (n : ℕ)
    → ((t : ℕ) → (a t).version ≢ version)
    → scan_rank version a n ≡ 0
unfolding scan_rank scan
scan_rank-none version a zero none_of = refl
scan_rank-none version a (suc n) none_of =
    ground (arith, scan_rank-none version a n none_of, none_of n)

best_of-reset :
    (c : ConcurrentMaxer) → IsPast c → c.version + 1 < u64_mod - 1 → best_of (reset c) ≡ 0
unfolding best_of reset IsPast
best_of-reset c past h =
    scan_rank-none ((c.version + 1) % u64_mod) c.storage c.threads (λ t. ground (arith, past t))

reset-IsPast : (c : ConcurrentMaxer) → IsPast c → c.version + 1 < u64_mod - 1 → IsPast (reset c)
unfolding reset IsPast
reset-IsPast c past h t = ground (arith, past t)

run-best_rank :
    (c : ConcurrentMaxer) (cs : List Call)
    → IsPast c
    → AreCallsOf c.threads c.version cs
    → best_of (run c cs) ≡ best_rank (best_of c) cs
unfolding run best_rank AreCallsOf reset
run-best_rank c [] past h = refl
run-best_rank c (records t v ∷ cs) past (lt, h) =
    run-best_rank (record_value c t v) cs (record_value-IsPast c t v past)
      (rw (record_value-threads c t v, record_value-version c t v) h)
    ∙ ap (λ b. best_rank b cs) (best_of-record_value c t v lt)
run-best_rank c (resets ∷ cs) past (lt, h) =
    run-best_rank (reset c) cs (reset-IsPast c past lt) (rw next h)
    ∙ ap (λ b. best_rank b cs) (best_of-reset c past lt)
  where
    next : (c.version + 1) % u64_mod ≡ c.version + 1
    next = omega (arith, lt)

scan-has_result :
    (version : ℕ) (a : Array Slot) (n : ℕ) → (scan version a n).0 ≡ ltb 0 (scan_rank version a n)
unfolding scan scan_rank
scan-has_result version a zero = refl
scan-has_result version a (suc n) = ground (arith, scan-has_result version a n)

scan_rank-def :
    (c : ConcurrentMaxer)
    → scan_rank c.version c.storage c.threads ≡ rank (scan c.version c.storage c.threads).1
unfolding scan_rank
scan_rank-def c = refl

-- After any sequence of values recorded by the threads and of resets, too few to bring the
-- version round to SIZE_MAX, on a counter none of whose slots is of a period to come, `value`
-- returns the greatest signed word of the last period, where that is not SSIZE_MIN; else it
-- returns `false` and leaves `max_value`.
pub try_value-run :
    (c : ConcurrentMaxer) (cs : List Call) (max_value : ℕ)
    → IsPast c
    → AreCallsOf c.threads c.version cs
    → let (has_result, result) = try_value (run c cs) max_value in
      let best = best_rank (best_of c) cs in
      (has_result ≡ ltb 0 best)
      × (rank result ≡ (if has_result then best else rank max_value))
      × (result ≡ (if has_result then result else max_value))
unfolding try_value best_of
try_value-run c cs max_value past h = ground (
  arith,
  run-best_rank c cs past h,
  scan-has_result (run c cs).version (run c cs).storage (run c cs).threads,
  scan_rank-def (run c cs),
)
