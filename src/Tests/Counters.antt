-- ===== src/Tests/Counters.antt =====
-- Counters of two threads.
use fuxi_n.Prelude.{◌-◌, ◌≡◌, refl, inr, List, [], ◌∷◌, u64_mod, ltb, if◌then◌else◌, arith}
use fuxi_n.Counter.Adder
use fuxi_n.Counter.Adder.{ConcurrentAdder, value-run_adder}
use fuxi_n.Counter.Summer
use fuxi_n.Counter.Summer.{ConcurrentSummer, value-run_summer}
use fuxi_n.Counter.Maxer
use fuxi_n.Counter.Maxer.{
  ConcurrentMaxer, Slot, IsPast, AreCallsOf, rank, best_rank, best_of, try_value, try_value-run,
}
use fuxi_n.Counter.Reservoir.{SampleBucket}

-- A bucket of two entries, after three values of which the last replaced the first
abbrev bucket : SampleBucket
bucket = record { capacity = 2; record_num = 0; values = λ j. 99 }

abbrev adder : ConcurrentAdder
adder = record { threads = 2; storage = λ j. 5 }

abbrev additions : List Adder.Call
additions = Adder.adds 0 3 ∷ Adder.adds 1 (u64_mod - 1) ∷ Adder.resets ∷ Adder.adds 1 4 ∷ []

additions-AreCallsOf : Adder.AreCallsOf 2 additions
unfolding Adder.AreCallsOf
additions-AreCallsOf = (omega arith, (omega arith, (omega arith, refl)))

abbrev summer : ConcurrentSummer
summer = record { threads = 2; storage = λ j. record { sum = 0; num = 0 } }

abbrev sums : List Summer.Call
sums = Summer.adds 0 3 ∷ Summer.adds_summary 1 (record { sum = u64_mod - 5; num = 2 }) ∷ []

sums-AreCallsOf : Summer.AreCallsOf 2 sums
unfolding Summer.AreCallsOf
sums-AreCallsOf = (omega arith, (omega arith, refl))

abbrev maxer : ConcurrentMaxer
maxer = record {
  threads = 2;
  storage = λ j. record { version = u64_mod - 1; value = 0 };
  version = 0;
}

abbrev values : List Maxer.Call
values =
    Maxer.records 0 9
    ∷ Maxer.resets
    ∷ Maxer.records 1 (u64_mod - 3)
    ∷ Maxer.records 0 (u64_mod - 8)
    ∷ []

maxer-IsPast : IsPast maxer
unfolding IsPast
maxer-IsPast j = inr refl

values-AreCallsOf : AreCallsOf 2 0 values
unfolding AreCallsOf
values-AreCallsOf = (omega arith, (omega arith, (omega arith, (omega arith, omega arith))))

maxer-values :
    let (has_result, result) = try_value (Maxer.run maxer values) 1 in
    let best = best_rank (best_of maxer) values in
    (has_result ≡ ltb 0 best)
    × (rank result ≡ (if has_result then best else rank 1))
    × (result ≡ (if has_result then result else 1))
maxer-values = try_value-run maxer values 1 maxer-IsPast values-AreCallsOf
