-- ===== src/Tests/Rings.antt =====
-- Rings of four slots: one that holds 7 and whose counters are about to wrap, and new ones.
use fuxi_n.Prelude.{
  ℕ, ◌+◌, ◌%◌, ◌≡◌, refl, inr, [], ◌∷◌, Array, true, false, some, arith, IsBitCeil,
}
use fuxi_n.Ring.{RteRing, do_enqueue, do_dequeue}
use fuxi_n.Ring.Queue.{offer, poll}
use fuxi_n.Ring.Window.{values}
use fuxi_n.Ring.Rest.{IsValid, contents}
use fuxi_n.Ring.Enqueue.{do_enqueue_refines}
use fuxi_n.Ring.Dequeue.{do_dequeue_refines}
use fuxi_n.RingBuffer
use fuxi_n.RingBuffer.{RingBuffer}
use fuxi_n.RingBuffer.Same.{as_buffer, do_enqueue_ptrs_refines}

abbrev slots : Array ℕ
slots j = 7 + j % 4

abbrev batch : Array ℕ
batch j = 20 + j

abbrev four : ℕ → ℕ
four n = 4

four-IsBitCeil : IsBitCeil 3 4
four-IsBitCeil = record {
  exponent = 2;
  is_pow = refl;
  above = omega arith;
  least = inr (omega arith);
}

-- The counters stand at 2^32 - 1 and, wrapped, at 0.
abbrev wrapping : RteRing ℕ
wrapping = record {
  size = 4;
  mask = 3;
  capacity = 4;
  is_sp = false;
  is_sc = false;
  inited = true;
  prod = record { head = 0; tail = 0 };
  cons = record { head = 4294967295; tail = 4294967295 };
  storage = slots;
  use_outer_buffer = false;
}

wrapping-IsValid : IsValid wrapping
wrapping-IsValid = record {
  bits = 2;
  is_pow = refl;
  small = omega arith;
  masked = refl;
  capacity_eq = refl;
  prod_rest = refl;
  cons_rest = refl;
  prod_word = omega arith;
  cons_word = omega arith;
  fill = omega arith;
}

enqueue_three :
    (s : ℕ × ℕ × RteRing ℕ) × (do_enqueue wrapping batch 3 true ≡ some s)
    × ((s.0, s.1, contents s.2) ≡ offer 4 (10 ∷ []) (20 ∷ 21 ∷ 22 ∷ []))
    × IsValid s.2
enqueue_three = do_enqueue_refines wrapping batch 3 true wrapping-IsValid

dequeue_last :
    (s : ℕ × ℕ × Array ℕ × RteRing ℕ) × (do_dequeue wrapping batch 1 true ≡ some s)
    × ((s.0, s.1, values s.2 0 s.0, contents s.3) ≡ poll (10 ∷ []) 1)
    × IsValid s.3
dequeue_last = do_dequeue_refines wrapping batch 1 true wrapping-IsValid

enqueue_three_ptrs :
    (count free : ℕ) × (s' : RteRing ℕ) × (RingBuffer.do_enqueue (as_buffer wrapping) batch 3 true
      ≡ some (count, free, as_buffer s'))
    × ((count, free, contents s') ≡ offer 4 (10 ∷ []) (20 ∷ 21 ∷ 22 ∷ []))
    × IsValid s'
enqueue_three_ptrs = do_enqueue_ptrs_refines wrapping batch 3 true wrapping-IsValid
