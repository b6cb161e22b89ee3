-- ===== src/EventQueue/Histories.antt =====
-- Histories of calls of the event queues, over the bounded queue of src/fuxi/base/bounded_queue.hpp.
use fuxi_n.Prelude.{ℕ, suc, ◌≡◌, some, length}
use fuxi_n.BoundedQueue.Batch.{Queue}
use fuxi_n.BoundedQueue.Batch.Appends.{contents}
use fuxi_n.EventQueue.{FlatSignalQueue}
use fuxi_n.EventQueue.Tries
use fuxi_n.EventQueue.Tries.{IsCounted, call-ideal, ideal}
use fuxi_n.EventQueue.Pushes
use fuxi_n.EventQueue.Bounded.{bounded_ops, bounded_laws}

-- Where `available_size_` is the number of the events in a quiet bounded queue, of which there are at
-- most `num` below 2^31, with as many slots at least, and the indexes do not wrap for the `n + 1` next
-- calls: a call of `TryPush` or `TryPop` answers and changes the queue as a queue of at most `num`
-- values does, its loop ends in the first round, and the same holds after it for `n` calls.
pub first_in_first_out :
    (bit_ceil ctzll : ℕ → ℕ) (fuel n num : ℕ) (s : FlatSignalQueue (Queue ℕ)) (c : Tries.Call)
    → IsCounted
        (bounded_ops bit_ceil ctzll)
        (bounded_laws bit_ceil ctzll)
        (suc n)
        num
        (length (contents s.ev_queue))
        s
    → (s' : FlatSignalQueue (Queue ℕ)) × (Tries.call (bounded_ops bit_ceil ctzll) (suc fuel) s c
        ≡ some ((ideal num (contents s.ev_queue) c).0, s'))
      × IsCounted
          (bounded_ops bit_ceil ctzll)
          (bounded_laws bit_ceil ctzll)
          n
          num
          (length (contents s'.ev_queue))
          s'
      × (contents s'.ev_queue ≡ (ideal num (contents s.ev_queue) c).1)
first_in_first_out bit_ceil ctzll =
    call-ideal (bounded_ops bit_ceil ctzll) (bounded_laws bit_ceil ctzll)
