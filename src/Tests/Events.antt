-- ===== src/Tests/Events.antt =====
-- Event queues over a bounded queue of one slot, the locks of a block, and the handles of a segment.
use fuxi_n.Prelude.{true, ℕ, ◌≤◌, ◌≡◌, inl, refl, inr, update, some, List, [], ◌∷◌, length, arith}
use fuxi_n.BoundedQueue.Batch.{Queue}
use fuxi_n.BoundedQueue.Batch.Appends.{contents}
use fuxi_n.BoundedQueue.Batch.Reserve.{Wf-reset}
use fuxi_n.EventQueue.{FlatSignalQueue}
use fuxi_n.EventQueue.Tries
use fuxi_n.EventQueue.Tries.{IsCounted, ideal}
use fuxi_n.EventQueue.Pushes
use fuxi_n.EventQueue.Pushes.{History}
use fuxi_n.EventQueue.Bounded.{bounded_ops, bounded_laws, unused}
use fuxi_n.EventQueue.Histories.{first_in_first_out}
use fuxi_n.Block
use fuxi_n.Block.{
  Memory, Pc, writing, write_locked, write_unwritten, write_free, write_granted, Reach, start,
  later, write_lock, write_clear, write_unread, write_store, write_grant, new_block,
}
use fuxi_n.Block.Locks.{writing_alone}
use fuxi_n.Segment
use fuxi_n.Segment.{created, opened, initializes, destroys, new_handles}
use fuxi_n.Segment.Lifetime
use fuxi_n.Segment.Lifetime.{run-IsCounted}

abbrev same : ℕ → ℕ
same n = n

-- The event queue of one event after `Initialize`
abbrev one_slot : FlatSignalQueue (Queue ℕ)
one_slot = record { inited = true; queue_capacity = 1; available_size = 0; ev_queue = unused }

one_slot-IsCounted :
    (n : ℕ) → n ≤ 10 → IsCounted (bounded_ops same same) (bounded_laws same same) n 1 0 one_slot
one_slot-IsCounted n le = record {
  bounded = refl;
  counted = refl;
  held = omega arith;
  enough = omega arith;
  slots = omega arith;
  few = omega arith;
  ready = (Wf-reset 0, omega (arith, le));
}

first_in_first_out-one_slot :
    (s' : FlatSignalQueue (Queue ℕ)) × (Tries.call
        (bounded_ops same same)
        1
        one_slot
        (Tries.pushes 7)
      ≡ some ((ideal 1 [] (Tries.pushes 7)).0, s'))
    × IsCounted
        (bounded_ops same same)
        (bounded_laws same same)
        4
        1
        (length (contents s'.ev_queue))
        s'
    × (contents s'.ev_queue ≡ (ideal 1 [] (Tries.pushes 7)).1)
first_in_first_out-one_slot =
    first_in_first_out same same 0 4 1 one_slot (Tries.pushes 7)
      (one_slot-IsCounted 5 (omega arith))

abbrev one_slot_process : History (Queue ℕ)
one_slot_process = record {
  process = record {
    state = record { inited = true; is_online = true; pid = 41; reader_event_queue = one_slot };
    reference_cnt = λ _. 0;
  };
  accepted = 0;
}

abbrev three_calls : List Pushes.Call
three_calls = Pushes.pushes 7 ∷ Pushes.pops ∷ Pushes.pushes 7 ∷ []

abbrev moved_by : Block.System → Memory → Pc → Block.System
moved_by s m p = record { mem = m; pc = update s.pc 0 p }

abbrev with_lock : Memory
with_lock = record new_block.mem { lock_writers = 1 }

abbrev locked : Block.System
locked = moved_by new_block with_lock write_locked

abbrev unwritten : Block.System
unwritten = moved_by locked with_lock write_unwritten

abbrev free : Block.System
free = moved_by unwritten with_lock write_free

abbrev granted : Block.System
granted = moved_by free (record with_lock { is_writing = 1 }) write_granted

abbrev written : Block.System
written = moved_by granted (record new_block.mem { is_writing = 1 }) writing

written-Reach : Reach 2 written
written-Reach =
    later 0
      (later 0
        (later 0
          (later 0 (later 0 start (omega arith) (write_lock refl refl)) (omega arith)
            (write_clear refl))
          (omega arith) (write_unread refl))
        (omega arith) write_store)
      (omega arith) write_grant

abbrev writer : ℕ
writer = 0

writing_alone-writer :
    (writer ≡ writer) × (written.pc writer ≡ writing) × (written.mem.reading_reference_counts ≡ 0)
writing_alone-writer =
    writing_alone 2 writer writer (omega arith) written-Reach (omega arith) (omega arith) refl
      (inl refl)

-- The first handle creates the segment, the second opens it, and both are destroyed.
abbrev two_handles : List Segment.Call
two_handles =
    initializes 0 created (λ _. true)
    ∷ initializes 1 opened (λ _. true)
    ∷ destroys 0
    ∷ destroys 1
    ∷ []

run-IsCounted-two_handles : Lifetime.IsCounted 2 (Segment.run 1001 new_handles two_handles)
run-IsCounted-two_handles = run-IsCounted 1001 2 two_handles (omega arith) (
  omega arith,
  inr ((refl, refl, refl), refl),
  (omega arith, inr ((refl, refl, refl), refl), (omega arith, (omega arith, tt))),
)
