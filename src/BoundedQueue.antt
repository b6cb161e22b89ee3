-- ===== src/BoundedQueue.antt =====
-- src/fuxi/base/bounded_queue.h and bounded_queue.hpp: `ConcurrentBoundedQueue<T, S>`, a ring of slots
-- in which each push and each pop draws a ticket, an index that only grows. The slot of a ticket is its
-- last bits; the slot's version says whose turn it is there: of the push of an epoch, then of its pop.
pub mod Tickets
pub mod Threads
pub mod Batch
pub mod Futex
use fuxi_n.Prelude.{ℕ, ◌+◌, ◌-◌, ◌*◌, ◌/◌, ◌%◌, ◌^◌, bit_and, u16_mod, Array}

-- PUSH_OR_POP: pushes are the side 0, pops the side 1.
abbrev pub push_side : ℕ
push_side = 0

abbrev pub pop_side : ℕ
pop_side = 1

-- `index & _slot_mask`, where the mask has `slot_bits` bits
abbrev pub slot_index : ℕ → ℕ → ℕ
slot_index slot_bits index = bit_and index (2 ^ slot_bits - 1)

-- `(index >> _slot_bits) << 1`, cut to 16 bits
abbrev pub push_version_for_index : ℕ → ℕ → ℕ
push_version_for_index slot_bits index = index / 2 ^ slot_bits * 2 % u16_mod

abbrev pub pop_version_for_index : ℕ → ℕ → ℕ
pop_version_for_index slot_bits index = (push_version_for_index slot_bits index + 1) % u16_mod

-- `expected_version` of either side
abbrev pub expected_version : ℕ → ℕ → ℕ → ℕ
expected_version slot_bits side index = (push_version_for_index slot_bits index + side) % u16_mod
