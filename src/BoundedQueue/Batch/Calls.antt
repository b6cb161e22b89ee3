-- ===== src/BoundedQueue/Batch/Calls.antt =====
-- `push_n`, `try_push_n`, `try_pop_n`, `clear` and `reserve_and_clear`: what a call does to
-- the slots up to the end of the ring, and from its start on.
use fuxi_n.Prelude.{
  ℕ, ◌+◌, ◌-◌, ◌%◌, u64_mod, Option, none, some, List, [], ◌++◌, length, take, drop, ◌==◌, ltb, leb,
  if◌then◌else◌,
}
use fuxi_n.BoundedQueue.{push_side, pop_side, slot_index}
use fuxi_n.BoundedQueue.Batch.{
  Queue, Pushed, Popped, copy_out, next_round_begin_index, capacity, publish, retire, set_next_push,
  set_next_pop, turns_from,
}

infixl 1 ◌>>=◌
abbrev pub ◌>>=◌ : {A B : Type 0} → Option A → (A → Option B) → Option B
none >>= f = none
some a >>= f = f a

-- a - b of size_t
abbrev pub sub_u64 : ℕ → ℕ → ℕ
sub_u64 a b = (a + u64_mod - b) % u64_mod

module _ {A : Type 0} where
  -- `try_deal_n_continuously` with PUSH_OR_POP: nothing is done when no slot is ready, or when the next
  -- index is not the one that was loaded.
  abbrev pub try_push_continuously : Queue A → List A → ℕ → ℕ → Pushed A
  try_push_continuously q xs index num =
      let ready = turns_from q push_side index num in
      if ready == 0
      then record { queue = q; count = 0 }
      else if q.next_push_index == index
      then record {
        queue = publish (set_next_push q (index + ready)) index (take ready xs);
        count = ready;
      }
      else record { queue = q; count = 0 }

  abbrev pub try_pop_continuously : Queue A → ℕ → ℕ → Popped A
  try_pop_continuously q index num =
      let ready = turns_from q pop_side index num in
      if ready == 0
      then record { queue = q; values = []; count = 0 }
      else if q.next_pop_index == index
      then record {
        queue = retire (set_next_pop q (index + ready)) index ready;
        values = copy_out q.value (slot_index q.slot_bits index) ready;
        count = ready;
      }
      else record { queue = q; values = []; count = 0 }

  abbrev pub try_push_n : Queue A → List A → Pushed A
  try_push_n q xs =
      let index = q.next_push_index in
      let end_index = (index + length xs) % u64_mod in
      let next_round = next_round_begin_index q.slot_bits index in
      if leb end_index next_round
      then try_push_continuously q xs index (sub_u64 end_index index)
      else let num = sub_u64 next_round index in
        let first = try_push_continuously q xs index num in
        let second =
          try_push_continuously first.queue (drop first.count xs) next_round
            (sub_u64 end_index next_round) in
        if ltb first.count num
        then first
        else record { queue = second.queue; count = (first.count + second.count) % u64_mod }

  abbrev pub try_pop_n : Queue A → ℕ → Popped A
  try_pop_n q wanted =
      let index = q.next_pop_index in
      let end_index = (index + wanted) % u64_mod in
      let next_round = next_round_begin_index q.slot_bits index in
      if leb end_index next_round
      then try_pop_continuously q index (sub_u64 end_index index)
      else let num = sub_u64 next_round index in
        let first = try_pop_continuously q index num in
        let second = try_pop_continuously first.queue next_round (sub_u64 end_index next_round) in
        if ltb first.count num then first else record {
          queue = second.queue;
          values = first.values ++ second.values;
          count = (first.count + second.count) % u64_mod;
        }

  -- `deal_n_continuously`, which waits for each slot
  abbrev pub push_continuously : Queue A → List A → ℕ → ℕ → Option (Queue A)
  push_continuously q xs index num =
      if turns_from q push_side index num == num then some (publish q index (take num xs)) else none

  abbrev pub push_n : Queue A → List A → Option (Queue A)
  push_n q xs =
      let index = q.next_push_index in
      let drawn = set_next_push q (index + length xs) in
      let end_index = (index + length xs) % u64_mod in
      let next_round = next_round_begin_index q.slot_bits index in
      if leb end_index next_round then push_continuously drawn xs index (length xs) else do
        let num = sub_u64 next_round index
        first ← push_continuously drawn xs index num
        push_continuously first (drop num xs) next_round (sub_u64 end_index next_round)

  abbrev pub clear : Queue A → Queue A
  clear q = (try_pop_n q (capacity q)).queue

  -- `bit_ceil` of absl, `__builtin_ctzll`, and the value that a new slot has
  module _ (bit_ceil ctzll : ℕ → ℕ) (initial : A) where
    abbrev pub reserve_and_clear : Queue A → ℕ → Queue A
    reserve_and_clear q min_capacity =
        let new_capacity = bit_ceil min_capacity in
        if new_capacity == capacity q then clear q else record {
          slot_bits = ctzll new_capacity;
          next_push_index = 0;
          next_pop_index = 0;
          version = λ _. 0;
          value = λ _. initial;
        }
