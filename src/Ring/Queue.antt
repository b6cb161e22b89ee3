-- ===== src/Ring/Queue.antt =====
-- What a ring promises: a FIFO queue of at most `cap` values that takes and gives whole batches.
use fuxi_n.Prelude.{ℕ, ◌-◌, ltb, if◌then◌else◌, List, [], ◌++◌, length, take, drop}

module _ {A : Type 0} where
  -- How many values went in, the room that is left, and the queue.
  unfoldable pub offer : ℕ → List A → List A → ℕ × ℕ × List A
  offer cap q batch =
      let room = cap - length q in
      if ltb room (length batch)
      then (0, room, q)
      else (length batch, room - length batch, q ++ batch)

  -- How many values came out, how many are left, the batch, and the queue.
  unfoldable pub poll : List A → ℕ → ℕ × ℕ × List A × List A
  poll q n =
      if ltb (length q) n then (0, length q, [], q) else (n, length q - n, take n q, drop n q)
