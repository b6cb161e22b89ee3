-- ===== src/Vector/Retire.antt =====
-- `RetireList` (src/fuxi/base/vector.hpp): data that are deleted once no thread can still use them, told
-- by the time. The calls run one after the other; `_head` is its timestamp with the list of its nodes.
-- Each node carries the second at which it was retired, which no code reads.
pub mod Cooling
use fuxi_n.Prelude.{Bool, ℕ, ◌+◌, ◌-◌, ◌/◌, ◌%◌, u16_mod, ltb, if◌then◌else◌, List, [], ◌∷◌, ◌++◌}

pub record Node : Type 0 where
  pub item : ℕ
  pub retired_at : ℕ

pub record RetireList : Type 0 where
  pub timestamp : ℕ
  pub nodes : List Node

-- The null head
abbrev pub new_list : RetireList
new_list = record { timestamp = 0; nodes = [] }

-- The seconds of the clock, in units of 64, as a `uint16_t`
abbrev pub get_current_timestamp : ℕ → ℕ
get_current_timestamp seconds = seconds / 64 % u16_mod

abbrev pub expire : RetireList → ℕ → Bool
expire head current_timestamp = ltb 1 ((current_timestamp + u16_mod - head.timestamp) % u16_mod)

-- The list after a call, and the nodes that `delete_list` was given
abbrev pub retire : ℕ → ℕ → RetireList → RetireList × List Node
retire seconds item head =
    let node : Node = record { item = item; retired_at = seconds } in
    let timestamp = get_current_timestamp seconds in
    if expire head timestamp
    then (record { timestamp = timestamp; nodes = node ∷ [] }, head.nodes)
    else (record { timestamp = timestamp; nodes = node ∷ head.nodes }, [])

abbrev pub gc : ℕ → RetireList → RetireList × List Node
gc seconds head =
    if expire head (get_current_timestamp seconds) then (new_list, head.nodes) else (head, [])

abbrev pub unsafe_gc : RetireList → RetireList × List Node
unsafe_gc head = (new_list, head.nodes)

-- What the users of a list do, each at a second of the clock
pub data Call : Type 0 where
  retires : (item : ℕ) → Call
  collects : Call

abbrev pub call : ℕ → Call → RetireList → RetireList × List Node
call seconds (retires item) head = retire seconds item head
call seconds collects head = gc seconds head

-- A node that was deleted, and when
pub record Deletion : Type 0 where
  pub node : Node
  pub deleted_at : ℕ

abbrev pub deletions : ℕ → List Node → List Deletion
deletions seconds [] = []
deletions seconds (node ∷ rest) =
    record { node = node; deleted_at = seconds } ∷ deletions seconds rest

abbrev pub run : RetireList → List (ℕ × Call) → RetireList × List Deletion
run head [] = (head, [])
run head ((seconds, c) ∷ rest) =
    let (next, deleted) = call seconds c head in
    let (last, later) = run next rest in (last, deletions seconds deleted ++ later)
