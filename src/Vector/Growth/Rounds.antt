-- ===== src/Vector/Growth/Rounds.antt =====
-- A thread gets its table after a bounded number of accesses of its own, whatever the others do.
use fuxi_n.Prelude.{ℕ, suc, ◌+◌, ◌-◌, ◌*◌, ◌≤◌, ◌<◌, ◌≡◌, ◌≢◌, update, length}
use fuxi_n.Vector.Growth.{Memory, Pc, idle, creating, deleting, returning, Move, System}

-- In the loop of `get_qualified_block_table_slow`
abbrev pub IsBusy : Pc → Type 0
IsBusy idle = ⊥
IsBusy (creating expect old own copied created) = Unit
IsBusy (deleting expect old own created) = Unit
IsBusy (returning expect table) = ⊥

-- A run in which thread `a` makes `k` accesses, all of them in that loop
pub data Work (n a : ℕ) (s : System) : ℕ → System → Type 0 where
  begun : Work n a s 0 s
  works :
      {k : ℕ} {t : System} {m : Memory} {p : Pc}
      → Work n a s k t
      → a < n
      → IsBusy (t.pc a)
      → Move t.mem (t.pc a) m p
      → Work n a s (suc k) (record { mem = m; pc = update t.pc a p })
  waits :
      {k b : ℕ} {t : System} {m : Memory} {p : Pc}
      → Work n a s k t
      → b < n
      → b ≢ a
      → Move t.mem (t.pc b) m p
      → Work n a s k (record { mem = m; pc = update t.pc b p })

-- The most accesses of a round: to create the blocks, to exchange, and to delete the blocks
abbrev round : ℕ → ℕ
round expect = 2 * expect + 2

-- What is left when the next round starts from a table of `size` blocks
rounds : ℕ → ℕ → ℕ
rounds expect size = (expect - size) * round expect

-- The accesses that a thread in the loop has left
left : Memory → Pc → ℕ
left m idle = 0
left m (creating expect old own copied created) =
    rounds expect (suc (length copied)) + (expect - (length copied + length created)) + expect + 2
left m (deleting expect old own created) =
    rounds expect (length (m.blocks old)) + length created + 1
left m (returning expect table) = 0

-- A thread that asked for `expect` blocks has at most `k` accesses left.
abbrev Within : ℕ → Memory → Pc → ℕ → Type 0
Within e m idle k = ⊥
Within e m (creating expect old own copied created) k =
    (expect ≡ e)
    × (length copied + length created ≤ e)
    × (left m (creating expect old own copied created) ≤ k)
Within e m (deleting expect old own created) k =
    (expect ≡ e) × (left m (deleting expect old own created) ≤ k)
Within e m (returning expect table) k = expect ≡ e

-- A thread in the loop always has an access to make.
abbrev pub IsUnderway : Memory → Pc → Type 0
IsUnderway m p = IsBusy p × ((m' : Memory) × (p' : Pc) × Move m p m' p')
