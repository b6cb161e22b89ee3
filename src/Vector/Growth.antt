-- ===== src/Vector/Growth.antt =====
-- Threads that call `get_qualified_block_table` of a `ConcurrentVector` at once (vector.hpp), an access
-- of the shared memory at a time. `operator new` gives numbers that it has not given before; a table
-- that was retired is not given again while a thread may still use it, which the retire list is for.
pub mod Defs
pub mod Keeps
pub mod Exchange
pub mod Invariant
pub mod Safety
pub mod Rounds
use fuxi_n.Prelude.{ℕ, suc, ◌+◌, ◌≤◌, ◌<◌, ◌≡◌, ◌≢◌, Array, update, List, [], ◌∷◌, ◌++◌, length}

-- `_block_table`, and the tables behind the numbers; the numbers given out so far, and what the
-- retire list and `delete_block` were given.
pub record Memory : Type 0 where
  pub current : ℕ
  pub blocks : Array (List ℕ)
  pub next_table : ℕ
  pub next_block : ℕ
  pub retired : List ℕ
  pub deleted : List ℕ

-- The table that `_block_table` points at
abbrev pub block_table : Memory → List ℕ
block_table m = m.blocks m.current

pub data Pc : Type 0 where
  idle : Pc
  -- `new_block_table`, of `expect_block_num`, holds the blocks that were copied from `block_table` and
  -- those that were created.
  creating : (expect_block_num block_table new_block_table : ℕ) (copied created : List ℕ) → Pc
  -- The exchange failed: the blocks that are still to be deleted
  deleting : (expect_block_num block_table new_block_table : ℕ) (created : List ℕ) → Pc
  -- The table that the call returns
  returning : (expect_block_num block_table : ℕ) → Pc

pub record System : Type 0 where
  pub mem : Memory
  pub pc : Array Pc

abbrev pub create_block_table : Memory → Memory
create_block_table m = record m { next_table = suc m.next_table }

abbrev pub create_block : Memory → Memory
create_block m = record m { next_block = suc m.next_block }

abbrev pub delete_block : Memory → ℕ → Memory
delete_block m block = record m { deleted = block ∷ m.deleted }

-- The exchange of `_block_table`, and `_retire_list.retire` of the old one
abbrev pub publish : Memory → ℕ → ℕ → List ℕ → Memory
publish m block_table new_block_table blocks = record m {
  current = new_block_table;
  blocks = update m.blocks new_block_table blocks;
  retired = block_table ∷ m.retired;
}

-- One access of a thread
pub data Move (m : Memory) : Pc → Memory → Pc → Type 0 where
  qualifies :
      {expect : ℕ} → expect ≤ length (block_table m) → Move m idle m (returning expect m.current)
  -- The load, `create_block_table` and the first `memcpy`
  starts :
      {expect : ℕ}
      → length (block_table m) < expect
      → Move m idle
          (create_block_table m)
          (creating expect m.current m.next_table (block_table m) [])
  creates :
      {expect old own : ℕ} {copied created : List ℕ}
      → length copied + length created < expect
      → Move m
          (creating expect old own copied created)
          (create_block m)
          (creating expect old own copied (created ++ (m.next_block ∷ [])))
  -- `compare_exchange_strong`
  exchanges :
      {expect old own : ℕ} {copied created : List ℕ}
      → length copied + length created ≡ expect
      → m.current ≡ old
      → Move m
          (creating expect old own copied created)
          (publish m old own (copied ++ created))
          (returning expect own)
  fails :
      {expect old own : ℕ} {copied created : List ℕ}
      → length copied + length created ≡ expect
      → m.current ≢ old
      → Move m (creating expect old own copied created) m (deleting expect m.current own created)
  deletes :
      {expect old own block : ℕ} {created : List ℕ}
      → Move m
          (deleting expect old own (block ∷ created))
          (delete_block m block)
          (deleting expect old own created)
  -- The next round, with the table that the exchange loaded
  repeats :
      {expect old own : ℕ}
      → length (m.blocks old) < expect
      → Move m (deleting expect old own []) m (creating expect old own (m.blocks old) [])
  -- `delete_block_table` of the table that was not needed
  settles :
      {expect old own : ℕ}
      → expect ≤ length (m.blocks old)
      → Move m (deleting expect old own []) m (returning expect old)
  returns : {expect table : ℕ} → Move m (returning expect table) m idle

-- Any of the `n` threads moves.
pub data Step (n : ℕ) (s : System) : System → Type 0 where
  pick :
      (a : ℕ) {m : Memory} {p : Pc}
      → a < n
      → Move s.mem (s.pc a) m p
      → Step n s (record { mem = m; pc = update s.pc a p })

-- A new vector: table 0 is EMPTY_BLOCK_TABLE.
abbrev pub new_vector : System
new_vector = record {
  mem = record {
    current = 0;
    blocks = λ _. [];
    next_table = 1;
    next_block = 0;
    retired = [];
    deleted = [];
  };
  pc = λ _. idle;
}

pub data Run (n : ℕ) (s : System) : System → Type 0 where
  here : Run n s s
  later : {t u : System} → Run n s t → Step n t u → Run n s u
