-- ===== src/Vector/Growth/Defs.antt =====
-- What holds of a `ConcurrentVector` between any two accesses of its threads.
use fuxi_n.Prelude.{
  ℕ, ◌+◌, ◌≤◌, ◌<◌, ◌≡◌, Array, total, ◌∷◌, length, IsOn, IsDistinct, count, Prefix, ltb,
  if◌then◌else◌,
}
use fuxi_n.Vector.Growth.{Memory, block_table, Pc, idle, creating, deleting, returning}

-- A table that `_block_table` points at, or once did
abbrev pub IsPublished : Memory → ℕ → Type 0
IsPublished m t = IsOn t (m.current ∷ m.retired)

-- How many blocks with a number a thread has to itself
abbrev pub holds : ℕ → Pc → ℕ
holds x idle = 0
holds x (creating expect old own copied created) = count x created
holds x (deleting expect old own created) = count x created
holds x (returning expect t) = 0

-- The table that a thread has to itself
abbrev pub Owns : Pc → ℕ → Type 0
Owns idle t = ⊥
Owns (creating expect old own copied created) t = own ≡ t
Owns (deleting expect old own created) t = own ≡ t
Owns (returning expect table) t = ⊥

-- What the locals of a thread say about the shared memory
abbrev pub Good : Memory → Pc → Type 0
Good m idle = Unit
Good m (creating expect old own copied created) =
    IsPublished m old
    × (copied ≡ m.blocks old)
    × (length copied < expect)
    × (own < m.next_table)
    × (IsPublished m own → ⊥)
Good m (deleting expect old own created) =
    IsPublished m old × (own < m.next_table) × (IsPublished m own → ⊥)
Good m (returning expect t) = IsPublished m t × (expect ≤ length (m.blocks t))

-- 1 for a block that `operator new` has given
abbrev pub given : ℕ → ℕ → ℕ
given next x = if ltb x next then 1 else 0

pub record Inv (n : ℕ) (m : Memory) (pc : Array Pc) : Type 0 where
  -- Each block that was created is in one place: a thread has it, it is in the table, or it was deleted.
  pub conserved :
      (x : ℕ)
      → total (holds x) n pc + count x (block_table m) + count x m.deleted ≡ given m.next_block x
  pub known : (t : ℕ) → IsPublished m t → t < m.next_table
  -- A table goes on from those before it, which it outgrows.
  pub prefixes : (t : ℕ) → IsPublished m t → Prefix (m.blocks t) (block_table m)
  pub shorter : (t : ℕ) → IsOn t m.retired → length (m.blocks t) < length (block_table m)
  pub distinct : IsDistinct (m.current ∷ m.retired)
  pub unique : (a b t : ℕ) → Owns (pc a) t → Owns (pc b) t → a ≡ b
  pub good : (a : ℕ) → Good m (pc a)
