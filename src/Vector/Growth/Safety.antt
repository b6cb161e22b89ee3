-- ===== src/Vector/Growth/Safety.antt =====
-- What the threads that grow a `ConcurrentVector` may rely on.
use fuxi_n.Prelude.{
  ℕ, ◌+◌, ◌≤◌, ◌<◌, ◌≡◌, inl, inr, refl, ap, ◌∙◌, update-ne, total, ◌∷◌, ◌++◌, length, IsDistinct,
  count, Prefix, lt→ltb, if◌then◌else◌, arith,
}
use mathlib.Core.Path.{subst}
use fuxi_n.Vector.Growth.{
  Memory, block_table, Pc, returning, Move, qualifies, starts, creates, exchanges, fails, deletes,
  repeats, settles, returns, System, pick, Run, here, later, new_vector,
}
use fuxi_n.Vector.Growth.Defs.{IsPublished, holds, Good, Inv}
use fuxi_n.Vector.Growth.Invariant.{Step-Inv, reached-Inv}

-- A table that was published stays as it is.
abbrev pub IsKept : Memory → Memory → ℕ → Type 0
IsKept m m' t = IsPublished m' t × (m'.blocks t ≡ m.blocks t)

pub Move-IsKept :
    {m m' : Memory} {p p' : Pc} (t : ℕ)
    → IsPublished m t
    → Good m p
    → Move m p m' p'
    → IsKept m m' t
Move-IsKept t h own (qualifies enough) = (h, refl)
Move-IsKept t h own (starts short) = (h, refl)
Move-IsKept t h own (creates room) = (h, refl)
Move-IsKept {m} t h own (exchanges {old} {own = o} {copied} {created} full same) = (
  inr (elim h [ inl e ↦ inl (e ∙ same) | inr old_one ↦ inr old_one ]),
  update-ne m.blocks o (copied ++ created) t (λ e. own.4 (subst (IsPublished m) e h)),
)
Move-IsKept t h own (fails full other) = (h, refl)
Move-IsKept t h own deletes = (h, refl)
Move-IsKept t h own (repeats short) = (h, refl)
Move-IsKept t h own (settles enough) = (h, refl)
Move-IsKept t h own returns = (h, refl)

Run-IsKept :
    {n : ℕ} {s u : System} (t : ℕ)
    → Inv n s.mem s.pc
    → IsPublished s.mem t
    → Run n s u
    → Inv n u.mem u.pc × IsKept s.mem u.mem t
Run-IsKept t inv h here = (inv, (h, refl))
Run-IsKept t inv h (later {t = v} run (pick a lt move)) =
    let (mid, kept) = Run-IsKept t inv h run in
    let next = Move-IsKept t kept.0 (mid.good a) move in
    (Step-Inv mid (pick a lt move), (next.0, next.1 ∙ kept.1))

-- The table that a call returned, at any later time: it has the blocks that were asked for, it has not
-- changed, and the vector's own table begins with the same blocks at the same places.
pub returned-Prefix :
    (n : ℕ) {s u : System} (a expect table : ℕ)
    → Run n new_vector s
    → s.pc a ≡ returning expect table
    → Run n s u
    → (expect ≤ length (u.mem.blocks table))
      × (u.mem.blocks table ≡ s.mem.blocks table)
      × Prefix (u.mem.blocks table) (block_table u.mem)
returned-Prefix n {s} {u} a expect table reached at run =
    let inv = reached-Inv reached in
    let own : Good s.mem (returning expect table) = subst (Good s.mem) at (inv.good a) in
    let (after, (pub_t, same)) = Run-IsKept table inv own.0 run in
    (omega (arith, own.1, ap length same), same, after.prefixes table pub_t)

-- Every block that was created is in exactly one place: a thread that has not published it has it, it
-- is in the vector's table, or it was deleted.
pub created_once :
    (n : ℕ) {s : System} (x : ℕ)
    → Run n new_vector s
    → x < s.mem.next_block
    → total (holds x) n s.pc + count x (block_table s.mem) + count x s.mem.deleted ≡ 1
created_once n {s} x reached lt =
    (reached-Inv reached).conserved x ∙ ap (λ b. if b then 1 else 0) (lt→ltb x s.mem.next_block lt)

-- No table is given to the retire list twice, nor while it is the vector's table.
pub retired_once :
    (n : ℕ) {s : System} → Run n new_vector s → IsDistinct (s.mem.current ∷ s.mem.retired)
retired_once n reached = (reached-Inv reached).distinct
