-- ===== src/Vector/Growth/Keeps.antt =====
-- The accesses that leave `_block_table` as it was.
use fuxi_n.Prelude.{
  ℕ, ◌+◌, ◌≤◌, ◌<◌, ◌≡◌, ◌⊎◌, inl, inr, sym, ◌∙◌, Array, update, moved, total-update, List, count,
  arith,
}
use fuxi_n.Vector.Growth.{Memory, Pc, idle, creating, deleting, returning}
use fuxi_n.Vector.Growth.Defs.{holds, Owns, Good, given, Inv}

-- The memory with other counters and deleted blocks
abbrev pub adjusted : Memory → ℕ → ℕ → List ℕ → Memory
adjusted m tables blocks deleted = record m {
  next_table = tables;
  next_block = blocks;
  deleted = deleted;
}

Owns-lt : (m : Memory) (p : Pc) (t : ℕ) → Owns p t → Good m p → t < m.next_table
Owns-lt m idle t own good = absurd own
Owns-lt m (creating expect old own' copied created) t own good = omega (arith, own, good.3)
Owns-lt m (deleting expect old own' created) t own good = omega (arith, own, good.1)
Owns-lt m (returning expect table) t own good = absurd own

Good-adjusted :
    (m : Memory) (tables blocks : ℕ) (deleted : List ℕ) (p : Pc)
    → m.next_table ≤ tables
    → Good m p
    → Good (adjusted m tables blocks deleted) p
Good-adjusted m tables blocks deleted idle le good = tt
Good-adjusted m tables blocks deleted (creating expect old own copied created) le good =
    (good.0, good.1, good.2, omega (arith, le, good.3), good.4)
Good-adjusted m tables blocks deleted (deleting expect old own created) le good =
    (good.0, omega (arith, le, good.1), good.2)
Good-adjusted m tables blocks deleted (returning expect t) le good = good

module _ {n a : ℕ} {m : Memory} {pc : Array Pc} (inv : Inv n m pc) (lt : a < n) where
  -- A thread takes a table that is no other's.
  apart :
      (p : Pc) (b t : ℕ)
      → (Owns p t → Owns (pc a) t ⊎ (m.next_table ≤ t))
      → Owns p t
      → Owns (pc b) t
      → a ≡ b
  apart p b t own here there = elim (own here) [
    | inl old ↦ inv.unique a b t old there
    | inr fresh ↦ absurd (omega (arith, fresh, Owns-lt m (pc b) t there (inv.good b)))
  ]

  pub unique-update :
      (p : Pc)
      → ((t : ℕ) → Owns p t → Owns (pc a) t ⊎ (m.next_table ≤ t))
      → (b c t : ℕ) → Owns (update pc a p b) t
      → Owns (update pc a p c) t
      → b ≡ c
  unique-update p own b c t =
      moved (λ q. Owns q t → Owns (update pc a p c) t → b ≡ c) pc a p b
        (λ eb hb.
          moved (λ q. Owns q t → b ≡ c) pc a p c (λ ec hc. eb ∙ sym ec)
            (λ nc hc. eb ∙ apart p c t (own t) hb hc))
        (λ nb hb.
          moved (λ q. Owns q t → b ≡ c) pc a p c (λ ec hc. sym (apart p b t (own t) hc hb) ∙ sym ec)
            (λ nc hc. inv.unique b c t hb hc))

  pub Inv-adjusted :
      (tables blocks : ℕ) (deleted : List ℕ) (p : Pc)
      → m.next_table ≤ tables
      → ((x : ℕ)
          → holds x p + count x deleted + given m.next_block x
            ≡ holds x (pc a) + count x m.deleted + given blocks x)
      → ((t : ℕ) → Owns p t → Owns (pc a) t ⊎ (m.next_table ≤ t))
      → Good (adjusted m tables blocks deleted) p
      → Inv n (adjusted m tables blocks deleted) (update pc a p)
  Inv-adjusted tables blocks deleted p le same own good = record {
    conserved = λ x. omega (arith, total-update (holds x) n pc a p lt, inv.conserved x, same x);
    known = λ t pub_t. omega (arith, le, inv.known t pub_t);
    prefixes = inv.prefixes;
    shorter = inv.shorter;
    distinct = inv.distinct;
    unique = unique-update p own;
    good = λ b.
        moved (Good (adjusted m tables blocks deleted)) pc a p b (λ e. good)
          (λ ne. Good-adjusted m tables blocks deleted (pc b) le (inv.good b));
  }
