-- ===== src/BoundedQueue/Threads/Invariant.antt =====
-- The invariant holds at the start and after each access of a thread.
use fuxi_n.Prelude.{
  ℕ, suc, ◌+◌, ◌%◌, ◌^◌, ◌<◌, ◌≡◌, ap, ◌∙◌, refl, u64_mod, Array, update, update_self,
  total-eq-zero, some, sym, arith,
}
use mathlib.Core.Path.{subst}
use fuxi_n.BoundedQueue.{slot_index}
use fuxi_n.BoundedQueue.Tickets.{drawn-zero}
use fuxi_n.BoundedQueue.Threads.{
  Op, pushes, pops, side, Stage, waiting, ready, after, loaded, missed, checked, Pc, idle, dealing,
  trying, Memory, draw, Move, draws, spins, proceeds, writes, reads, releases, loads, matches,
  mismatches, gives_up, retries, cas_win, cas_lose, System, pick, init, Reach, start, later,
}
use fuxi_n.BoundedQueue.Threads.Defs.{Holds, holds, Good, Asked, Inv}
use fuxi_n.BoundedQueue.Threads.Turns.{drawn-turn, next-turn, next-turn-le}
use fuxi_n.BoundedQueue.Threads.Frames.{Inv-local}
use fuxi_n.BoundedQueue.Threads.Draws.{Inv-draw}
use fuxi_n.BoundedQueue.Threads.Releases.{Inv-write, Inv-release}

module _ {A : Type 0} (bits : ℕ) where
  Inv-init : (n : ℕ) (a : A) → n < 2 ^ 15 → Inv bits n 0 (init bits a).mem (init bits a).pc
  Inv-init n a few = record {
    few = few;
    early = λ s. omega arith;
    stored = λ j. refl;
    count = λ s j s_le j_lt.
        omega
          (arith, total-eq-zero (holds bits s j) n (init bits a).pc (λ i. refl), drawn-zero bits j);
    unique = λ b c s i h. absurd h;
    covered = λ s i s_le i_lt. absurd (omega (arith, i_lt));
    good = λ b. tt;
    kept = λ i odd. absurd (omega (arith, odd));
    fresh = λ i le. refl;
    fifo = λ i x e. absurd (cc e);
  }

  module _ {n k a : ℕ} {m : Memory A} {pc : Array (Pc A)} (inv : Inv bits n k m pc)
      (lt : a < n) where
    -- A thread that keeps its ticket
    Inv-stay :
        (op : Op A) (i : ℕ) (st st' : Stage A)
        → pc a ≡ dealing op i st
        → Good bits m (dealing op i st')
        → Inv bits n (suc k) m (update pc a (dealing op i st'))
    Inv-stay op i st st' here own =
        Inv-local inv a lt (dealing op i st') (λ s j. sym (ap (holds bits s j) here))
          (λ s j h. subst (λ q. Holds bits q s j) (sym here) h)
          (λ s j h. subst (λ q. Holds bits q s j) here h) own

    -- A thread without a ticket that draws none
    Inv-roam :
        (p p' : Pc A)
        → pc a ≡ p
        → ((s j : ℕ) → holds bits s j p ≡ holds bits s j p')
        → ((s j : ℕ) → Holds bits p s j ≡ ⊥)
        → ((s j : ℕ) → Holds bits p' s j ≡ ⊥)
        → Good bits m p'
        → Inv bits n (suc k) m (update pc a p')
    Inv-roam p p' here same none_before none_after own =
        Inv-local inv a lt p' (λ s j. sym (same s j) ∙ sym (ap (holds bits s j) here))
          (λ s j h. absurd (rw (sym (none_after s j)) h))
          (λ s j h. absurd (rw (sym (none_before s j)) (subst (λ q. Holds bits q s j) here h))) own

    Asked-own : (op : Op A) (i : ℕ) → Asked bits (draw m op i) op i
    Asked-own (pushes v) i = update_self m.sent i (some v)
    Asked-own pops i = tt

    below-own :
        (op : Op A) (i : ℕ)
        → suc k < u64_mod
        → m.next_index (side op) ≡ i
        → i < (draw m op i).next_index (side op)
    below-own op i small next = omega (
      arith,
      update_self m.next_index (side op) ((i + 1) % u64_mod),
      inv.early (side op),
      small,
      next,
    )

  -- The thread is at `p`; a match on `Move` needs a variable there.
  Move-Inv :
      {n k a : ℕ} {m m' : Memory A} {pc : Array (Pc A)} {p p' : Pc A}
      → Inv bits n k m pc
      → a < n
      → suc k < u64_mod
      → pc a ≡ p
      → Good bits m p
      → Move bits m p m' p'
      → Inv bits n (suc k) m' (update pc a p')
  Move-Inv {a} {m} inv lt small here own (draws {op}) =
      Inv-draw inv a lt op (m.next_index (side op)) refl small waiting
        (λ s j. ap (holds bits s j) here)
        (
          below-own inv lt op (m.next_index (side op)) small refl,
          Asked-own inv lt op (m.next_index (side op)),
          next-turn-le inv op (m.next_index (side op)) refl,
        )
  Move-Inv inv lt small here own (spins {op} {i} ne) = Inv-stay inv lt op i waiting waiting here own
  Move-Inv inv lt small here own (proceeds {op} {i} same) =
      Inv-stay inv lt op i waiting ready here (own.0, own.1, drawn-turn inv op i own.0 own.2 same)
  Move-Inv {a} {m} inv lt small here own (writes {v} {i}) =
      Inv-write inv a lt (pushes v) i ready here own.2 v (after v) refl
        (own.0, own.1, (own.2, update_self m.value (slot_index bits i) v, own.1))
  Move-Inv {a} {m} inv lt small here own (reads {i}) =
      Inv-stay inv lt pops i ready (after (m.value (slot_index bits i))) here
        (own.0, tt, (own.2, refl, inv.kept i own.2))
  Move-Inv {a} inv lt small here own (releases {op} {i} {x}) =
      Inv-release inv a lt op i (after x) here own.2.0 x own.2.1 own.2.2
  Move-Inv {m} inv lt small here own (loads {op}) =
      Inv-roam inv lt idle (trying op (m.next_index (side op)) loaded) here (λ s j. refl)
        (λ s j. refl) (λ s j. refl) (omega arith, tt)
  Move-Inv inv lt small here own (matches {op} {i} same) =
      Inv-roam inv lt (trying op i loaded) (trying op i checked) here (λ s j. refl) (λ s j. refl)
        (λ s j. refl) (own.0, λ next. next-turn inv op i next same)
  Move-Inv inv lt small here own (mismatches {op} {i} ne) =
      Inv-roam inv lt (trying op i loaded) (trying op i missed) here (λ s j. refl) (λ s j. refl)
        (λ s j. refl) own
  Move-Inv inv lt small here own (gives_up {op} {i} e) =
      Inv-roam inv lt (trying op i missed) idle here (λ s j. refl) (λ s j. refl) (λ s j. refl) tt
  Move-Inv {m} inv lt small here own (retries {op} {i} ne) =
      Inv-roam inv lt (trying op i missed) (trying op (m.next_index (side op)) loaded) here
        (λ s j. refl) (λ s j. refl) (λ s j. refl) (omega arith, tt)
  Move-Inv {a} {m} inv lt small here own (cas_win {op} {i} next) =
      Inv-draw inv a lt op i next small ready (λ s j. ap (holds bits s j) here)
        (below-own inv lt op i small next, Asked-own inv lt op i, own.1 next)
  Move-Inv {m} inv lt small here own (cas_lose {op} {i}) =
      Inv-roam inv lt (trying op i checked) (trying op (m.next_index (side op)) loaded) here
        (λ s j. refl) (λ s j. refl) (λ s j. refl) (omega arith, tt)

  module _ {n : ℕ} {a : A} (few : n < 2 ^ 15) where
    pub Reach-Inv :
        {k : ℕ} {s : System A} → k < u64_mod → Reach bits n a k s → Inv bits n k s.mem s.pc
    Reach-Inv small start = Inv-init n a few
    Reach-Inv small (later r (pick b lt mv)) =
        let inv = Reach-Inv (omega (arith, small)) r in Move-Inv inv lt small refl (inv.good b) mv
