-- ===== src/BoundedQueue/Threads/Frames.antt =====
-- What a change of one thread's place, and of the memory, leaves true.
use fuxi_n.Prelude.{moved, ℕ, suc, ◌<◌, ◌≡◌, Array, update, total-update, sym, arith}
use fuxi_n.BoundedQueue.Threads.{Pc, Memory}
use fuxi_n.BoundedQueue.Threads.Defs.{Holds, holds, Good, Inv}

module _ {A : Type 0} {bits n k : ℕ} {m : Memory A} {pc : Array (Pc A)} (inv : Inv bits n k m pc)
    (a : ℕ) (lt : a < n) where
  -- A thread that moves without a new ticket keeps the tickets apart.
  pub unique-keeps :
      (p : Pc A)
      → ((s i : ℕ) → Holds bits p s i → Holds bits (pc a) s i)
      → (b c s i : ℕ) → Holds bits (update pc a p b) s i
      → Holds bits (update pc a p c) s i
      → b ≡ c
  unique-keeps p holds_same b c s i hb hc = inv.unique b c s i (back b hb) (back c hc)
    where
      back : (b : ℕ) → Holds bits (update pc a p b) s i → Holds bits (pc b) s i
      back b =
          moved (λ q. Holds bits q s i → Holds bits (pc b) s i) pc a p b
            (λ e h. rw e (holds_same s i h)) (λ _ h. h)

  pub holder-keeps :
      (p : Pc A) (s i : ℕ)
      → (Holds bits (pc a) s i → Holds bits p s i)
      → (b : ℕ) × Holds bits (pc b) s i
      → (b : ℕ) × Holds bits (update pc a p b) s i
  holder-keeps p s i same (b, h) =
      (b, moved (λ q. Holds bits q s i) pc a p b (λ e. same (rw (sym e) h)) (λ _. h))

  -- The memory is as before, and the thread holds what it held.
  pub Inv-local :
      (p : Pc A)
      → ((s j : ℕ) → holds bits s j p ≡ holds bits s j (pc a))
      → ((s i : ℕ) → Holds bits p s i → Holds bits (pc a) s i)
      → ((s i : ℕ) → Holds bits (pc a) s i → Holds bits p s i)
      → Good bits m p
      → Inv bits n (suc k) m (update pc a p)
  Inv-local p same holds_same same_holds own = record {
    few = inv.few;
    early = λ s. omega (arith, inv.early s);
    stored = inv.stored;
    count = λ s j s_le j_lt.
        omega (arith, total-update (holds bits s j) n pc a p lt, same s j, inv.count s j s_le j_lt);
    unique = unique-keeps p holds_same;
    covered = λ s i s_le i_lt turn_le.
        holder-keeps p s i (same_holds s i) (inv.covered s i s_le i_lt turn_le);
    good = λ b. moved (Good bits m) pc a p b (λ _. own) (λ _. inv.good b);
    kept = inv.kept;
    fresh = inv.fresh;
    fifo = inv.fifo;
  }
