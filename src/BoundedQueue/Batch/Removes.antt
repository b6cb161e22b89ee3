-- ===== src/BoundedQueue/Batch/Removes.antt =====
-- What it is to remove the first elements of a quiet queue.
use fuxi_n.Prelude.{ℕ, ◌+◌, ◌-◌, ◌≤◌, ◌<◌, ◌≡◌, refl, sym, ap, ◌∙◌, u64_mod, List, ◌++◌, arith}
use mathlib.Core.Path.{subst, ap₂}
use native.Mathlib.Nat.{mod-eq_of_lt}
use fuxi_n.BoundedQueue.{slot_index}
use fuxi_n.BoundedQueue.Tickets.{epoch}
use fuxi_n.BoundedQueue.Batch.{Queue, retire, set_next_pop}
use fuxi_n.BoundedQueue.Batch.Contents.{Wf, InRound, values_of}
use fuxi_n.BoundedQueue.Batch.Ready.{set_versions-pop}
use fuxi_n.BoundedQueue.Batch.Values.{values_of-append}
use fuxi_n.BoundedQueue.Batch.Appends.{IsQuiet, contents}

module _ {A : Type 0} where
  abbrev pub used_slots : Queue A → ℕ
  used_slots q = q.next_push_index - q.next_pop_index

  -- `next` is `q` without its first `n` elements.
  pub record Removes (q next : Queue A) (n : ℕ) : Type 0 where
    pub same_bits : next.slot_bits ≡ q.slot_bits
    pub same_push : next.next_push_index ≡ q.next_push_index
    pub same_value : next.value ≡ q.value
    pub new_pop : next.next_pop_index ≡ q.next_pop_index + n
    pub new_wf : Wf q.slot_bits next.version (q.next_pop_index + n) q.next_push_index

  pub Removes-IsQuiet : {q next : Queue A} {n : ℕ} → Removes q next n → IsQuiet next
  Removes-IsQuiet {q} {next} {n} h =
      subst (λ b. Wf b next.version next.next_pop_index next.next_push_index) (sym h.same_bits)
        (subst (Wf q.slot_bits next.version next.next_pop_index) (sym h.same_push)
          (subst (λ p. Wf q.slot_bits next.version p q.next_push_index) (sym h.new_pop) h.new_wf))

  -- The first `n` elements of `q`
  abbrev pub first_values : Queue A → ℕ → List A
  first_values q n = values_of q.slot_bits q.value q.next_pop_index n

  pub Removes-contents :
      {q next : Queue A} {n : ℕ} → Removes q next n → contents q ≡ first_values q n ++ contents next
  Removes-contents {q} {next} {n} h =
      ap (values_of q.slot_bits q.value q.next_pop_index) {x = q.next_push_index - q.next_pop_index}
        {y = n + (q.next_push_index - (q.next_pop_index + n))} (omega (arith, h.new_wf.ordered))
      ∙ values_of-append q.slot_bits q.value q.next_pop_index n
          (q.next_push_index - (q.next_pop_index + n))
      ∙ ap (λ xs. first_values q n ++ xs)
          (ap₂ (λ p s. values_of q.slot_bits q.value p (s - p)) (sym h.new_pop) (sym h.same_push)
            ∙ ap₂
                (λ b v.
                  values_of b v next.next_pop_index (next.next_push_index - next.next_pop_index))
                (sym h.same_bits) (sym h.same_value))

  pub Removes-refl : (q : Queue A) → IsQuiet q → Removes q q 0
  Removes-refl q wf =
      let plus_zero : q.next_pop_index ≡ q.next_pop_index + 0 = omega arith in
      record {
        same_bits = refl;
        same_push = refl;
        same_value = refl;
        new_pop = plus_zero;
        new_wf = subst (λ p. Wf q.slot_bits q.version p q.next_push_index) plus_zero wf;
      }

  pub Removes-trans :
      {q r t : Queue A} {m n : ℕ} → Removes q r m → Removes r t n → Removes q t (m + n)
  Removes-trans {q} {r} {t} {m} {n} f g = record {
    same_bits = g.same_bits ∙ f.same_bits;
    same_push = g.same_push ∙ f.same_push;
    same_value = g.same_value ∙ f.same_value;
    new_pop = omega (arith, g.new_pop, f.new_pop);
    new_wf =
        subst (λ p. Wf q.slot_bits t.version p q.next_push_index) {x = r.next_pop_index + n}
          {y = q.next_pop_index + (m + n)} (omega (arith, f.new_pop))
          (subst (Wf q.slot_bits t.version (r.next_pop_index + n)) f.same_push (
            subst (λ b. Wf b t.version (r.next_pop_index + n) r.next_push_index) f.same_bits
              g.new_wf));
  }

  -- What comes first in `next` comes next in `q`.
  pub first_values-removed :
      {q next : Queue A} {n : ℕ}
      → Removes q next n
      → (k : ℕ) → first_values next k ≡ values_of q.slot_bits q.value (q.next_pop_index + n) k
  first_values-removed {q} {next} {n} h k =
      ap (λ p. values_of next.slot_bits next.value p k) h.new_pop
      ∙ ap₂ (λ b v. values_of b v (q.next_pop_index + n) k) h.same_bits h.same_value

  pub retire-Removes :
      (q : Queue A) (n : ℕ)
      → IsQuiet q
      → n ≤ used_slots q
      → InRound q.slot_bits q.next_pop_index n
          (slot_index q.slot_bits q.next_pop_index)
          (epoch q.slot_bits q.next_pop_index)
      → q.next_pop_index + n < u64_mod
      → Removes q (retire (set_next_pop q (q.next_pop_index + n)) q.next_pop_index n) n
  retire-Removes q n wf le h small = record {
    same_bits = refl;
    same_push = refl;
    same_value = refl;
    new_pop = mod-eq_of_lt small;
    new_wf = set_versions-pop n _ _ wf (omega (arith, le, wf.ordered)) h;
  }
