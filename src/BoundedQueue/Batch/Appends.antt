-- ===== src/BoundedQueue/Batch/Appends.antt =====
-- The elements of a quiet queue as a list, and what it is to append to it.
use fuxi_n.Prelude.{
  ℕ, ◌+◌, ◌-◌, ◌^◌, ◌≤◌, ◌<◌, ◌≡◌, refl, sym, ap, ◌∙◌, u64_mod, List, [], ◌++◌, length,
  length-append, arith,
}
use mathlib.Core.Path.{subst}
use mathlib.Core.List.{append_assoc, append-nil}
use native.Mathlib.Nat.{mod-eq_of_lt}
use fuxi_n.BoundedQueue.{slot_index}
use fuxi_n.BoundedQueue.Tickets.{epoch}
use fuxi_n.BoundedQueue.Batch.{Queue, publish, set_next_push}
use fuxi_n.BoundedQueue.Batch.Contents.{Wf, InRound, values_of}
use fuxi_n.BoundedQueue.Batch.Ready.{set_versions-push}
use fuxi_n.BoundedQueue.Batch.Values.{copy_in-values}

module _ {A : Type 0} where
  -- No thread is in the queue.
  abbrev pub IsQuiet : Queue A → Type 0
  IsQuiet q = Wf q.slot_bits q.version q.next_pop_index q.next_push_index

  -- The elements, from the oldest one on
  abbrev pub contents : Queue A → List A
  contents q = values_of q.slot_bits q.value q.next_pop_index (q.next_push_index - q.next_pop_index)

  abbrev pub free_slots : Queue A → ℕ
  free_slots q = q.next_pop_index + 2 ^ q.slot_bits - q.next_push_index

  -- `next` is `q` with `xs` behind its elements.
  pub record Appends (q next : Queue A) (xs : List A) : Type 0 where
    pub same_bits : next.slot_bits ≡ q.slot_bits
    pub same_pop : next.next_pop_index ≡ q.next_pop_index
    pub new_push : next.next_push_index ≡ q.next_push_index + length xs
    pub new_wf : Wf q.slot_bits next.version q.next_pop_index (q.next_push_index + length xs)
    pub new_values :
        values_of q.slot_bits next.value q.next_pop_index
          (q.next_push_index - q.next_pop_index + length xs)
        ≡ contents q ++ xs

  pub Appends-contents :
      {q next : Queue A} {xs : List A}
      → q.next_pop_index ≤ q.next_push_index
      → Appends q next xs
      → contents next ≡ contents q ++ xs
  Appends-contents {q} {next} {xs} le h =
      ap
        (λ b.
          values_of b next.value next.next_pop_index (next.next_push_index - next.next_pop_index))
        h.same_bits
      ∙ ap (λ p. values_of q.slot_bits next.value p (next.next_push_index - p)) h.same_pop
      ∙ ap (values_of q.slot_bits next.value q.next_pop_index) (omega (arith, h.new_push, le))
      ∙ h.new_values

  pub Appends-IsQuiet : {q next : Queue A} {xs : List A} → Appends q next xs → IsQuiet next
  Appends-IsQuiet {q} {next} {xs} h =
      subst (λ b. Wf b next.version next.next_pop_index next.next_push_index) (sym h.same_bits)
        (subst (λ p. Wf q.slot_bits next.version p next.next_push_index) (sym h.same_pop)
          (subst (Wf q.slot_bits next.version q.next_pop_index) (sym h.new_push) h.new_wf))

  pub Appends-refl : (q : Queue A) → IsQuiet q → Appends q q []
  Appends-refl q wf =
      let plus_zero : q.next_push_index ≡ q.next_push_index + 0 = omega arith in
      record {
        same_bits = refl;
        same_pop = refl;
        new_push = plus_zero;
        new_wf = subst (Wf q.slot_bits q.version q.next_pop_index) plus_zero wf;
        new_values =
            ap (values_of q.slot_bits q.value q.next_pop_index) (omega arith)
            ∙ sym (append-nil (contents q));
      }

  pub publish-Appends :
      (q : Queue A) (xs : List A)
      → IsQuiet q
      → q.next_push_index + length xs ≤ q.next_pop_index + 2 ^ q.slot_bits
      → InRound q.slot_bits q.next_push_index
          (length xs)
          (slot_index q.slot_bits q.next_push_index)
          (epoch q.slot_bits q.next_push_index)
      → q.next_push_index + length xs < u64_mod
      → Appends q
          (publish (set_next_push q (q.next_push_index + length xs)) q.next_push_index xs)
          xs
  publish-Appends q xs wf le h small = record {
    same_bits = refl;
    same_pop = refl;
    new_push = mod-eq_of_lt small;
    new_wf = set_versions-push (length xs) _ _ wf le h;
    new_values =
        copy_in-values q.slot_bits xs q.value q.next_pop_index
          (q.next_push_index - q.next_pop_index) (slot_index q.slot_bits q.next_push_index)
          (epoch q.slot_bits q.next_push_index) (omega (arith, le, wf.ordered))
          (subst
            (λ t.
              InRound q.slot_bits t (length xs) (slot_index q.slot_bits q.next_push_index)
                (epoch q.slot_bits q.next_push_index))
            {x = q.next_push_index} {y = q.next_pop_index + (q.next_push_index - q.next_pop_index)}
            (omega (arith, wf.ordered)) h);
  }

  pub Appends-trans :
      {q r t : Queue A} {xs ys : List A}
      → q.next_pop_index ≤ q.next_push_index
      → Appends q r xs
      → Appends r t ys
      → Appends q t (xs ++ ys)
  Appends-trans {q} {r} {t} {xs} {ys} le f g = record {
    same_bits = g.same_bits ∙ f.same_bits;
    same_pop = g.same_pop ∙ f.same_pop;
    new_push = omega (arith, g.new_push, f.new_push, length-append xs ys);
    new_wf = subst (Wf q.slot_bits t.version q.next_pop_index) last (
        subst (λ p. Wf q.slot_bits t.version p (r.next_push_index + length ys)) f.same_pop
          (subst (λ b. Wf b t.version r.next_pop_index (r.next_push_index + length ys)) f.same_bits
            g.new_wf));
    new_values =
        ap (values_of q.slot_bits t.value q.next_pop_index) number
        ∙ ap
            (λ b.
              values_of b t.value q.next_pop_index
                (r.next_push_index - r.next_pop_index + length ys))
            (sym f.same_bits)
        ∙ ap
            (λ p.
              values_of r.slot_bits t.value p (r.next_push_index - r.next_pop_index + length ys))
            (sym f.same_pop)
        ∙ g.new_values
        ∙ ap (λ zs. zs ++ ys) (Appends-contents le f)
        ∙ append_assoc (contents q) xs ys;
  }
    where
      last : r.next_push_index + length ys ≡ q.next_push_index + length (xs ++ ys)
      last = omega (arith, f.new_push, length-append xs ys)

      number :
          q.next_push_index - q.next_pop_index + length (xs ++ ys)
          ≡ r.next_push_index - r.next_pop_index + length ys
      number = omega (arith, f.new_push, f.same_pop, length-append xs ys, le)
