-- ===== src/BoundedQueue/Batch/Roundtrip.antt =====
-- A batch through an empty queue: `try_push_n`, then `try_pop_n`.
use fuxi_n.Prelude.{
  ◌+◌, ◌-◌, ◌*◌, ◌^◌, ◌≤◌, ◌<◌, ◌≡◌, sym, ap, ◌∙◌, u64_mod, List, [], ◌∷◌, ◌++◌, length,
  length-append, take, take-all, arith,
}
use mathlib.Core.List.{append-nil}
use fuxi_n.BoundedQueue.Batch.{Queue, capacity}
use fuxi_n.BoundedQueue.Batch.Calls.{try_push_n, try_pop_n}
use fuxi_n.BoundedQueue.Batch.Values.{length-values_of}
use fuxi_n.BoundedQueue.Batch.Appends.{IsQuiet, contents}
use fuxi_n.BoundedQueue.Batch.Push.{pushes-Appends, try_push_n-contents}
use fuxi_n.BoundedQueue.Batch.Pop.{try_pop_n-contents}

module _ {A : Type 0} where
  whole_prefix : (ys zs xs : List A) → xs ≡ ys ++ zs → length ys ≡ length xs → ys ≡ xs
  whole_prefix ys [] xs e len = sym (e ∙ append-nil ys)
  whole_prefix ys (z ∷ zs) xs e len =
      absurd (omega (arith, ap length e, length-append ys (z ∷ zs), len))

  -- What `try_push_n` puts into an empty quiet queue that has room for it, `try_pop_n` of as many
  -- elements gives back in the same order, when no indexes wrap.
  pub try_pop_n-try_push_n :
      (q : Queue A) (xs : List A)
      → IsQuiet q
      → contents q ≡ []
      → length xs ≤ capacity q
      → q.next_push_index + 2 * length xs + 3 * capacity q < u64_mod
      → (try_pop_n (try_push_n q xs).queue (length xs)).values ≡ xs
  try_pop_n-try_push_n q xs wf empty room small =
      let none : q.next_push_index - q.next_pop_index ≡ 0 =
        sym (
          length-values_of q.slot_bits q.value q.next_pop_index
            (q.next_push_index - q.next_pop_index))
        ∙ ap length empty in
      let small_push : q.next_push_index + length xs + 2 * 2 ^ q.slot_bits < u64_mod =
        omega (arith, small, room) in
      let (counted, quiet, filled) = try_push_n-contents q xs wf small_push in
      let app = pushes-Appends q xs wf small_push in
      let all : (try_push_n q xs).count ≡ length xs =
        omega (arith, counted, room, none, wf.ordered) in
      let full : contents (try_push_n q xs).queue ≡ xs =
        filled
        ∙ ap (λ ys. ys ++ take (try_push_n q xs).count xs) empty
        ∙ ap (λ n. take n xs) all
        ∙ take-all xs in
      let (popped, len, _, split) =
        try_pop_n-contents (try_push_n q xs).queue (length xs) quiet
          (omega (arith, app.same_pop, ap (λ b. 2 ^ b) app.same_bits, small, wf.ordered)) in
      whole_prefix (try_pop_n (try_push_n q xs).queue (length xs)).values
        (contents (try_pop_n (try_push_n q xs).queue (length xs)).queue) xs (sym full ∙ split)
        (omega (arith, len, popped, ap length full))
