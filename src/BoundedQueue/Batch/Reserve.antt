-- ===== src/BoundedQueue/Batch/Reserve.antt =====
-- `reserve_and_clear`: an empty queue of the capacity that was asked for.
use fuxi_n.Prelude.{ℕ, ◌+◌, ◌*◌, ◌^◌, ◌<◌, ◌≡◌, refl, sym, ap, u64_mod, [], ==_refl, ==_ne, arith}
use native.Mathlib.Decide.{ℕ_discrete}
use native.Mathlib.Nat.{div-eq_of_lt}
use fuxi_n.BoundedQueue.{push_side}
use fuxi_n.BoundedQueue.Batch.{Queue, capacity}
use fuxi_n.BoundedQueue.Batch.Calls.{reserve_and_clear}
use fuxi_n.BoundedQueue.Batch.Contents.{version_at, Wf}
use fuxi_n.BoundedQueue.Batch.Appends.{IsQuiet, contents}
use fuxi_n.BoundedQueue.Batch.Pop.{clear-contents}

pub Wf-reset : (bits : ℕ) → Wf bits (λ _. 0) 0 0
Wf-reset bits = record {
  ordered = omega arith;
  bounded = omega arith;
  full = λ t ge lt. absurd (omega (arith, lt));
  free = λ t ge lt. ap (version_at push_side) (sym (div-eq_of_lt (omega (arith, lt))));
}

module _ {A : Type 0} (bit_ceil ctzll : ℕ → ℕ) (initial : A)
    (ctzll-bit_ceil : (n : ℕ) → 2 ^ ctzll (bit_ceil n) ≡ bit_ceil n) where
  -- After `reserve_and_clear` a quiet queue whose indexes do not wrap is empty, and its capacity is
  -- the one asked for, up to a power of two; `__builtin_ctzll` is the logarithm of that power.
  pub reserve_and_clear-contents :
      (q : Queue A) (min_capacity : ℕ)
      → IsQuiet q
      → q.next_pop_index + 3 * 2 ^ q.slot_bits < u64_mod
      → IsQuiet (reserve_and_clear bit_ceil ctzll initial q min_capacity)
        × (contents (reserve_and_clear bit_ceil ctzll initial q min_capacity) ≡ [])
        × (capacity (reserve_and_clear bit_ceil ctzll initial q min_capacity)
            ≡ bit_ceil min_capacity)
  reserve_and_clear-contents q min_capacity wf small =
      elim (ℕ_discrete (bit_ceil min_capacity) (capacity q)) [
        | yes e ↦ rw (e, ==_refl (capacity q)) (clear-contents q wf small)
        | no ne ↦
            rw (==_ne (bit_ceil min_capacity) (capacity q) ne)
              (Wf-reset (ctzll (bit_ceil min_capacity)), refl, ctzll-bit_ceil min_capacity)
      ]
