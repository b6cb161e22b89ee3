-- ===== src/BoundedQueue/Batch/Ready.antt =====
-- How many slots are ready for a side, and what new versions make of them.
use fuxi_n.Prelude.{
  ℕ, zero, suc, ◌+◌, ◌-◌, ◌^◌, ◌≤◌, ◌<◌, ◌≡◌, ◌≢◌, ◌⊎◌, min, sym, ap, ◌∙◌, Array, update,
  update_self, update-ne, ==_refl, ==_ne, arith,
}
use mathlib.Core.Path.{subst}
use native.Mathlib.Decide.{dec_lt, ℕ_discrete}
use fuxi_n.BoundedQueue.{push_side, pop_side, slot_index}
use fuxi_n.BoundedQueue.Tickets.{epoch, pos, next_round-slot}
use fuxi_n.BoundedQueue.Batch.{match_count, set_versions}
use fuxi_n.BoundedQueue.Batch.Contents.{
  version_at, next_version, Wf, InRound, InRound-head, InRound-tail, window-injective,
}

-- The tickets of a side below `top` are ready, and the one at `top` is not.
module _ (bits : ℕ) (version : Array ℕ) (side low top : ℕ)
    (ready : (t : ℕ)
      → low ≤ t
      → t < top
      → version (slot_index bits t) ≡ version_at side (epoch bits t))
    (refused : version (slot_index bits top) ≢ version_at side (epoch bits top)) where
  match_count-min :
      (num i b s e : ℕ)
      → low ≤ i
      → i ≤ top
      → InRound bits i b s e
      → (num ≤ b) ⊎ (top < i + b)
      → match_count version (version_at side e) s num ≡ min num (top - i)
  match_count-min zero i b s e ge le h enough = omega arith
  match_count-min (suc num) i zero s e ge le h enough = absurd (ground (arith, enough))
  match_count-min (suc num) i (suc b) s e ge le h enough =
      let (slots, epochs) = InRound-head bits i b s e h in
      elim (dec_lt i top) [
        | yes lt ↦
            let here : version s ≡ version_at side e =
              ap version (sym slots) ∙ ready i ge lt ∙ ap (version_at side) epochs in
            let rest =
              match_count-min num (suc i) b (suc s) e (omega (arith, ge)) (omega (arith, lt))
                (InRound-tail bits i b s e h) (ground (arith, enough)) in
            rw (here, ==_refl (version_at side e)) (omega (arith, rest, lt))
        | no full ↦
            let at_top : i ≡ top = omega (arith, le, full) in
            let other : version s ≢ version_at side e = λ same. refused (
              ap (λ t. version (slot_index bits t)) (sym at_top)
              ∙ ap version slots
              ∙ same
              ∙ ap (version_at side) (sym epochs ∙ ap (epoch bits) at_top)) in
            rw (==_ne (version s) (version_at side e) other) (omega (arith, le, full))
      ]

module _ {bits : ℕ} {version : Array ℕ} {pop push : ℕ} (wf : Wf bits version pop push) where
  room : 0 < 2 ^ bits
  room = pos bits

  push-refused :
      version (slot_index bits (pop + 2 ^ bits))
      ≢ version_at push_side (epoch bits (pop + 2 ^ bits))
  push-refused e =
      let (slots, epochs) = next_round-slot bits pop in
      let at = ap version slots in
      elim (dec_lt pop push) [
        | yes lt ↦ omega (arith, e, wf.full pop (omega arith) lt, epochs, at)
        | no ge ↦
            omega (arith, e, wf.free pop (omega (arith, ge)) (omega (arith, room)), epochs, at)
      ]

  pop-refused : version (slot_index bits push) ≢ version_at pop_side (epoch bits push)
  pop-refused e = elim (dec_lt push (pop + 2 ^ bits)) [
    | yes lt ↦ omega (arith, e, wf.free push (omega arith) lt)
    | no ge ↦
        let at_end : push ≡ pop + 2 ^ bits = omega (arith, ge, wf.bounded) in
        let (slots, epochs) = next_round-slot bits pop in
        omega (
          arith,
          e,
          wf.full pop (omega arith) (omega (arith, at_end, room)),
          epochs,
          ap version slots,
          ap (λ t. version (slot_index bits t)) at_end,
          ap (epoch bits) at_end,
        )
  ]

  -- As many slots are ready for pushes as are free.
  pub push-ready :
      (num i b s e : ℕ)
      → push ≤ i
      → i ≤ pop + 2 ^ bits
      → InRound bits i b s e
      → (num ≤ b) ⊎ (pop + 2 ^ bits < i + b)
      → match_count version (version_at push_side e) s num ≡ min num (pop + 2 ^ bits - i)
  push-ready = match_count-min bits version push_side push (pop + 2 ^ bits) wf.free push-refused

  -- As many slots are ready for pops as are full.
  pub pop-ready :
      (num i b s e : ℕ)
      → pop ≤ i
      → i ≤ push
      → InRound bits i b s e
      → (num ≤ b) ⊎ (push < i + b)
      → match_count version (version_at pop_side e) s num ≡ min num (push - i)
  pop-ready = match_count-min bits version pop_side pop push wf.full pop-refused

  Wf-push :
      push < pop + 2 ^ bits
      → Wf bits
          (update version (slot_index bits push) (next_version push_side (epoch bits push)))
          pop
          (suc push)
  Wf-push lt = record {
    ordered = omega (arith, wf.ordered);
    bounded = lt;
    full = λ t t_ge t_lt. elim (ℕ_discrete t push) [
      | yes e ↦
          ap
            (λ u.
              update version (slot_index bits push) (next_version push_side (epoch bits push))
                (slot_index bits u))
            e
          ∙ update_self version (slot_index bits push) (next_version push_side (epoch bits push))
          ∙ omega (arith, ap (epoch bits) e)
      | no ne ↦
          update-ne version (slot_index bits push) (next_version push_side (epoch bits push))
            (slot_index bits t)
            (λ e.
              ne (
                window-injective bits t push e (omega (arith, t_lt, lt)) (omega (arith, t_ge, lt))))
          ∙ wf.full t t_ge (omega (arith, ne, t_lt))
    ];
    free = λ t t_ge t_lt.
        update-ne version (slot_index bits push) (next_version push_side (epoch bits push))
          (slot_index bits t)
          (λ e. omega (
            arith,
            window-injective bits t push e (omega (arith, t_lt, wf.ordered)) (omega (arith, t_ge)),
            t_ge,
          ))
        ∙ wf.free t (omega (arith, t_ge)) t_lt;
  }

  Wf-pop :
      pop < push
      → Wf bits
          (update version (slot_index bits pop) (next_version pop_side (epoch bits pop)))
          (suc pop)
          push
  Wf-pop lt = record {
    ordered = lt;
    bounded = omega (arith, wf.bounded);
    full = λ t t_ge t_lt.
        update-ne version (slot_index bits pop) (next_version pop_side (epoch bits pop))
          (slot_index bits t)
          (λ e. omega (
            arith,
            window-injective bits t pop e (omega (arith, t_lt, wf.bounded)) (omega (arith, t_ge)),
            t_ge,
          ))
        ∙ wf.full t (omega (arith, t_ge)) t_lt;
    free = λ t t_ge t_lt. elim (ℕ_discrete t (pop + 2 ^ bits)) [
      | yes e ↦
          let (slots, epochs) = next_round-slot bits pop in
          ap
            (λ u.
              update version (slot_index bits pop) (next_version pop_side (epoch bits pop))
                (slot_index bits u))
            e
          ∙ ap (update version (slot_index bits pop) (next_version pop_side (epoch bits pop))) slots
          ∙ update_self version (slot_index bits pop) (next_version pop_side (epoch bits pop))
          ∙ omega (arith, ap (epoch bits) e, epochs)
      | no ne ↦
          update-ne version (slot_index bits pop) (next_version pop_side (epoch bits pop))
            (slot_index bits t)
            (λ e. omega (
              arith,
              window-injective bits t pop e (omega (arith, t_lt, ne)) (omega (arith, t_ge, lt)),
              t_ge,
              lt,
            ))
          ∙ wf.free t t_ge (omega (arith, ne, t_lt))
    ];
  }

module _ {bits : ℕ} where
  pub set_versions-push :
      (num : ℕ) {version : Array ℕ} {pop push : ℕ} (s e : ℕ)
      → Wf bits version pop push
      → push + num ≤ pop + 2 ^ bits
      → InRound bits push num s e
      → Wf bits (set_versions version s num (next_version push_side e)) pop (push + num)
  set_versions-push zero {version} {pop} {push} s e wf le h =
      subst (Wf bits version pop) {x = push} {y = push + 0} (omega arith) wf
  set_versions-push (suc num) {version} {pop} {push} s e wf le h =
      let (slots, epochs) = InRound-head bits push num s e h in
      let one = Wf-push wf (omega (arith, le)) in
      let same =
        subst
          (λ t.
            Wf bits (update version t (next_version push_side (epoch bits push))) pop (suc push))
          slots one in
      let next =
        subst (λ t. Wf bits (update version s (next_version push_side t)) pop (suc push)) epochs
          same in
      subst (Wf bits (set_versions version s (suc num) (next_version push_side e)) pop)
        {x = suc push + num} {y = push + suc num} (omega arith)
        (set_versions-push num (suc s) e next (omega (arith, le))
          (InRound-tail bits push num s e h))

  pub set_versions-pop :
      (num : ℕ) {version : Array ℕ} {pop push : ℕ} (s e : ℕ)
      → Wf bits version pop push
      → pop + num ≤ push
      → InRound bits pop num s e
      → Wf bits (set_versions version s num (next_version pop_side e)) (pop + num) push
  set_versions-pop zero {version} {pop} {push} s e wf le h =
      subst (λ t. Wf bits version t push) {x = pop} {y = pop + 0} (omega arith) wf
  set_versions-pop (suc num) {version} {pop} {push} s e wf le h =
      let (slots, epochs) = InRound-head bits pop num s e h in
      let one = Wf-pop wf (omega (arith, le)) in
      let same =
        subst
          (λ t. Wf bits (update version t (next_version pop_side (epoch bits pop))) (suc pop) push)
          slots one in
      let next =
        subst (λ t. Wf bits (update version s (next_version pop_side t)) (suc pop) push) epochs
          same in
      subst (λ t. Wf bits (set_versions version s (suc num) (next_version pop_side e)) t push)
        {x = suc pop + num} {y = pop + suc num} (omega arith)
        (set_versions-pop num (suc s) e next (omega (arith, le)) (InRound-tail bits pop num s e h))
