-- ===== src/EventQueue/Pushes.antt =====
-- Histories of `Push` and `Pop` of a `ProcessState`.
use fuxi_n.Prelude.{
  Bool, true, false, ℕ, suc, ◌+◌, ◌%◌, ◌≤◌, ◌≡◌, inl, inr, refl, sym, ap, ◌∙◌, u32_mod,
  if◌then◌else◌, tally, ==_refl, ==_ne, update, update_self, update-ne, Array, Option, none, some,
  List, [], ◌∷◌, length, arith,
}
use mathlib.Core.Path.{subst}
use native.Mathlib.Decide.{dec_lt, ℕ_discrete}
use fuxi_n.EventQueue.{
  Operations, Laws, Process, push_object, pop_object, queued, unqueued, removed,
}
use fuxi_n.EventQueue.Tries.{IsCounted, IsCounted-less, try_push-full, try_push-room, List-cases}

-- A call of `Push` or of `Pop`
pub data Call : Type 0 where
  pushes : (object : ℕ) → Call
  pops : Call

-- A process, and how many events were queued so far
pub record History (Q : Type 0) : Type 0 where
  pub process : Process Q
  pub accepted : ℕ

module _ {Q : Type 0} (ops : Operations Q) where
  abbrev pub accept : ℕ → Option (Bool × Process Q) → Option (History Q)
  accept before none = none
  accept before (some (true, p)) = some (record { process = p; accepted = before + 1 })
  accept before (some (false, p)) = some (record { process = p; accepted = before })

  -- A `Pop` of an empty queue waits, which leaves the process as it is.
  abbrev pub leave : History Q → Option (ℕ × Process Q) → History Q
  leave h none = h
  leave h (some (object, p)) = record h { process = p }

  abbrev pub step : ℕ → History Q → Call → Option (History Q)
  step fuel h (pushes object) = accept h.accepted (push_object ops fuel h.process object)
  step fuel h pops = some (leave h (pop_object ops h.process))

  abbrev pub continued : Option (History Q) → (History Q → Option (History Q)) → Option (History Q)
  continued none rest = none
  continued (some h) rest = rest h

  abbrev pub run : ℕ → History Q → List Call → Option (History Q)
  run fuel h [] = some h
  run fuel h (c ∷ cs) = continued (step fuel h c) (λ h'. run fuel h' cs)

-- How often an object was pushed
abbrev pub pushes_of : ℕ → List Call → ℕ
pushes_of object [] = 0
pushes_of object (pushes other ∷ cs) = tally object other + pushes_of object cs
pushes_of object (pops ∷ cs) = pushes_of object cs

pushes_of-cons :
    (object : ℕ) (c : Call) (cs : List Call)
    → pushes_of object (c ∷ cs) ≡ pushes_of object (c ∷ []) + pushes_of object cs
pushes_of-cons object (pushes other) cs = omega arith
pushes_of-cons object pops cs = omega arith

-- The count of an object after a push of another, or of its own
count-update :
    (cnt : Array ℕ) (other object : ℕ)
    → update cnt other ((cnt other + 1) % u32_mod) object % u32_mod
      ≡ (cnt object + (tally object other + 0)) % u32_mod
count-update cnt other object = elim (ℕ_discrete object other) [
  | yes e ↦
      subst
        (λ t.
          update cnt other ((cnt other + 1) % u32_mod) t % u32_mod
          ≡ (cnt t + (tally t other + 0)) % u32_mod)
        (sym e)
        (omega (
          arith,
          update_self cnt other ((cnt other + 1) % u32_mod),
          ap {B = ℕ} (λ b. if b then 1 else 0) (==_refl other),
        ))
  | no ne ↦ omega (
    arith,
    update-ne cnt other ((cnt other + 1) % u32_mod) object ne,
    ap {B = ℕ} (λ b. if b then 1 else 0) (==_ne other object (λ e. ne (sym e))),
  )
]

module _ {Q : Type 0} (ops : Operations Q) (laws : Laws ops) where
  -- After a `Pop` that gave `o`
  abbrev after : History Q → Option (ℕ × Q) → History Q
  after h o =
      leave ops h (unqueued ops h.process (removed ops h.process.state.reader_event_queue o))

  abbrev IsPopped : ℕ → ℕ → History Q → Option (ℕ × Q) → Type 0
  IsPopped n num h o =
      IsCounted ops laws n num (after h o).accepted (after h o).process.state.reader_event_queue
      × ((after h o).process.reference_cnt ≡ h.process.reference_cnt)

  pop-IsPopped :
      (n num : ℕ) (h : History Q)
      → IsCounted ops laws (suc n) num h.accepted h.process.state.reader_event_queue
      → IsPopped n num h (ops.pop h.process.state.reader_event_queue.ev_queue)
  pop-IsPopped n num h is =
      let q = h.process.state.reader_event_queue.ev_queue in
      elim (List-cases (laws.contents q)) [
        | inl none_left ↦
            subst (IsPopped n num h) (sym (laws.empty (suc n) q is.ready none_left))
              (IsCounted-less ops laws is, refl)
        | inr (v, vs, at) ↦
            let (q', popped, rest, kept, later) = laws.popped n q v vs is.ready at in
            subst (IsPopped n num h) (sym popped) (
              record {
                bounded = is.bounded;
                counted = is.counted;
                held = omega (arith, is.held, ap length at, ap length rest);
                enough = is.enough;
                slots = omega (arith, is.slots, kept);
                few = is.few;
                ready = later;
              },
              refl,
            )
      ]

  step-IsCounted :
      (fuel n num object : ℕ) (h : History Q) (c : Call)
      → IsCounted ops laws (suc n) num h.accepted h.process.state.reader_event_queue
      → (h' : History Q) × (step ops (suc fuel) h c ≡ some h')
        × IsCounted ops laws n num h'.accepted h'.process.state.reader_event_queue
        × (h'.process.reference_cnt object % u32_mod
            ≡ (h.process.reference_cnt object + pushes_of object (c ∷ [])) % u32_mod)
  step-IsCounted fuel n num object h (pushes other) is = elim (dec_lt h.accepted num) [
    | yes lt ↦
        let (q, done, next, _) = try_push-room ops laws is fuel other lt in
        (
          _,
          ap (λ o. accept ops h.accepted (queued ops h.process other o)) done,
          next,
          count-update h.process.reference_cnt other object,
        )
    | no ge ↦
        let full = try_push-full ops laws is (suc fuel) other (omega (arith, ge, is.enough)) in
        (
          _,
          ap (λ o. accept ops h.accepted (queued ops h.process other o)) full,
          IsCounted-less ops laws is,
          count-update h.process.reference_cnt other object,
        )
  ]
  step-IsCounted fuel n num object h pops is =
      let (next, same) = pop-IsPopped n num h is in
      (_, refl, next, omega (arith, ap (λ f. f object) same))

  -- Over any history of `Push` and `Pop` at most `num` events are queued in all.
  pub run-bounded :
      (fuel num object : ℕ) (h : History Q) (cs : List Call)
      → IsCounted ops laws (length cs) num h.accepted h.process.state.reader_event_queue
      → (h' : History Q) × (run ops (suc fuel) h cs ≡ some h')
        × (h'.accepted ≤ num)
        × (h'.process.reference_cnt object % u32_mod
            ≡ (h.process.reference_cnt object + pushes_of object cs) % u32_mod)
  run-bounded fuel num object h [] is = (h, refl, is.enough, omega arith)
  run-bounded fuel num object h (c ∷ cs) is =
      let (h1, first, next, count) = step-IsCounted fuel (length cs) num object h c is in
      let (h2, rest, most, counts) = run-bounded fuel num object h1 cs next in
      (
        h2,
        ap (λ o. continued ops o (λ h'. run ops (suc fuel) h' cs)) first ∙ rest,
        most,
        omega (arith, count, counts, pushes_of-cons object c cs),
      )
