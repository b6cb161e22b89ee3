-- ===== src/EventQueue/Tries.antt =====
-- Histories of `TryPush` and `TryPop` of a `FlatSignalQueue`.
use fuxi_n.Prelude.{
  Bool, true, false, ℕ, suc, ◌+◌, ◌-◌, ◌%◌, ◌^◌, ◌≤◌, ◌<◌, ◌≡◌, ◌⊎◌, inl, inr, refl, ap, ◌∙◌,
  u32_mod, u64_mod, ltb, lt→ltb, ge→ltb, le→leb, gt→leb, if◌then◌else◌, Option, none, some, List,
  [], ◌∷◌, ◌++◌, length, length-append, arith,
}
use mathlib.Core.Path.{subst}
use native.Mathlib.Decide.{dec_lt}
use fuxi_n.EventQueue.{
  Operations, Laws, FlatSignalQueue, or_else, push_until, pop_until, try_push_event, try_pop_event,
  added, taken, size_of_int, is_less_than_one,
}

is_less_than_one-pos : (word : ℕ) → 0 < word → word < 2 ^ 31 → is_less_than_one word ≡ false
is_less_than_one-pos word pos lt = ground arith

module _ {Q : Type 0} (ops : Operations Q) (laws : Laws ops) where
  -- The events, of which `available_size_` counts no fewer than there are
  pub record IsCounted (n num c : ℕ) (s : FlatSignalQueue Q) : Type 0 where
    pub bounded : s.queue_capacity ≡ num
    pub counted : s.available_size ≡ c
    pub held : length (laws.contents s.ev_queue) ≤ c
    pub enough : c ≤ num
    pub slots : num ≤ laws.capacity s.ev_queue
    pub few : num < 2 ^ 31
    pub ready : laws.IsReady n s.ev_queue

  pub IsCounted-less :
      {n num c : ℕ} {s : FlatSignalQueue Q} → IsCounted (suc n) num c s → IsCounted n num c s
  IsCounted-less {n} {num} {c} {s} is = record {
    bounded = is.bounded;
    counted = is.counted;
    held = is.held;
    enough = is.enough;
    slots = is.slots;
    few = is.few;
    ready = laws.less n s.ev_queue is.ready;
  }

  module _ {n num c : ℕ} {s : FlatSignalQueue Q} (is : IsCounted (suc n) num c s) where
    size_of_available : size_of_int s.available_size ≡ c
    size_of_available =
        ap size_of_int is.counted
        ∙ ap (λ b. if b then c else c + (u64_mod - u32_mod))
            (lt→ltb c (2 ^ 31) (omega (arith, is.enough, is.few)))

    pub try_push-full : (fuel v : ℕ) → c ≡ num → try_push_event ops fuel s v ≡ some (false, s)
    try_push-full fuel v full =
        ap (λ b. if b then some (false, again) else added ops s (push_until ops fuel s.ev_queue v))
          (le→leb s.queue_capacity (size_of_int s.available_size)
            (omega (arith, size_of_available, is.bounded, full)))
        ∙ ap (λ t. some (false, record s { available_size = t }))
            {x = ((s.available_size + 1) % u32_mod + (u32_mod - 1)) % u32_mod}
            {y = s.available_size} (omega (arith, is.counted, is.enough, is.few))
      where
        again : FlatSignalQueue Q
        again = record s {
          available_size = ((s.available_size + 1) % u32_mod + (u32_mod - 1)) % u32_mod;
        }

    pub try_push-room :
        (fuel v : ℕ)
        → c < num
        → (s' : FlatSignalQueue Q) × (try_push_event ops (suc fuel) s v ≡ some (true, s'))
          × IsCounted n num (c + 1) s'
          × (laws.contents s'.ev_queue ≡ laws.contents s.ev_queue ++ (v ∷ []))
    try_push-room fuel v lt =
        let (q, pushed, queued, kept, later) =
          laws.pushed n s.ev_queue v is.ready (omega (arith, is.held, is.slots, lt)) in
        (
          record s { available_size = (s.available_size + 1) % u32_mod; ev_queue = q },
          ap
                (λ b.
                  if b
                  then some (false, again)
                  else added ops s (push_until ops (suc fuel) s.ev_queue v))
                (gt→leb s.queue_capacity (size_of_int s.available_size)
                  (omega (arith, size_of_available, is.bounded, lt)))
              ∙ ap (λ o. added ops s (or_else o (push_until ops fuel s.ev_queue v))) pushed,
          record {
            bounded = is.bounded;
            counted = omega (arith, is.counted, is.few, lt);
            held = omega (
              arith,
              ap length queued,
              length-append (laws.contents s.ev_queue) (v ∷ []),
              is.held,
            );
            enough = omega (arith, lt);
            slots = omega (arith, kept, is.slots);
            few = is.few;
            ready = later;
          },
          queued,
        )
      where
        again : FlatSignalQueue Q
        again = record s {
          available_size = ((s.available_size + 1) % u32_mod + (u32_mod - 1)) % u32_mod;
        }

    try_pop-empty : (fuel : ℕ) → c ≡ 0 → try_pop_event ops fuel s ≡ some (none, s)
    try_pop-empty fuel none_left =
        ap (λ b. if b then some (none, again) else taken ops s (pop_until ops fuel s.ev_queue))
          (ap is_less_than_one {x = s.available_size} {y = 0}
            (omega (arith, is.counted, none_left)))
        ∙ ap (λ t. some (none, record s { available_size = t }))
            {x = ((s.available_size + (u32_mod - 1)) % u32_mod + 1) % u32_mod}
            {y = s.available_size} (omega (arith, is.counted, is.enough, is.few))
      where
        again : FlatSignalQueue Q
        again = record s {
          available_size = ((s.available_size + (u32_mod - 1)) % u32_mod + 1) % u32_mod;
        }

    try_pop-first :
        (fuel v : ℕ) (vs : List ℕ)
        → c ≡ suc (length vs)
        → laws.contents s.ev_queue ≡ v ∷ vs
        → (s' : FlatSignalQueue Q) × (try_pop_event ops (suc fuel) s ≡ some (some v, s'))
          × IsCounted n num (length vs) s'
          × (laws.contents s'.ev_queue ≡ vs)
    try_pop-first fuel v vs count at =
        let (q, popped, rest, kept, later) = laws.try_popped n s.ev_queue v vs is.ready at in
        (
          record s { available_size = (s.available_size + (u32_mod - 1)) % u32_mod; ev_queue = q },
          ap
                (λ b.
                  if b
                  then some (none, again)
                  else taken ops s (pop_until ops (suc fuel) s.ev_queue))
                (is_less_than_one-pos s.available_size (omega (arith, is.counted, count))
                  (omega (arith, is.counted, is.enough, is.few)))
              ∙ ap (λ o. taken ops s (or_else o (pop_until ops fuel s.ev_queue))) popped,
          record {
            bounded = is.bounded;
            counted = omega (arith, is.counted, count, is.enough, is.few);
            held = omega (arith, ap length rest);
            enough = omega (arith, count, is.enough);
            slots = omega (arith, kept, is.slots);
            few = is.few;
            ready = later;
          },
          rest,
        )
      where
        again : FlatSignalQueue Q
        again = record s {
          available_size = ((s.available_size + (u32_mod - 1)) % u32_mod + 1) % u32_mod;
        }

pub List-cases : (xs : List ℕ) → (xs ≡ []) ⊎ ((v : ℕ) × (vs : List ℕ) × (xs ≡ v ∷ vs))
List-cases [] = inl refl
List-cases (v ∷ vs) = inr (v, vs, refl)

-- A call of `TryPush` or of `TryPop`
pub data Call : Type 0 where
  pushes : ℕ → Call
  pops : Call

-- What a call answers
pub data Answer : Type 0 where
  pushed : Bool → Answer
  popped : Option ℕ → Answer

module _ {Q : Type 0} (ops : Operations Q) where
  abbrev pub answered :
      {A : Type 0}
      → (A → Answer)
      → Option (A × FlatSignalQueue Q)
      → Option (Answer × FlatSignalQueue Q)
  answered f none = none
  answered f (some (a, s)) = some (f a, s)

  abbrev pub call : ℕ → FlatSignalQueue Q → Call → Option (Answer × FlatSignalQueue Q)
  call fuel s (pushes v) = answered (λ b. pushed b) (try_push_event ops fuel s v)
  call fuel s pops = answered (λ o. popped o) (try_pop_event ops fuel s)

-- A queue of at most `num` values, first in, first out
abbrev pub ideal : ℕ → List ℕ → Call → Answer × List ℕ
ideal num vs (pushes v) =
    if ltb (length vs) num then (pushed true, vs ++ (v ∷ [])) else (pushed false, vs)
ideal num [] pops = (popped none, [])
ideal num (v ∷ vs) pops = (popped (some v), vs)

module _ {Q : Type 0} (ops : Operations Q) (laws : Laws ops) where
  -- `TryPush` and `TryPop` act as those of a queue of at most `num` values.
  pub call-ideal :
      (fuel n num : ℕ) (s : FlatSignalQueue Q) (c : Call)
      → IsCounted ops laws (suc n) num (length (laws.contents s.ev_queue)) s
      → (s' : FlatSignalQueue Q) × (call ops (suc fuel) s c
          ≡ some ((ideal num (laws.contents s.ev_queue) c).0, s'))
        × IsCounted ops laws n num (length (laws.contents s'.ev_queue)) s'
        × (laws.contents s'.ev_queue ≡ (ideal num (laws.contents s.ev_queue) c).1)
  call-ideal fuel n num s (pushes v) is = elim (dec_lt (length (laws.contents s.ev_queue)) num) [
    | yes lt ↦
        let (s', done, next, queued) = try_push-room ops laws is fuel v lt in
        rw (lt→ltb (length (laws.contents s.ev_queue)) num lt) (
          s',
          ap (answered ops (λ b. pushed b)) done,
          subst (λ t. IsCounted ops laws n num t s') {x = length (laws.contents s.ev_queue) + 1}
              {y = length (laws.contents s'.ev_queue)}
              (omega (arith, ap length queued, length-append (laws.contents s.ev_queue) (v ∷ [])))
              next,
          queued,
        )
    | no ge ↦ rw (ge→ltb (length (laws.contents s.ev_queue)) num (omega (arith, ge))) (
      s,
      ap (answered ops (λ b. pushed b))
          (try_push-full ops laws is (suc fuel) v (omega (arith, ge, is.enough))),
      IsCounted-less ops laws is,
      refl,
    )
  ]
  call-ideal fuel n num s pops is = elim (List-cases (laws.contents s.ev_queue)) [
    | inl none_left ↦ rw none_left (
      s,
      ap (answered ops (λ o. popped o))
          (try_pop-empty ops laws is (suc fuel) (ap length none_left)),
      IsCounted-less ops laws is,
      none_left,
    )
    | inr (v, vs, at) ↦
        let (s', done, next, rest) = try_pop-first ops laws is fuel v vs (ap length at) at in
        rw at (
          s',
          ap (answered ops (λ o. popped o)) done,
          subst (λ t. IsCounted ops laws n num t s') {x = length vs}
              {y = length (laws.contents s'.ev_queue)} (omega (arith, ap length rest)) next,
          rest,
        )
  ]
