-- ===== src/Segment/Lifetime.antt =====
-- Who keeps a segment, and when it is removed.
use fuxi_n.Prelude.{
  Bool, Bool-cases, true, false, ℕ, zero, suc, ◌+◌, ◌*◌, ◌≤◌, ◌<◌, ◌≡◌, ◌⊎◌, inl, inr, refl, ap,
  ◌∙◌, u32_mod, ◌==◌, ==_iff, update, total, total-update, total-ge, total-le, total-eq-zero,
  Option, none, some, List, [], ◌∷◌, arith,
}
use native.Mathlib.Decide.{dec_lt}
use fuxi_n.Segment.{
  Shared, Handle, Opening, refused, created, opened, wait_created, init_post_open, increase,
  decrease, remove, with_handle, Handles, Call, initializes, destroys, call, run, new_handles,
}

-- A handle that is open counts one.
abbrev bit : Bool → ℕ
bit true = 1
bit false = 0

abbrev weight : Handle → ℕ
weight g = bit g.inited

-- A handle that was never opened
abbrev pub IsUnopened : Handle → Type 0
IsUnopened g = (g.inited ≡ false) × (g.open_flag ≡ false) × (g.create_flag ≡ false)

-- What the system answers: `IPC_EXCL` creates a segment only where there is none, and only one that
-- exists can be opened.
abbrev pub IsPossible : Shared → Opening → Type 0
IsPossible s refused = Unit
IsPossible s created = s.exists ≡ false
IsPossible s opened = s.exists ≡ true

-- Each handle is opened at most once.
abbrev pub IsAllowed : ℕ → ℕ → Handles → List Call → Type 0
IsAllowed fuel n h [] = Unit
IsAllowed fuel n h (initializes a opening polls ∷ cs) =
    (a < n)
    × (((h.handles a).inited ≡ true) ⊎ (IsUnopened (h.handles a) × IsPossible h.shared opening))
    × IsAllowed fuel n (call fuel h (initializes a opening polls)) cs
IsAllowed fuel n h (destroys a ∷ cs) = (a < n) × IsAllowed fuel n (call fuel h (destroys a)) cs

-- The reference count is the number of open handles, and the segment is there just while it is not 0.
pub record IsCounted (n : ℕ) (h : Handles) : Type 0 where
  pub counted : total weight n h.handles ≡ h.shared.reference_count
  pub lasting :
      ((h.shared.exists ≡ false) × (h.shared.reference_count ≡ 0))
      ⊎ ((h.shared.exists ≡ true) × (0 < h.shared.reference_count))

clash : (b : Bool) → b ≡ false → b ≡ true → ⊥
clash b e e' = cc

more_left : (x : ℕ) → (x == 0) ≡ false → 0 < x
more_left x e = ground arith

bit-le : (b : Bool) → bit b ≤ 1
bit-le true = omega arith
bit-le false = omega arith

weight-le : (g : Handle) → weight g ≤ 1
weight-le g = bit-le g.inited

module _ {n a : ℕ} {h : Handles} (few : n < u32_mod) (is : IsCounted n h) (lt : a < n) where
  -- The handle becomes `g`.
  IsCounted-update :
      (g : Handle) (s : Shared)
      → s.reference_count + weight (h.handles a) ≡ h.shared.reference_count + weight g
      → ((s.exists ≡ false) × (s.reference_count ≡ 0))
        ⊎ ((s.exists ≡ true) × (0 < s.reference_count))
      → IsCounted n (with_handle h a (g, s))
  IsCounted-update g s e lasting = record {
    counted = omega (arith, total-update weight n h.handles a g lt, is.counted, e);
    lasting = lasting;
  }

  room : (h.handles a).inited ≡ false → h.shared.reference_count + 1 < u32_mod
  room closed = omega (
    arith,
    total-update weight n h.handles a (record (h.handles a) { inited = true }) lt,
    total-le weight weight-le n (update h.handles a (record (h.handles a) { inited = true })),
    ap bit closed,
    is.counted,
    few,
  )

  held : (h.handles a).inited ≡ true → 0 < h.shared.reference_count
  held up = omega (arith, total-ge weight n h.handles a lt, ap bit up, is.counted)

  below : h.shared.reference_count < u32_mod
  below = omega (arith, total-le weight weight-le n h.handles, is.counted, few)

  init_post_open-IsCounted :
      (found : Option Bool) (g : Handle)
      → (h.handles a).inited ≡ false
      → h.shared.exists ≡ true
      → let r = init_post_open found h.shared in
        IsCounted n (with_handle h a (record g { inited = r.0 }, r.1))
  init_post_open-IsCounted none g closed there =
      IsCounted-update (record g { inited = false }) h.shared (omega (arith, ap bit closed))
        is.lasting
  init_post_open-IsCounted (some false) g closed there =
      IsCounted-update (record g { inited = false }) h.shared (omega (arith, ap bit closed))
        is.lasting
  init_post_open-IsCounted (some true) g closed there =
      IsCounted-update (record g { inited = true }) (increase h.shared)
        (omega (arith, ap bit closed, room closed)) (inr (there, omega (arith, room closed)))

  absent :
      h.shared.exists ≡ false
      → ((h.shared.exists ≡ false) × (h.shared.reference_count ≡ 0))
        ⊎ ((h.shared.exists ≡ true) × (0 < h.shared.reference_count))
      → h.shared.reference_count ≡ 0
  absent gone (inl (e, zero_count)) = zero_count
  absent gone (inr (e, more)) = absurd (clash h.shared.exists gone e)

  initialize-up :
      (fuel : ℕ) (opening : Opening) (polls : ℕ → Bool)
      → (h.handles a).inited ≡ true
      → IsCounted n (call fuel h (initializes a opening polls))
  initialize-up fuel opening polls up = rw up (
      IsCounted-update (record (h.handles a) { inited = true }) h.shared (omega (arith, ap bit up))
        is.lasting)

  initialize-unopened :
      (fuel : ℕ) (opening : Opening) (polls : ℕ → Bool)
      → IsUnopened (h.handles a)
      → IsPossible h.shared opening
      → IsCounted n (call fuel h (initializes a opening polls))
  initialize-unopened fuel refused polls (closed, unopened, own) possible =
      rw (closed, unopened)
        (IsCounted-update (record (h.handles a) { inited = false; open_flag = false }) h.shared
          (omega (arith, ap bit closed)) is.lasting)
  initialize-unopened fuel created polls (closed, unopened, own) possible =
      rw (closed, unopened)
        (IsCounted-update (record { inited = true; open_flag = true; create_flag = true })
          (record { exists = true; state_init = true; reference_count = 1 })
          (omega (arith, ap bit closed, absent possible is.lasting)) (inr (refl, omega arith)))
  initialize-unopened fuel opened polls (closed, unopened, own) possible =
      rw (closed, unopened, own)
        (init_post_open-IsCounted (wait_created fuel polls 0 0)
          (record { inited = false; open_flag = true; create_flag = false }) closed possible)

  exists_held :
      0 < h.shared.reference_count
      → ((h.shared.exists ≡ false) × (h.shared.reference_count ≡ 0))
        ⊎ ((h.shared.exists ≡ true) × (0 < h.shared.reference_count))
      → h.shared.exists ≡ true
  exists_held more (inl (e, zero_count)) = absurd (omega (arith, more, zero_count))
  exists_held more (inr (e, some_count)) = e

  destroy-IsCounted : (fuel : ℕ) → IsCounted n (call fuel h (destroys a))
  destroy-IsCounted fuel = elim (Bool-cases (h.handles a).inited) [
    | inr closed ↦ rw closed (
        IsCounted-update (record (h.handles a) { inited = false }) h.shared
          (omega (arith, ap bit closed)) is.lasting)
    | inl up ↦ elim (Bool-cases ((decrease h.shared).reference_count == 0)) [
      | inl last ↦
          rw (up, last)
            (IsCounted-update (record (h.handles a) { inited = false }) (remove (decrease h.shared))
              (omega (arith, ap bit up, held up, below))
              (inl (refl, (==_iff (decrease h.shared).reference_count 0).0 last)))
      | inr more ↦
          rw (up, more)
            (IsCounted-update (record (h.handles a) { inited = false }) (decrease h.shared)
              (omega (arith, ap bit up, held up, below))
              (inr (
                exists_held (held up) is.lasting,
                more_left (decrease h.shared).reference_count more,
              )))
    ]
  ]

run_from :
    (fuel n : ℕ) (h : Handles) (calls : List Call)
    → n < u32_mod
    → IsCounted n h
    → IsAllowed fuel n h calls
    → IsCounted n (run fuel h calls)
run_from fuel n h [] few is allowed = is
run_from fuel n h (initializes a opening polls ∷ cs) few is (lt, inl up, allowed) =
    run_from fuel n (call fuel h (initializes a opening polls)) cs few
      (initialize-up few is lt fuel opening polls up) allowed
run_from fuel n h (initializes a opening polls ∷ cs) few is (lt, inr (new, possible), allowed) =
    run_from fuel n (call fuel h (initializes a opening polls)) cs few
      (initialize-unopened few is lt fuel opening polls new possible) allowed
run_from fuel n h (destroys a ∷ cs) few is (lt, allowed) =
    run_from fuel n (call fuel h (destroys a)) cs few (destroy-IsCounted few is lt fuel) allowed

-- Over any history that the system allows, of fewer than 2^32 handles of which none is initialized
-- again once it was opened, unless it is still initialized: the reference count is the number of open
-- handles, and the segment exists just while a handle is open. So it is removed by the handle that is
-- destroyed last, and by no other.
pub run-IsCounted :
    (fuel n : ℕ) (calls : List Call)
    → n < u32_mod
    → IsAllowed fuel n new_handles calls
    → IsCounted n (run fuel new_handles calls)
run-IsCounted fuel n calls few allowed =
    run_from fuel n new_handles calls few
      (record {
        counted = total-eq-zero weight n new_handles.handles (λ i. refl);
        lasting = inl (refl, refl);
      })
      allowed

-- A handle that created its segment, and is destroyed and then initialized again while other handles
-- are counted: the segment still exists, and whatever the system answers the count is then 1, so
-- that the others are not counted any more.
pub initialize-destroy :
    (fuel : ℕ) (opening : Opening) (polls : ℕ → Bool) (h : Handles) (a : ℕ)
    → (h.handles a).inited ≡ true
    → (h.handles a).open_flag ≡ true
    → (h.handles a).create_flag ≡ true
    → 1 < h.shared.reference_count
    → h.shared.reference_count < u32_mod
    → let h' = run fuel h (destroys a ∷ initializes a opening polls ∷ []) in
      (h'.shared.reference_count ≡ 1)
      × (h'.shared.exists ≡ h.shared.exists)
      × ((h'.handles a).inited ≡ true)
initialize-destroy fuel opening polls h a up has_opened own others few =
    ground (arith, up, has_opened, own, others, few)

module _ (polls : ℕ → Bool) where
  wait-last :
      (fuel i retry : ℕ)
      → polls i ≡ false
      → 2000 < retry + 2
      → wait_created (suc fuel) polls i retry ≡ some false
  wait-last fuel i retry off late = ground arith

  wait-next :
      (fuel i retry : ℕ)
      → polls i ≡ false
      → retry + 2 ≤ 2000
      → wait_created (suc fuel) polls i retry ≡ wait_created fuel polls (i + 1) (retry + 2)
  wait-next fuel i retry off early = ground arith

  gives_up_from :
      (fuel i retry : ℕ)
      → ((j : ℕ) → polls j ≡ false)
      → 2000 < retry + 2 * fuel
      → retry ≤ 2000
      → wait_created fuel polls i retry ≡ some false
  gives_up_from zero i retry never enough le = absurd (omega (arith, enough, le))
  gives_up_from (suc fuel) i retry never enough le = elim (dec_lt 2000 (retry + 2)) [
    | yes late ↦ wait-last fuel i retry (never i) late
    | no early ↦
        wait-next fuel i retry (never i) (omega (arith, early))
        ∙ gives_up_from fuel (i + 1) (retry + 2) never (omega (arith, enough))
            (omega (arith, early))
  ]

-- The wait of an opener that never finds the segment finished ends within 1001 reads, and fails.
pub wait_created_gives_up :
    (fuel : ℕ) (polls : ℕ → Bool)
    → 1000 < fuel
    → ((i : ℕ) → polls i ≡ false)
    → wait_created fuel polls 0 0 ≡ some false
wait_created_gives_up fuel polls enough never =
    gives_up_from polls fuel 0 0 never (omega (arith, enough)) (omega arith)
