-- ===== src/BoundedQueue/Futex/Wakeups.antt =====
-- No wake-up is lost.
use fuxi_n.Prelude.{
  moved, ℕ, ◌+◌, ◌-◌, ◌%◌, ◌≢◌, ◌≡◌, ◌⊎◌, inl, inr, refl, sym, ap, ◌∙◌, u16_mod, Array, update,
  arith,
}
use mathlib.Core.Path.{subst}
use fuxi_n.BoundedQueue.Futex.{
  uint16_max, Point, outside, entered, looping, marked, asleep, woken, published, found, waking,
  Wait, Publish, enters, passes, blocks, marks, fails, fails_in_time, goes_on, sleeps, stays_awake,
  wakes, leaves, repeats, stores, no_waiters, overtaken, finds, clears, too_late, exchanges,
  exchanges_mark, Futex, wake, waits, publishes, wakes_all, Reach, start, later,
}
use fuxi_n.BoundedQueue.Futex.Sleepers.{Fine, IsAsleep, WillWake, Inv, Inv-stay, Inv-change}

module _ {word : ℕ} {point : Array Point} (inv : Inv word point) (a : ℕ) where
  nobody : (c : ℕ) → ⊥ → word ≡ c
  nobody c s = absurd s

  -- A match on `Wait` or `Publish` needs a variable for the point of the thread.
  Wait-Inv :
      {w' : ℕ} {p p' : Point}
      → point a ≡ p
      → Fine p
      → Wait word p w' p'
      → Inv w' (update point a p')
  Wait-Inv here own (enters {expected}) =
      Inv-stay inv a outside (entered expected) here tt nobody (λ w. w) (λ w. absurd w)
  Wait-Inv here own (passes {expected} e) =
      Inv-stay inv a (entered expected) outside here tt nobody (λ w. w) (λ w. absurd w)
  Wait-Inv here own (blocks {expected} ne) =
      Inv-stay inv a (entered expected) (looping expected word) here ne nobody (λ w. w)
        (λ w. absurd w)
  Wait-Inv here own (marks {expected} {current} le e) =
      Inv-change inv a (looping expected current) (marked expected (current + uint16_max + 1))
        (current + uint16_max + 1) here (omega (arith, le), λ same. own (omega (arith, same)))
        (λ c s. s) (λ w. w) (inr (omega (arith, le, e))) (inr (λ small. omega (arith, small)))
  Wait-Inv here own (fails {expected} {current} le changed ne) =
      Inv-stay inv a (looping expected current) (looping expected word) here ne nobody (λ w. w)
        (λ w. absurd w)
  Wait-Inv here own (fails_in_time {expected} {current} le changed e) =
      Inv-stay inv a (looping expected current) outside here tt nobody (λ w. w) (λ w. absurd w)
  Wait-Inv here own (goes_on {expected} {current} gt) =
      Inv-stay inv a (looping expected current) (marked expected current) here (gt, own) nobody
        (λ w. w) (λ w. absurd w)
  Wait-Inv here own (sleeps {expected} {current} e) =
      Inv-stay inv a (marked expected current) (asleep expected current) here own (λ c s. e ∙ s)
        (λ w. w) (λ w. absurd w)
  Wait-Inv here own (stays_awake {expected} {current} ne) =
      Inv-stay inv a (marked expected current) (woken expected) here tt nobody (λ w. w)
        (λ w. absurd w)
  Wait-Inv here own (wakes {expected} {current}) =
      Inv-stay inv a (asleep expected current) (woken expected) here tt nobody (λ w. w)
        (λ w. absurd w)
  Wait-Inv here own (leaves {expected} e) =
      Inv-stay inv a (woken expected) outside here tt nobody (λ w. w) (λ w. absurd w)
  Wait-Inv here own (repeats {expected} ne) =
      Inv-stay inv a (woken expected) (looping expected word) here ne nobody (λ w. w)
        (λ w. absurd w)

  Publish-Inv :
      {w' : ℕ} {p p' : Point}
      → point a ≡ p
      → Fine p
      → Publish word p w' p'
      → Inv w' (update point a p')
  Publish-Inv here own (stores {version} lt) =
      Inv-change inv a outside (published version) (word - word % u16_mod + version) here lt
        (λ c s. s) (λ w. w) (inl (omega (arith, lt))) (inr (λ small. omega (arith, small)))
  Publish-Inv here own (no_waiters {version} le) =
      Inv-stay inv a (published version) outside here tt nobody (λ w. w) (λ w. inr le)
  Publish-Inv here own (overtaken {version} gt ne) =
      Inv-stay inv a (published version) outside here tt nobody (λ w. w) (λ w. absurd (ne w))
  Publish-Inv here own (finds {version} gt e) =
      Inv-stay inv a (published version) (found version word) here (gt, e, own) nobody (λ w. w)
        (λ w. inl refl)
  Publish-Inv here own (clears {version} {current} e) =
      Inv-change inv a (found version current) waking version here tt (λ c s. s) (λ w. w) (inl tt)
        (inl tt)
  Publish-Inv here own (too_late {version} {current} ne) =
      Inv-stay inv a (found version current) outside here tt nobody (λ w. w) (λ w. absurd (ne w))
  Publish-Inv here own (exchanges {version} lt le) =
      Inv-change inv a outside outside version here tt (λ c s. s) (λ w. w) (inr le)
        (inr (λ small. le))
  Publish-Inv here own (exchanges_mark {version} lt gt) =
      Inv-change inv a outside waking version here tt (λ c s. s) (λ w. w) (inl tt) (inl tt)

wake-Fine : (p : Point) → Fine p → Fine (wake p)
wake-Fine outside f = f
wake-Fine (entered e) f = f
wake-Fine (looping e current) f = f
wake-Fine (marked e current) f = f
wake-Fine (asleep e current) f = tt
wake-Fine (woken e) f = f
wake-Fine (published v) f = f
wake-Fine (found v current) f = f
wake-Fine waking f = f

wake-awake : (p : Point) (c : ℕ) → IsAsleep (wake p) c → ⊥
wake-awake outside c s = s
wake-awake (entered e) c s = s
wake-awake (looping e current) c s = s
wake-awake (marked e current) c s = s
wake-awake (asleep e current) c s = s
wake-awake (woken e) c s = s
wake-awake (published v) c s = s
wake-awake (found v current) c s = s
wake-awake waking c s = s

wakes_all-Inv :
    {word : ℕ} {point : Array Point}
    → Inv word point
    → (a : ℕ) → Inv word (update (λ b. wake (point b)) a outside)
wakes_all-Inv {word} {point} inv a = record {
  fine = λ b.
      moved Fine (λ b. wake (point b)) a outside b (λ _. tt)
        (λ _. wake-Fine (point b) (inv.fine b));
  watched = λ b c s. absurd (awake b c s);
  unmarked = λ b c s. absurd (awake b c s);
}
  where
    awake : (b c : ℕ) → IsAsleep (update (λ b. wake (point b)) a outside b) c → ⊥
    awake b c =
        moved (λ q. IsAsleep q c → ⊥) (λ b. wake (point b)) a outside b (λ _ s. s)
          (λ _. wake-awake (point b) c)

Reach-Inv : {s : Futex} → Reach s → Inv s.word s.point
Reach-Inv start = record {
  fine = λ b. tt;
  watched = λ b c s. absurd s;
  unmarked = λ b c s. absurd s;
}
Reach-Inv (later r (waits a move)) = let inv = Reach-Inv r in Wait-Inv inv a refl (inv.fine a) move
Reach-Inv (later r (publishes a move)) =
    let inv = Reach-Inv r in Publish-Inv inv a refl (inv.fine a) move
Reach-Inv (later r (wakes_all a e)) = wakes_all-Inv (Reach-Inv r) a

-- No wake-up is lost: however the threads at a slot interleave, a thread is asleep in the futex only while the version is
-- another than the one it waits for, or while some thread is on its way to wake it: one that is about
-- to call `wake_all`, or one in `wakeup_waiters` that has set the version of the word.
pub asleep-WillWake :
    {s : Futex} (a expected current : ℕ)
    → Reach s
    → s.point a ≡ asleep expected current
    → (s.word % u16_mod ≢ expected) ⊎ ((d : ℕ) × WillWake s.word (s.point d))
asleep-WillWake {s} a expected current reach here =
    let inv = Reach-Inv reach in
    let fine : Fine (asleep expected current) = subst Fine here (inv.fine a) in
    elim (inv.watched a current (subst (λ p. IsAsleep p current) (sym here) refl)) [
      | inl e ↦ inl (λ same. fine.1 (ap (λ w. w % u16_mod) (sym e) ∙ same))
      | inr h ↦ inr h
    ]
