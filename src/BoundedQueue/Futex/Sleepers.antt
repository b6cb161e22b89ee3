-- ===== src/BoundedQueue/Futex/Sleepers.antt =====
-- What holds of the word, of the threads that sleep and of those that are to wake them.
use fuxi_n.Prelude.{
  moved, ℕ, ◌%◌, ◌≤◌, ◌<◌, ◌≢◌, ◌≡◌, ◌⊎◌, inl, inr, refl, u16_mod, Array, update, arith,
}
use mathlib.Core.Path.{subst}
use native.Mathlib.Decide.{ℕ_discrete}
use fuxi_n.BoundedQueue.Futex.{
  uint16_max, Point, outside, entered, looping, marked, asleep, woken, published, found, waking,
}

-- What the locals of a thread say by themselves
abbrev pub Fine : Point → Type 0
Fine (looping e current) = current % u16_mod ≢ e
Fine (marked e current) = (uint16_max < current) × (current % u16_mod ≢ e)
Fine (asleep e current) = (uint16_max < current) × (current % u16_mod ≢ e)
Fine (found v current) = (uint16_max < current) × (current % u16_mod ≡ v) × (v < u16_mod)
Fine (published v) = v < u16_mod
Fine _ = Unit

abbrev pub IsAsleep : Point → ℕ → Type 0
IsAsleep (asleep e current) c = current ≡ c
IsAsleep _ c = ⊥

abbrev pub IsWaking : Point → Type 0
IsWaking waking = Unit
IsWaking _ = ⊥

-- The thread is on its way to wake the sleepers, and nothing but a newer version stops it.
abbrev pub WillWake : ℕ → Point → Type 0
WillWake word waking = Unit
WillWake word (published v) = word % u16_mod ≡ v
WillWake word (found v current) = word ≡ current
WillWake word _ = ⊥

pub record Inv (word : ℕ) (point : Array Point) : Type 0 where
  pub fine : (b : ℕ) → Fine (point b)
  pub watched : (b c : ℕ) → IsAsleep (point b) c → (word ≡ c) ⊎ ((d : ℕ) × WillWake word (point d))
  pub unmarked : (b c : ℕ) → IsAsleep (point b) c → word ≤ uint16_max → (d : ℕ) × IsWaking (point d)

IsAsleep-marked : (p : Point) (c : ℕ) → IsAsleep p c → Fine p → uint16_max < c
IsAsleep-marked (asleep e current) c s f = omega (arith, s, f.0)
IsAsleep-marked outside c s f = elim s [ ]
IsAsleep-marked (entered e) c s f = elim s [ ]
IsAsleep-marked (looping e current) c s f = elim s [ ]
IsAsleep-marked (marked e current) c s f = elim s [ ]
IsAsleep-marked (woken e) c s f = elim s [ ]
IsAsleep-marked (published v) c s f = elim s [ ]
IsAsleep-marked (found v current) c s f = elim s [ ]
IsAsleep-marked waking c s f = elim s [ ]

IsWaking-WillWake : (word : ℕ) (p : Point) → IsWaking p → WillWake word p
IsWaking-WillWake word waking w = tt
IsWaking-WillWake word outside w = elim w [ ]
IsWaking-WillWake word (entered e) w = elim w [ ]
IsWaking-WillWake word (looping e current) w = elim w [ ]
IsWaking-WillWake word (marked e current) w = elim w [ ]
IsWaking-WillWake word (asleep e current) w = elim w [ ]
IsWaking-WillWake word (woken e) w = elim w [ ]
IsWaking-WillWake word (published v) w = elim w [ ]
IsWaking-WillWake word (found v current) w = elim w [ ]

module _ {word : ℕ} {point : Array Point} (inv : Inv word point) (a : ℕ) where
  -- A thread other than `a`, or the new point of `a`, has the property.
  holder :
      (Q : Point → Type 0) (p : Point)
      → (Q (point a) → (d : ℕ) × Q (update point a p d))
      → (d : ℕ) × Q (point d)
      → (d : ℕ) × Q (update point a p d)
  holder Q p own (d, h) = elim (ℕ_discrete d a) [
    | yes e ↦ own (subst (λ t. Q (point t)) e h)
    | no ne ↦ (d, moved Q point a p d (λ e. absurd (ne e)) (λ _. h))
  ]

  at_own : (Q : Point → Type 0) (p : Point) → Q p → (d : ℕ) × Q (update point a p d)
  at_own Q p h = (a, moved Q point a p a (λ _. h) (λ ne. absurd (ne refl)))

  -- The word stays, and `a` goes on to wake the sleepers if it was to.
  pub Inv-stay :
      (p p' : Point)
      → point a ≡ p
      → Fine p'
      → ((c : ℕ) → IsAsleep p' c → word ≡ c)
      → (IsWaking p → ⊥)
      → (WillWake word p → WillWake word p' ⊎ (word ≤ uint16_max))
      → Inv word (update point a p')
  Inv-stay p p' here own sleeper not_waking on = record {
    fine = λ b. moved Fine point a p' b (λ _. own) (λ _. inv.fine b);
    watched = λ b c.
        moved (λ q. IsAsleep q c → (word ≡ c) ⊎ ((d : ℕ) × WillWake word (update point a p' d)))
          point a p' b (λ _ s. inl (sleeper c s))
          (λ _ s. elim (inv.watched b c s) [
            | inl e ↦ inl e
            | inr h ↦ inr (
                holder (WillWake word) p'
                  (λ w. elim (on (subst (WillWake word) here w)) [
                    | inl q ↦ at_own (WillWake word) p' q
                    | inr le ↦
                        let (d, k) = still (inv.unmarked b c s le) in
                        (d, IsWaking-WillWake word (update point a p' d) k)
                  ])
                  h)
          ]);
    unmarked = λ b c.
        moved (λ q. IsAsleep q c → word ≤ uint16_max → (d : ℕ) × IsWaking (update point a p' d))
          point a p' b
          (λ _ s le. absurd (omega (arith, IsAsleep-marked p' c s own, sleeper c s, le)))
          (λ _ s le. still (inv.unmarked b c s le));
  }
    where
      still : (d : ℕ) × IsWaking (point d) → (d : ℕ) × IsWaking (update point a p' d)
      still = holder IsWaking p' (λ w. absurd (not_waking (subst IsWaking here w)))

  -- The word changes: `a` goes on to wake the sleepers, or the word was not marked.
  pub Inv-change :
      (p p' : Point) (w' : ℕ)
      → point a ≡ p
      → Fine p'
      → ((c : ℕ) → IsAsleep p' c → ⊥)
      → (IsWaking p → ⊥)
      → WillWake w' p' ⊎ (word ≤ uint16_max)
      → IsWaking p' ⊎ (w' ≤ uint16_max → word ≤ uint16_max)
      → Inv w' (update point a p')
  Inv-change p p' w' here own awake not_waking next small = record {
    fine = λ b. moved Fine point a p' b (λ _. own) (λ _. inv.fine b);
    watched = λ b c.
        moved (λ q. IsAsleep q c → (w' ≡ c) ⊎ ((d : ℕ) × WillWake w' (update point a p' d))) point a
          p' b (λ _ s. absurd (awake c s))
          (λ _ s. elim next [
            | inl q ↦ inr (at_own (WillWake w') p' q)
            | inr le ↦
                let (d, k) = still (inv.unmarked b c s le) in
                inr (d, IsWaking-WillWake w' (update point a p' d) k)
          ]);
    unmarked = λ b c.
        moved (λ q. IsAsleep q c → w' ≤ uint16_max → (d : ℕ) × IsWaking (update point a p' d)) point
          a p' b (λ _ s. absurd (awake c s))
          (λ _ s le. elim small [
            | inl q ↦ at_own IsWaking p' q
            | inr lower ↦ still (inv.unmarked b c s (lower le))
          ]);
  }
    where
      still : (d : ℕ) × IsWaking (point d) → (d : ℕ) × IsWaking (update point a p' d)
      still = holder IsWaking p' (λ w. absurd (not_waking (subst IsWaking here w)))
