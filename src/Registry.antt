-- ===== src/Registry.antt =====
-- The tables of the shared memory are registers: a scan of the slots in use for a key, and a new slot
-- at their end. The scan and its meaning, for the tables of writers, readers, segments and processes.
use fuxi_n.Prelude.{
  ℕ, zero, suc, ◌+◌, ◌≤◌, ◌<◌, ◌≡◌, refl, Bool, true, false, Option, none, some, Array, update,
  ◌==◌, if◌then◌else◌, List, [], ◌∷◌, ◌++◌, length, leb, ℤ, pos, minus_one, arith,
}

-- `for (i = 0; i < num; ++i) if (test(i)) return i;` from `i` on, by the rounds that are left
unfoldable pub first_match : (ℕ → Bool) → ℕ → ℕ → Option ℕ
first_match test zero i = none
first_match test (suc n) i =
    let rest = first_match test n (i + 1) in if test i then some i else rest

module _ {K : Type 0} (same : K → K → Bool) where
  -- The place of a key, counted from `i`.
  abbrev pub position : K → List K → ℕ → Option ℕ
  position a [] i = none
  position a (b ∷ bs) i = let rest = position a bs (i + 1) in if same b a then some i else rest

  -- What a table of at most `limit` keys promises: a key has one index for good, the first time the
  -- next one, and -1 where there is no room.
  abbrev pub enroll : ℕ → List K → K → ℤ × List K
  enroll limit keys a = elim (position a keys 0) [
    | some i ↦ (pos i, keys)
    | none ↦
        if leb limit (length keys) then (minus_one, keys) else (pos (length keys), keys ++ a ∷ [])
  ]

test-true : (i n : ℕ) → i ≡ n → (i == n) ≡ true
test-true i n e = ground arith

test-false : (i n : ℕ) → i < n → (i == n) ≡ false
test-false i n e = ground arith

module _ {K Slot : Type 0} (Holds : Slot → K → Type 0) where
  -- The slots from `s` on hold the keys of a list.
  abbrev pub Hold : Array Slot → ℕ → List K → Type 0
  Hold table s [] = Unit {0}
  Hold table s (a ∷ rest) = Holds (table s) a × Hold table (s + 1) rest

  -- Slots that agree up to the last key hold the same keys.
  pub Hold-congr :
      (t u : Array Slot) (s : ℕ) (keys : List K)
      → ((i : ℕ) → i < s + length keys → u i ≡ t i)
      → Hold t s keys
      → Hold u s keys
  Hold-congr t u s [] e h = tt
  Hold-congr t u s (a ∷ rest) e h =
      (rw (e s (omega arith)) h.0, Hold-congr t u (s + 1) rest (λ i lt. e i (omega arith)) h.1)

  -- A key that is put into the next slot comes last.
  pub Hold-snoc :
      (t : Array Slot) (s n : ℕ) (keys : List K) (slot : Slot) (a : K)
      → n ≡ s + length keys
      → Hold t s keys
      → Holds slot a
      → Hold (update t n slot) s (keys ++ a ∷ [])
  Hold-snoc t s n [] slot a e h new = (rw (test-true s n (omega arith)) new, tt)
  Hold-snoc t s n (b ∷ bs) slot a e h new =
      (rw (test-false s n (omega arith)) h.0, Hold-snoc t (s + 1) n bs slot a (omega arith) h.1 new)

  -- The scan finds the place of the key.
  pub first_match-eq-position :
      (matches : Slot → Bool) (same : K → K → Bool) (a : K) (t : Array Slot) (s : ℕ) (keys : List K)
      → ((slot : Slot) (b : K) → Holds slot b → matches slot ≡ same b a)
      → Hold t s keys
      → first_match (λ i. matches (t i)) (length keys) s ≡ position same a keys s
  unfolding first_match
  first_match-eq-position matches same a t s [] agree h = refl
  first_match-eq-position matches same a t s (b ∷ bs) agree h =
      ground
        (arith, agree (t s) b h.0, first_match-eq-position matches same a t (s + 1) bs agree h.1)

  -- A change that keeps what each slot holds keeps what the table holds.
  pub Hold-mono :
      (t u : Array Slot) (s : ℕ) (keys : List K)
      → ((i : ℕ) (a : K) → Holds (t i) a → Holds (u i) a)
      → Hold t s keys
      → Hold u s keys
  Hold-mono t u s [] f h = tt
  Hold-mono t u s (a ∷ rest) f h = (f s a h.0, Hold-mono t u (s + 1) rest f h.1)

module _ {K : Type 0} (same : K → K → Bool) where
  -- The place of a key is a place of the list.
  pub position-lt :
      (a : K) (keys : List K) (s i : ℕ) → position same a keys s ≡ some i → i < s + length keys
  position-lt a [] s i e = cc
  position-lt a (b ∷ bs) s i e = ground (arith, position-lt a bs (s + 1) i)

  position-ge : (a : K) (keys : List K) (s i : ℕ) → position same a keys s ≡ some i → s ≤ i
  position-ge a [] s i e = cc
  position-ge a (b ∷ bs) s i e = ground (arith, position-ge a bs (s + 1) i)

  -- Two keys with one place are one key.
  pub position-injective :
      (a b : K) (keys : List K) (s i : ℕ)
      → ((x y : K) → same x y ≡ true → x ≡ y)
      → position same a keys s ≡ some i
      → position same b keys s ≡ some i
      → a ≡ b
  position-injective a b [] s i sound p q = cc
  position-injective a b (c ∷ cs) s i sound p q = ground (
    arith,
    sound c a,
    sound c b,
    position-ge a cs (s + 1) i,
    position-ge b cs (s + 1) i,
    position-injective a b cs (s + 1) i sound,
  )

  -- A key that was just put at the end is found there.
  pub position-snoc :
      (a : K) (keys : List K) (s : ℕ)
      → ((x : K) → same x x ≡ true)
      → position same a keys s ≡ none
      → position same a (keys ++ a ∷ []) s ≡ some (s + length keys)
  position-snoc a [] s whole e = ground (arith, whole a)
  position-snoc a (b ∷ bs) s whole e = ground (arith, position-snoc a bs (s + 1) whole)

  -- A key keeps its place when others follow.
  pub position-append :
      (a : K) (keys more : List K) (s i : ℕ)
      → position same a keys s ≡ some i
      → position same a (keys ++ more) s ≡ some i
  position-append a [] more s i e = cc
  position-append a (b ∷ bs) more s i e = ground (arith, position-append a bs more (s + 1) i)

  pub enroll-found :
      (limit : ℕ) (keys : List K) (a : K) (i : ℕ)
      → position same a keys 0 ≡ some i
      → enroll same limit keys a ≡ (pos i, keys)
  enroll-found limit keys a i e = rw (e, enroll)

  pub enroll-full :
      (limit : ℕ) (keys : List K) (a : K)
      → position same a keys 0 ≡ none
      → limit ≤ length keys
      → enroll same limit keys a ≡ (minus_one, keys)
  enroll-full limit keys a e full = rw (e, enroll) (ground arith)

  pub enroll-new :
      (limit : ℕ) (keys : List K) (a : K)
      → position same a keys 0 ≡ none
      → length keys < limit
      → enroll same limit keys a ≡ (pos (length keys), keys ++ a ∷ [])
  enroll-new limit keys a e room = rw (e, enroll) (ground arith)
