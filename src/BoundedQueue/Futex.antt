-- ===== src/BoundedQueue/Futex.antt =====
-- `SlotFutex`: the word of a slot has its version in the low 16 bits, and above them a mark that some
-- thread may sleep. Threads wait for a version without a timeout, and others set versions and wake
-- them, an access of the word at a time. The futex of the system puts a thread to sleep if the word is
-- the one that it was called with; it may end a sleep at any time, and wakes all sleepers at a wake.
pub mod Sleepers
pub mod Wakeups
use fuxi_n.Prelude.{ℕ, zero, suc, ◌+◌, ◌-◌, ◌%◌, ◌≤◌, ◌<◌, ◌≢◌, ◌≡◌, u16_mod, Array, update}

abbrev pub uint16_max : ℕ
uint16_max = 65535

-- Where a thread stands, with the version that it expects or sets and the word that it read last
pub data Point : Type 0 where
  outside : Point
  entered : ℕ → Point  -- in `wait_until_reach_expected_version`, before the load
  looping : ℕ → ℕ → Point  -- in `block_until_reach_expected_version_slow`, before the mark
  marked : ℕ → ℕ → Point  -- before the call of `_futex.wait`
  asleep : ℕ → ℕ → Point  -- in it
  woken : ℕ → Point  -- after it, before the load
  published : ℕ → Point  -- in `wakeup_waiters`, before the load
  found : ℕ → ℕ → Point  -- before the compare-and-swap
  waking : Point  -- before `_futex.wake_all`

-- One access to the word of a thread that waits for a version
pub data Wait (word : ℕ) : Point → ℕ → Point → Type 0 where
  enters : {expected : ℕ} → Wait word outside word (entered expected)
  passes : {expected : ℕ} → word % u16_mod ≡ expected → Wait word (entered expected) word outside
  blocks :
      {expected : ℕ}
      → word % u16_mod ≢ expected
      → Wait word (entered expected) word (looping expected word)
  -- compare_exchange_strong of the mark
  marks :
      {expected current : ℕ}
      → current ≤ uint16_max
      → word ≡ current
      → Wait word
          (looping expected current)
          (current + uint16_max + 1)
          (marked expected (current + uint16_max + 1))
  fails :
      {expected current : ℕ}
      → current ≤ uint16_max
      → word ≢ current
      → word % u16_mod ≢ expected
      → Wait word (looping expected current) word (looping expected word)
  fails_in_time :
      {expected current : ℕ}
      → current ≤ uint16_max
      → word ≢ current
      → word % u16_mod ≡ expected
      → Wait word (looping expected current) word outside
  -- the word is marked already
  goes_on :
      {expected current : ℕ}
      → uint16_max < current
      → Wait word (looping expected current) word (marked expected current)
  -- `_futex.wait`
  sleeps :
      {expected current : ℕ}
      → word ≡ current
      → Wait word (marked expected current) word (asleep expected current)
  stays_awake :
      {expected current : ℕ}
      → word ≢ current
      → Wait word (marked expected current) word (woken expected)
  wakes : {expected current : ℕ} → Wait word (asleep expected current) word (woken expected)
  leaves : {expected : ℕ} → word % u16_mod ≡ expected → Wait word (woken expected) word outside
  repeats :
      {expected : ℕ}
      → word % u16_mod ≢ expected
      → Wait word (woken expected) word (looping expected word)

-- One access of a thread that sets a version
pub data Publish (word : ℕ) : Point → ℕ → Point → Type 0 where
  -- `set_version`, a store of the low 16 bits, and the call of `wakeup_waiters` after it
  stores :
      {version : ℕ}
      → version < u16_mod
      → Publish word outside (word - word % u16_mod + version) (published version)
  no_waiters : {version : ℕ} → word ≤ uint16_max → Publish word (published version) word outside
  overtaken :
      {version : ℕ}
      → uint16_max < word
      → word % u16_mod ≢ version
      → Publish word (published version) word outside
  finds :
      {version : ℕ}
      → uint16_max < word
      → word % u16_mod ≡ version
      → Publish word (published version) word (found version word)
  clears :
      {version current : ℕ} → word ≡ current → Publish word (found version current) version waking
  too_late :
      {version current : ℕ} → word ≢ current → Publish word (found version current) word outside
  -- `set_version_and_wakeup_waiters`
  exchanges :
      {version : ℕ} → version < u16_mod → word ≤ uint16_max → Publish word outside version outside
  exchanges_mark :
      {version : ℕ} → version < u16_mod → uint16_max < word → Publish word outside version waking

pub record Futex : Type 0 where
  pub word : ℕ
  pub point : Array Point

-- `_futex.wake_all`
abbrev pub wake : Point → Point
wake (asleep expected current) = woken expected
wake p = p

pub data Step (s : Futex) : Futex → Type 0 where
  waits :
      (a : ℕ) {word : ℕ} {p : Point}
      → Wait s.word (s.point a) word p
      → Step s (record { word = word; point = update s.point a p })
  publishes :
      (a : ℕ) {word : ℕ} {p : Point}
      → Publish s.word (s.point a) word p
      → Step s (record { word = word; point = update s.point a p })
  wakes_all :
      (a : ℕ)
      → s.point a ≡ waking
      → Step s (record { word = s.word; point = update (λ b. wake (s.point b)) a outside })

-- After `reset`
abbrev pub init : Futex
init = record { word = 0; point = λ _. outside }

pub data Reach : Futex → Type 0 where
  start : Reach init
  later : {s t : Futex} → Reach s → Step s t → Reach t
