-- ===== src/BoundedQueue/Threads/Defs.antt =====
-- What holds of `ConcurrentBoundedQueue` between any two accesses of its threads.
use fuxi_n.Prelude.{
  ℕ, ◌+◌, ◌-◌, ◌*◌, ◌/◌, ◌%◌, ◌^◌, ◌≤◌, ◌<◌, ◌≡◌, u16_mod, Array, total, none, some, ◌==◌, ◌&&◌,
  if◌then◌else◌,
}
use fuxi_n.BoundedQueue.{push_side, slot_index}
use fuxi_n.BoundedQueue.Tickets.{epoch, drawn}
use fuxi_n.BoundedQueue.Threads.{
  Op, pushes, pops, side, Stage, waiting, ready, after, Trial, checked, Pc, idle, dealing, trying,
  Memory,
}

module _ {A : Type 0} (bits : ℕ) where
  -- The turn of the slot at which a ticket may use it
  abbrev pub phase : Op A → ℕ → ℕ
  phase op i = 2 * epoch bits i + side op

  -- The thread holds ticket `i` of a side.
  abbrev pub Holds : Pc A → ℕ → ℕ → Type 0
  Holds idle s i = ⊥
  Holds (dealing op j st) s i = (side op ≡ s) × (j ≡ i)
  Holds (trying op j st) s i = ⊥

  -- Whether it holds a ticket of a slot
  abbrev pub holds : ℕ → ℕ → Pc A → ℕ
  holds s slot idle = 0
  holds s slot (dealing op i st) = if (side op == s) && (slot_index bits i == slot) then 1 else 0
  holds s slot (trying op i st) = 0

  abbrev pub Asked : Memory A → Op A → ℕ → Type 0
  Asked m (pushes v) i = m.sent i ≡ some v
  Asked m pops i = Unit

  abbrev pub IsTurn : Memory A → Op A → ℕ → Type 0
  IsTurn m op i = m.turns (slot_index bits i) ≡ phase op i

  abbrev pub AtStage : Memory A → Op A → ℕ → Stage A → Type 0
  AtStage m op i waiting = m.turns (slot_index bits i) ≤ phase op i
  AtStage m op i ready = IsTurn m op i
  AtStage m op i (after x) = IsTurn m op i × (m.value (slot_index bits i) ≡ x) × (m.sent i ≡ some x)

  abbrev pub AtTrial : Memory A → Op A → ℕ → Trial → Type 0
  AtTrial m op i checked = m.next_index (side op) ≡ i → IsTurn m op i
  AtTrial m op i _ = Unit

  -- What the locals of a thread say about the shared memory
  abbrev pub Good : Memory A → Pc A → Type 0
  Good m idle = Unit
  Good m (dealing op i st) = (i < m.next_index (side op)) × Asked m op i × AtStage m op i st
  Good m (trying op i st) = (i ≤ m.next_index (side op)) × AtTrial m op i st

  pub record Inv (n k : ℕ) (m : Memory A) (pc : Array (Pc A)) : Type 0 where
    -- `n` threads, of which none has lost its place by more versions than 16 bits tell apart
    pub few : n < 2 ^ 15
    pub early : (s : ℕ) → m.next_index s ≤ k
    pub stored : (j : ℕ) → m.version j ≡ m.turns j % u16_mod
    -- The tickets drawn of a slot are those still held and those whose turn is over.
    pub count :
        (s j : ℕ)
        → s ≤ 1
        → j < 2 ^ bits
        → total (holds s j) n pc + (m.turns j + 1 - s) / 2 ≡ drawn bits (m.next_index s) j
    pub unique : (a b s i : ℕ) → Holds (pc a) s i → Holds (pc b) s i → a ≡ b
    -- A ticket whose turn is not over is held.
    pub covered :
        (s i : ℕ)
        → s ≤ 1
        → i < m.next_index s
        → m.turns (slot_index bits i) ≤ 2 * epoch bits i + s
        → (a : ℕ) × Holds (pc a) s i
    pub good : (a : ℕ) → Good m (pc a)
    pub kept :
        (i : ℕ)
        → m.turns (slot_index bits i) ≡ 2 * epoch bits i + 1
        → m.sent i ≡ some (m.value (slot_index bits i))
    pub fresh : (i : ℕ) → m.next_index push_side ≤ i → m.sent i ≡ none
    pub fifo : (i : ℕ) (x : A) → m.received i ≡ some x → m.sent i ≡ some x
