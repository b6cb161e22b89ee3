-- ===== src/BoundedQueue/Threads.antt =====
-- Threads that push and pop at once, each a shared access at a time: `push` and `pop` (`deal`, with its
-- wait as a spin), and `try_push` and `try_pop` (`try_deal`), all with CONCURRENT. Accesses to memory
-- take place in one order; what the memory orders of the code admit beyond that is not modelled.
pub mod Defs
pub mod Turns
pub mod Locals
pub mod Frames
pub mod Draws
pub mod Releases
pub mod Invariant
pub mod Safety
use fuxi_n.Prelude.{
  ℕ, zero, suc, ◌+◌, ◌%◌, ◌<◌, ◌≢◌, ◌≡◌, u16_mod, u64_mod, Array, update, Option, none, some,
}
use fuxi_n.BoundedQueue.{push_side, pop_side, slot_index, expected_version}

-- What a thread does: it pushes a value, or pops one.
pub data Op (A : Type 0) : Type 0 where
  pushes : A → Op A
  pops : Op A

abbrev pub side : {A : Type 0} → Op A → ℕ
side (pushes v) = push_side
side pops = pop_side

-- `_next_push_index` and `_next_pop_index` by their sides, and of each slot the version and the
-- value. Then the history, which no code reads: the number of versions set at each slot, what each
-- push ticket was drawn for, and what each pop ticket gave.
pub record Memory (A : Type 0) : Type 0 where
  pub next_index : Array ℕ
  pub version : Array ℕ
  pub value : Array A
  pub turns : Array ℕ
  pub sent : Array (Option A)
  pub received : Array (Option A)

-- Where a thread stands between the draw of its ticket and the new version of the slot
pub data Stage (A : Type 0) : Type 0 where
  waiting : Stage A  -- before the load of the version
  ready : Stage A  -- before the callback
  after : A → Stage A  -- after the callback, with the value that it wrote or read

-- Where a thread stands in the loop of `try_deal`
pub data Trial : Type 0 where
  loaded : Trial  -- before the load of the version
  missed : Trial  -- the version was another
  checked : Trial  -- before the compare-and-swap of the index

-- A thread with its operation and its local `index`
pub data Pc (A : Type 0) : Type 0 where
  idle : Pc A
  dealing : Op A → ℕ → Stage A → Pc A
  trying : Op A → ℕ → Trial → Pc A

pub record System (A : Type 0) : Type 0 where
  pub mem : Memory A
  pub pc : Array (Pc A)

module _ {A : Type 0} where
  -- The draw of ticket `i`, with the next index moved on by one
  abbrev pub log_sent : Op A → ℕ → Array (Option A) → Array (Option A)
  log_sent (pushes v) i sent = update sent i (some v)
  log_sent pops i sent = sent

  abbrev pub draw : Memory A → Op A → ℕ → Memory A
  draw m op i = record {
    next_index = update m.next_index (side op) ((i + 1) % u64_mod);
    version = m.version;
    value = m.value;
    turns = m.turns;
    sent = log_sent op i m.sent;
    received = m.received;
  }

  -- The callback of `push`, which assigns to the slot
  abbrev pub write : Memory A → ℕ → A → Memory A
  write m slot v = record {
    next_index = m.next_index;
    version = m.version;
    value = update m.value slot v;
    turns = m.turns;
    sent = m.sent;
    received = m.received;
  }

  abbrev pub log_received : Op A → ℕ → A → Array (Option A) → Array (Option A)
  log_received (pushes v) i x received = received
  log_received pops i x received = update received i (some x)

  -- `futex.set_version(expected_version + 1)`
  abbrev pub set_version : Memory A → Op A → ℕ → ℕ → ℕ → A → Memory A
  set_version m op i slot version x = record {
    next_index = m.next_index;
    version = update m.version slot (version % u16_mod);
    value = m.value;
    turns = update m.turns slot (m.turns slot + 1);
    sent = m.sent;
    received = log_received op i x m.received;
  }

module _ {A : Type 0} (bits : ℕ) where
  -- One access of a thread to the shared memory
  pub data Move (m : Memory A) : Pc A → Memory A → Pc A → Type 0 where
    -- `push`, `pop`: fetch_add of the next index
    draws :
        {op : Op A}
        → Move m idle
            (draw m op (m.next_index (side op)))
            (dealing op (m.next_index (side op)) waiting)
    -- `wait_until_reach_expected_version`
    spins :
        {op : Op A} {i : ℕ}
        → m.version (slot_index bits i) ≢ expected_version bits (side op) i
        → Move m (dealing op i waiting) m (dealing op i waiting)
    proceeds :
        {op : Op A} {i : ℕ}
        → m.version (slot_index bits i) ≡ expected_version bits (side op) i
        → Move m (dealing op i waiting) m (dealing op i ready)
    -- the callbacks
    writes :
        {v : A} {i : ℕ}
        → Move m
            (dealing (pushes v) i ready)
            (write m (slot_index bits i) v)
            (dealing (pushes v) i (after v))
    reads :
        {i : ℕ}
        → Move m (dealing pops i ready) m (dealing pops i (after (m.value (slot_index bits i))))
    releases :
        {op : Op A} {i : ℕ} {x : A}
        → Move m
            (dealing op i (after x))
            (set_version m op i (slot_index bits i) (expected_version bits (side op) i + 1) x)
            idle
    -- `try_push`, `try_pop`: the first load of the next index
    loads : {op : Op A} → Move m idle m (trying op (m.next_index (side op)) loaded)
    matches :
        {op : Op A} {i : ℕ}
        → m.version (slot_index bits i) ≡ expected_version bits (side op) i
        → Move m (trying op i loaded) m (trying op i checked)
    mismatches :
        {op : Op A} {i : ℕ}
        → m.version (slot_index bits i) ≢ expected_version bits (side op) i
        → Move m (trying op i loaded) m (trying op i missed)
    gives_up : {op : Op A} {i : ℕ} → m.next_index (side op) ≡ i → Move m (trying op i missed) m idle
    retries :
        {op : Op A} {i : ℕ}
        → m.next_index (side op) ≢ i
        → Move m (trying op i missed) m (trying op (m.next_index (side op)) loaded)
    -- compare_exchange_weak, which may fail without a cause
    cas_win :
        {op : Op A} {i : ℕ}
        → m.next_index (side op) ≡ i
        → Move m (trying op i checked) (draw m op i) (dealing op i ready)
    cas_lose :
        {op : Op A} {i : ℕ}
        → Move m (trying op i checked) m (trying op (m.next_index (side op)) loaded)

  -- Any of the `n` threads moves.
  pub data Step (n : ℕ) (s : System A) : System A → Type 0 where
    pick :
        (a : ℕ) {m : Memory A} {p : Pc A}
        → a < n
        → Move s.mem (s.pc a) m p
        → Step n s (record { mem = m; pc = update s.pc a p })

  -- After `reserve_and_clear`: the indexes and the versions are 0.
  abbrev pub init : A → System A
  init a = record {
    mem = record {
      next_index = λ _. 0;
      version = λ _. 0;
      value = λ _. a;
      turns = λ _. 0;
      sent = λ _. none;
      received = λ _. none;
    };
    pc = λ _. idle;
  }

  -- The systems that `k` accesses of the threads lead to
  pub data Reach (n : ℕ) (a : A) : ℕ → System A → Type 0 where
    start : Reach n a 0 (init a)
    later : {k : ℕ} {s t : System A} → Reach n a k s → Step n s t → Reach n a (suc k) t
