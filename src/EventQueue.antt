-- ===== src/EventQueue.antt =====
-- `FlatSignalQueue` (src/fuxi/base/flat_signal_queue.h) and `ProcessState`
-- (src/fuxi/shm/topo/process_state.cc), one call at a time, over a bounded queue given by its operations.
-- An event is the address of an object. `available_size_` is an `int32_t`, kept as its 32 bits.
pub mod Tries
pub mod Pushes
pub mod Bounded
pub mod Histories
use fuxi_n.Prelude.{
  Bool, true, false, ℕ, zero, suc, ◌+◌, ◌-◌, ◌%◌, ◌^◌, ◌≤◌, ◌<◌, ◌≡◌, u32_mod, u64_mod, ltb, leb,
  ◌==◌, ◌||◌, if◌then◌else◌, Array, update, Option, none, some, List, [], ◌∷◌, ◌++◌, length,
}

-- What is called of `ConcurrentBoundedQueue`; EventQueue/Bounded has it for the model of its code.
-- `try_push` is `none` where it returns false, `try_pop` where `try_pop_n` of one element returns 0, and
-- `pop` where it waits.
pub record Operations (Q : Type 0) : Type 0 where
  pub reserve_and_clear : ℕ → Q
  pub try_push : Q → ℕ → Option Q
  pub try_pop : Q → Option (ℕ × Q)
  pub pop : Q → Option (ℕ × Q)

-- What they do to the values in the queue, and to the number of its slots, where the queue has room for
-- the indexes of `n` more calls; EventQueue/Bounded proves it of the bounded queue.
pub record Laws {Q : Type 0} (ops : Operations Q) : Type 1 where
  pub contents : Q → List ℕ
  pub capacity : Q → ℕ
  pub IsReady : ℕ → Q → Type 0
  pub less : (n : ℕ) (q : Q) → IsReady (suc n) q → IsReady n q
  pub pushed :
      (n : ℕ) (q : Q) (v : ℕ)
      → IsReady (suc n) q
      → length (contents q) < capacity q
      → (q' : Q) × (ops.try_push q v ≡ some q')
        × (contents q' ≡ contents q ++ (v ∷ []))
        × (capacity q' ≡ capacity q)
        × IsReady n q'
  pub try_popped :
      (n : ℕ) (q : Q) (v : ℕ) (vs : List ℕ)
      → IsReady (suc n) q
      → contents q ≡ v ∷ vs
      → (q' : Q) × (ops.try_pop q ≡ some (v, q'))
        × (contents q' ≡ vs)
        × (capacity q' ≡ capacity q)
        × IsReady n q'
  pub popped :
      (n : ℕ) (q : Q) (v : ℕ) (vs : List ℕ)
      → IsReady (suc n) q
      → contents q ≡ v ∷ vs
      → (q' : Q) × (ops.pop q ≡ some (v, q'))
        × (contents q' ≡ vs)
        × (capacity q' ≡ capacity q)
        × IsReady n q'
  pub empty : (n : ℕ) (q : Q) → IsReady n q → contents q ≡ [] → ops.pop q ≡ none

pub record FlatSignalQueue (Q : Type 0) : Type 0 where
  pub inited : Bool
  pub queue_capacity : ℕ
  pub available_size : ℕ
  pub ev_queue : Q

-- An `int32_t` that is compared with a `size_t`
abbrev pub size_of_int : ℕ → ℕ
size_of_int word = if ltb word (2 ^ 31) then word else word + (u64_mod - u32_mod)

abbrev pub is_less_than_one : ℕ → Bool
is_less_than_one word = (word == 0) || leb (2 ^ 31) word

-- What a round gave, or else what the rounds after it give
abbrev pub or_else : {A : Type 0} → Option A → Option A → Option A
or_else (some a) later = some a
or_else none later = later

-- The loops `do ret = try_push(...) while (ret == false)` and `do ... while (num == 0)`, on fuel
module _ {Q : Type 0} (ops : Operations Q) where
  abbrev pub push_until : ℕ → Q → ℕ → Option Q
  push_until zero q v = none
  push_until (suc fuel) q v = or_else (ops.try_push q v) (push_until fuel q v)

  abbrev pub pop_until : ℕ → Q → Option (ℕ × Q)
  pop_until zero q = none
  pop_until (suc fuel) q = or_else (ops.try_pop q) (pop_until fuel q)

  abbrev pub new_signal_queue : FlatSignalQueue Q
  new_signal_queue = record {
    inited = false;
    queue_capacity = 0;
    available_size = 0;
    ev_queue = ops.reserve_and_clear 0;
  }

  abbrev pub initialize : ℕ → FlatSignalQueue Q → FlatSignalQueue Q
  initialize num s =
      if s.inited
      then s
      else record s { inited = true; queue_capacity = num; ev_queue = ops.reserve_and_clear num }

  abbrev pub added : FlatSignalQueue Q → Option Q → Option (Bool × FlatSignalQueue Q)
  added s none = none
  added s (some q) =
      some (true, record s { available_size = (s.available_size + 1) % u32_mod; ev_queue = q })

  -- `fetch_add`, and `fetch_sub` where the queue overflows
  abbrev pub try_push_event : ℕ → FlatSignalQueue Q → ℕ → Option (Bool × FlatSignalQueue Q)
  try_push_event fuel s v =
      if leb s.queue_capacity (size_of_int s.available_size)
      then some (
        false,
        record s { available_size = ((s.available_size + 1) % u32_mod + (u32_mod - 1)) % u32_mod },
      )
      else added s (push_until fuel s.ev_queue v)

  abbrev pub taken : FlatSignalQueue Q → Option (ℕ × Q) → Option (Option ℕ × FlatSignalQueue Q)
  taken s none = none
  taken s (some (v, q)) = some (
    some v,
    record s { available_size = (s.available_size + (u32_mod - 1)) % u32_mod; ev_queue = q },
  )

  abbrev pub try_pop_event : ℕ → FlatSignalQueue Q → Option (Option ℕ × FlatSignalQueue Q)
  try_pop_event fuel s =
      if is_less_than_one s.available_size
      then some (
        none,
        record s { available_size = ((s.available_size + (u32_mod - 1)) % u32_mod + 1) % u32_mod },
      )
      else taken s (pop_until fuel s.ev_queue)

  abbrev pub removed : FlatSignalQueue Q → Option (ℕ × Q) → Option (ℕ × FlatSignalQueue Q)
  removed s none = none
  removed s (some (v, q)) = some (v, record s { ev_queue = q })

  -- `Pop`, which waits while there is nothing
  abbrev pub pop_event : FlatSignalQueue Q → Option (ℕ × FlatSignalQueue Q)
  pop_event s = removed s (ops.pop s.ev_queue)

-- `ProcessState`, and the `reference_cnt` of the object at each address
pub record ProcessState (Q : Type 0) : Type 0 where
  pub inited : Bool
  pub is_online : Bool
  pub pid : ℕ
  pub reader_event_queue : FlatSignalQueue Q

pub record Process (Q : Type 0) : Type 0 where
  pub state : ProcessState Q
  pub reference_cnt : Array ℕ

module _ {Q : Type 0} (ops : Operations Q) where
  abbrev pub init_process : ℕ → ℕ → ProcessState Q → ProcessState Q
  init_process pid num p = if p.inited then p else record {
    inited = true;
    is_online = true;
    pid = pid;
    reader_event_queue = initialize ops num p.reader_event_queue;
  }

  -- The answer of `TryPush` is dropped; it is kept here to count the events that were queued.
  abbrev pub queued : Process Q → ℕ → Option (Bool × FlatSignalQueue Q) → Option (Bool × Process Q)
  queued p object none = none
  queued p object (some (ret, q)) = some (
    ret,
    record {
      state = record p.state { reader_event_queue = q };
      reference_cnt = update p.reference_cnt object ((p.reference_cnt object + 1) % u32_mod);
    },
  )

  abbrev pub push_object : ℕ → Process Q → ℕ → Option (Bool × Process Q)
  push_object fuel p object =
      queued p object (try_push_event ops fuel p.state.reader_event_queue object)

  -- The object of the event; `none` while the call waits
  abbrev pub unqueued : Process Q → Option (ℕ × FlatSignalQueue Q) → Option (ℕ × Process Q)
  unqueued p none = none
  unqueued p (some (object, q)) =
      some (object, record p { state = record p.state { reader_event_queue = q } })

  abbrev pub pop_object : Process Q → Option (ℕ × Process Q)
  pop_object p = unqueued p (pop_event ops p.state.reader_event_queue)
