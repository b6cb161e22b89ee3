-- ===== src/Tests/Queues.antt =====
-- Bounded queues: two threads at a queue of two slots, and batches in one of four.
use fuxi_n.Prelude.{
  ◌%◌, ◌≢◌, u16_mod, Array, ℕ, ◌≤◌, ◌<◌, ◌≡◌, ◌⊎◌, refl, min, update, none, some, List, [], ◌∷◌,
  ◌++◌, take, length, arith,
}
use fuxi_n.BoundedQueue.Threads.{
  pushes, pops, Pc, idle, dealing, waiting, ready, after, Memory, draw, write, set_version, System,
  init, Reach, start, later, pick, draws, proceeds, writes, reads, releases,
}
use fuxi_n.BoundedQueue.Threads.Safety.{Starved, CanGo, received-sent, slot_unique, waiting-Starved}
use fuxi_n.BoundedQueue.Futex
use fuxi_n.BoundedQueue.Futex.{
  Futex, Point, outside, entered, looping, marked, asleep, published, enters, blocks, marks, sleeps,
  stores, waits, publishes,
}
use fuxi_n.BoundedQueue.Futex.Wakeups.{asleep-WillWake}
use fuxi_n.BoundedQueue.Futex.Sleepers.{WillWake}
use fuxi_n.BoundedQueue.Batch.{Queue}
use fuxi_n.BoundedQueue.Batch.Calls.{try_push_n, try_pop_n, push_n}
use fuxi_n.BoundedQueue.Batch.Appends.{IsQuiet, contents, free_slots}
use fuxi_n.BoundedQueue.Batch.Push.{try_push_n-contents}
use fuxi_n.BoundedQueue.Batch.Pop.{try_pop_n-contents}
use fuxi_n.BoundedQueue.Batch.Wait.{push_n-contents}
use fuxi_n.BoundedQueue.Batch.Reserve.{Wf-reset}
use fuxi_n.BoundedQueue.Batch.Roundtrip.{try_pop_n-try_push_n}

abbrev moved_to : System ℕ → ℕ → Memory ℕ → Pc ℕ → System ℕ
moved_to s a m p = record { mem = m; pc = update s.pc a p }

abbrev writer : ℕ
writer = 0

-- Thread 0 pushes 7, then thread 1 pops.
abbrev pushing : System ℕ
pushing = moved_to (init 1 0) 0 (draw (init 1 0).mem (pushes 7) 0) (dealing (pushes 7) 0 waiting)

abbrev in_turn : System ℕ
in_turn = moved_to pushing 0 pushing.mem (dealing (pushes 7) 0 ready)

abbrev written : System ℕ
written = moved_to in_turn 0 (write in_turn.mem 0 7) (dealing (pushes 7) 0 (after 7))

abbrev pushed : System ℕ
pushed = moved_to written 0 (set_version written.mem (pushes 7) 0 0 1 7) idle

abbrev popping : System ℕ
popping = moved_to pushed 1 (draw pushed.mem pops 0) (dealing pops 0 waiting)

abbrev at_value : System ℕ
at_value = moved_to popping 1 popping.mem (dealing pops 0 ready)

abbrev read : System ℕ
read = moved_to at_value 1 at_value.mem (dealing pops 0 (after 7))

abbrev popped : System ℕ
popped = moved_to read 1 (set_version read.mem pops 0 0 2 7) idle

in_turn-Reach : Reach 1 2 0 2 in_turn
in_turn-Reach =
    later (later start (pick 0 (omega arith) draws)) (pick 0 (omega arith) (proceeds refl))

pushed-Reach : Reach 1 2 0 4 pushed
pushed-Reach =
    later (later in_turn-Reach (pick 0 (omega arith) writes)) (pick 0 (omega arith) releases)

popped-Reach : Reach 1 2 0 8 popped
popped-Reach =
    later
      (later
        (later (later pushed-Reach (pick 1 (omega arith) draws))
          (pick 1 (omega arith) (proceeds refl)))
        (pick 1 (omega arith) reads))
      (pick 1 (omega arith) releases)

received-sent_seven : popped.mem.sent 0 ≡ some 7
received-sent_seven = received-sent 1 {s = popped} (omega arith) (omega arith) popped-Reach 0 7 refl

slot_unique-writer : writer ≡ writer
slot_unique-writer =
    slot_unique 1 {s = in_turn} (omega arith) (omega arith) in_turn-Reach writer writer 0 refl refl

-- A pop of the new queue
abbrev hungry : System ℕ
hungry = moved_to (init 1 0) 0 (draw (init 1 0).mem pops 0) (dealing pops 0 waiting)

hungry-Reach : Reach 1 2 0 1 hungry
hungry-Reach = later start (pick 0 (omega arith) draws)

waiting-Starved_pop : Starved 1 hungry.mem pops 0 ⊎ ((c : ℕ) × CanGo 1 hungry.mem (hungry.pc c))
waiting-Starved_pop =
    waiting-Starved 1 {s = hungry} (omega arith) (omega arith) hungry-Reach 0 0 pops refl

abbrev fresh : Queue ℕ
fresh = record {
  slot_bits = 2;
  next_push_index = 0;
  next_pop_index = 0;
  version = λ _. 0;
  value = λ _. 0;
}

abbrev three : List ℕ
three = 5 ∷ 6 ∷ 7 ∷ []

-- Both indexes stand at the last slot.
abbrev filled : Queue ℕ
filled = (try_push_n fresh three).queue

filled-IsQuiet : IsQuiet filled
filled-IsQuiet = (try_push_n-contents fresh three (Wf-reset 2) (omega arith)).1

abbrev worn : Queue ℕ
worn = (try_pop_n filled 3).queue

worn-IsQuiet : IsQuiet worn
worn-IsQuiet = (try_pop_n-contents filled 3 filled-IsQuiet (omega arith)).2

try_push_n-contents-worn :
    ((try_push_n worn three).count ≡ min 3 (free_slots worn))
    × IsQuiet (try_push_n worn three).queue
    × (contents (try_push_n worn three).queue
        ≡ contents worn ++ take (try_push_n worn three).count three)
try_push_n-contents-worn = try_push_n-contents worn three worn-IsQuiet (omega arith)

try_pop_n-contents_two :
    ((try_pop_n filled 2).count ≡ min 2 (length (contents filled)))
    × (length (try_pop_n filled 2).values ≡ (try_pop_n filled 2).count)
    × IsQuiet (try_pop_n filled 2).queue
    × (contents filled ≡ (try_pop_n filled 2).values ++ contents (try_pop_n filled 2).queue)
try_pop_n-contents_two = try_pop_n-contents filled 2 filled-IsQuiet (omega arith)

push_n-contents-worn :
    ((free_slots worn < length three) × (push_n worn three ≡ none))
    ⊎ ((length three ≤ free_slots worn)
        × ((r : Queue ℕ) × (push_n worn three ≡ some r)
            × IsQuiet r
            × (contents r ≡ contents worn ++ three)))
push_n-contents-worn = push_n-contents worn three worn-IsQuiet (omega arith)

abbrev eight : ℕ → ℕ
eight n = 8

abbrev log_eight : ℕ → ℕ
log_eight n = 3

try_pop_n-try_push_n-worn : (try_pop_n (try_push_n worn three).queue 3).values ≡ three
try_pop_n-try_push_n-worn =
    try_pop_n-try_push_n worn three worn-IsQuiet refl (omega arith) (omega arith)

-- Thread 0 waits for version 1 and falls asleep; thread 1 sets it.
abbrev blocked : Array Point
blocked = update (update (λ _. outside) 0 (entered 1)) 0 (looping 1 0)

abbrev sleeping : Array Point
sleeping = update (update blocked 0 (marked 1 65536)) 0 (asleep 1 65536)

abbrev one_set : Futex
one_set = record { word = 65537; point = update sleeping 1 (published 1) }

one_set-Reach : Futex.Reach one_set
one_set-Reach =
    Futex.later
      (Futex.later
        (Futex.later
          (Futex.later (Futex.later Futex.start (waits 0 enters)) (waits 0 (blocks (omega arith))))
          (waits 0 (marks (omega arith) refl)))
        (waits 0 (sleeps refl)))
      (publishes 1 (stores (omega arith)))

asleep-WillWake_one :
    (one_set.word % u16_mod ≢ 1) ⊎ ((d : ℕ) × WillWake one_set.word (one_set.point d))
asleep-WillWake_one = asleep-WillWake {s = one_set} 0 1 65536 one_set-Reach refl
