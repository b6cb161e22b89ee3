-- ===== src/Memory/Buffer/Calls.antt =====
-- What the users of a buffer do, and what they may expect of its destructors.
use fuxi_n.Prelude.{ℕ, ◌^◌, ◌≤◌, Option, some, List, [], ◌∷◌, ◌++◌}
use fuxi_n.Memory.Pages.{PageAllocator, ◌>>=◌}
use fuxi_n.Memory.Buffer.{Upstream, DestroyTask, Buffer, new_buffer, allocate}
use fuxi_n.Memory.Buffer.Release.{register_destructor, release}
use fuxi_n.Memory.Buffer.Layout.{Piece}

-- A request for bytes with the alignment 2^k, a destructor, or a release
pub data Call : Type 0 where
  allocates : (bytes k : ℕ) → Call
  registers : DestroyTask → Call
  releases : Call

abbrev pub AreCalls : List Call → Type 0
AreCalls [] = Unit
AreCalls (allocates bytes k ∷ cs) = (1 ≤ bytes) × (bytes ≤ 2 ^ 62) × (k ≤ 62) × AreCalls cs
AreCalls (registers t ∷ cs) = AreCalls cs
AreCalls (releases ∷ cs) = AreCalls cs

-- The buffer with the pieces given since the last release, and the tasks that ran, first to last
pub record Life (P U : Type 0) : Type 0 where
  pub buffer : Buffer P U
  pub pieces : List Piece
  pub ran : List DestroyTask

-- What is due by the class comment: at each release the destructors that were registered before it
-- and not run, newest first.
abbrev pub due : List DestroyTask → List Call → List DestroyTask
due waiting [] = []
due waiting (allocates bytes k ∷ cs) = due waiting cs
due waiting (registers t ∷ cs) = due (t ∷ waiting) cs
due waiting (releases ∷ cs) = waiting ++ due [] cs

module _ (a : PageAllocator) (u : Upstream) (thread : ℕ) where
  abbrev pub call : Call → Life a.State u.State → Option (Life a.State u.State)
  call (allocates bytes k) w = do
    placed ← allocate a u thread w.buffer bytes (2 ^ k)
    some (record {
      buffer = placed.buffer;
      pieces = record { start = placed.address; bytes = bytes } ∷ w.pieces;
      ran = w.ran;
    })
  call (registers t) w = do
    buffer ← register_destructor a u thread w.buffer t
    some (record { buffer = buffer; pieces = w.pieces; ran = w.ran })
  call releases w = do
    (buffer, ran) ← release a u thread w.buffer
    some (record { buffer = buffer; pieces = []; ran = w.ran ++ ran })

  abbrev pub run : List Call → Life a.State u.State → Option (Life a.State u.State)
  run [] w = some w
  run (c ∷ cs) w = call c w >>= run cs

  abbrev pub new_life : a.State → u.State → Life a.State u.State
  new_life p up = record { buffer = new_buffer p up; pieces = []; ran = [] }
