-- ===== src/Memory/Batch/Runs.antt =====
-- `BatchPageAllocator`, from its construction to its destruction.
use fuxi_n.Prelude.{ℕ, ◌+◌, ◌≤◌, ◌≡◌, some, List, [], count, arith}
use fuxi_n.Memory.Pages.{Got, PageAllocator, IsPageAllocator}
use fuxi_n.Memory.History.{Call, run, run-IsLent}
use fuxi_n.Memory.Batch.{Batch, destroy, batched}
use fuxi_n.Memory.Batch.Slots.{kept, AreSlots}
use fuxi_n.Memory.Batch.Lends.{batched-IsPageAllocator, destroy_lem}

-- An allocator after `set_upstream` and `set_batch_size`
abbrev pub new_batch : {S : Type 0} → (batch_size : ℕ) → S → Batch S
new_batch batch_size s = record { upstream = s; batch_size = batch_size; cache = [] }

no_slots : (n : ℕ) → AreSlots n []
unfolding AreSlots
no_slots n = tt

-- From a new allocator with batches of at least one page, over an allocator that keeps its contract,
-- every history of the calls of any threads comes back and no page is held twice. The destructor then
-- comes back too, and what is out of the upstream allocator besides what was out before is exactly
-- what the users hold.
pub batched-run :
    (a : PageAllocator) (h : IsPageAllocator a) (batch_size : ℕ) (s : a.State)
    → 1 ≤ batch_size
    → h.IsValid s
    → (cs : List Call)
    → (s' : Got (Batch a.State)) × (up : a.State) × (run
          (batched a)
          cs
          (record { pages = []; state = new_batch batch_size s })
        ≡ some s')
      × ((p : ℕ) → count p s'.pages ≤ 1)
      × (destroy a s'.state ≡ some up)
      × ((p : ℕ) → h.held up p ≡ h.held s p + count p s'.pages)
unfolding kept
batched-run a h batch_size s nonempty v cs =
    let (s', e, lent', once) =
      run-IsLent (batched a) (batched-IsPageAllocator a h) (λ s n. Unit)
        (record { took = λ thread num s n got j e. tt; gave = λ pages s n s' j e. tt }) (h.held s)
        cs (record { pages = []; state = new_batch batch_size s })
        (record {
          valid = record {
            upstream = v;
            nonempty = nonempty;
            slots = no_slots batch_size;
            owned = λ p. omega arith;
          };
          held = λ p. omega arith;
          tracks = tt;
        }) in
    let (up, e', _, back) = destroy_lem a h s'.state lent'.valid in
    (s', up, e, once, e', λ p. omega (arith, back p, lent'.held p))
