-- ===== src/Memory/Batch.antt =====
-- `BatchPageAllocator` (src/fuxi/mm/page_allocator.cc): each thread takes its pages one at a time
-- from a batch that it got from the upstream allocator. The calls run one after the other.
pub mod Slots
pub mod Lends
pub mod Runs
use fuxi_n.Prelude.{
  ℕ, zero, suc, ◌+◌, ◌-◌, ◌≤◌, ◌<◌, ◌≡◌, refl, sym, ap, ◌∙◌, Option, none, some, List, [], ◌∷◌,
  ◌++◌, length, length-append, length-drop, length-replicate, drop, replicate, ltb, leb, lt→ltb,
  ge→ltb, if◌then◌else◌, count, count-append, arith,
}
use fuxi_n.Memory.Pages.{Got, PageAllocator, first, ◌>>=◌}

-- The `next_page` of a slot, as its offset in the buffer
pub record Slot : Type 0 where
  pub buffer : List ℕ
  pub next_page : ℕ

pub record Batch (S : Type 0) : Type 0 where
  pub upstream : S
  pub batch_size : ℕ
  -- `_cache`: the slots of the threads that have one
  pub cache : List Slot

-- What the constructor of the thread-local slots makes
abbrev pub new_slot : ℕ → Slot
new_slot batch_size = record { buffer = replicate batch_size 0; next_page = batch_size }

-- `_cache.local()`: the slot of the thread; `put` stores it again. The slots up to it are made when
-- they are missing.
pub local : ℕ → ℕ → List Slot → Slot
local batch_size zero [] = new_slot batch_size
local batch_size (suc t) [] = local batch_size t []
local batch_size zero (x ∷ xs) = x
local batch_size (suc t) (x ∷ xs) = local batch_size t xs

pub put : ℕ → ℕ → Slot → List Slot → List Slot
put batch_size zero y [] = y ∷ []
put batch_size (suc t) y [] = new_slot batch_size ∷ put batch_size t y []
put batch_size zero y (x ∷ xs) = y ∷ xs
put batch_size (suc t) y (x ∷ xs) = x ∷ put batch_size t y xs

-- The pages that the threads have not taken yet
abbrev pub remaining : Slot → List ℕ
remaining x = drop x.next_page x.buffer

module _ (a : PageAllocator) where
  -- The pages of a new batch are written over the buffer; `none` where they do not fit.
  abbrev pub refill : Slot → List ℕ → Option Slot
  refill x pages =
      if leb (length pages) (length x.buffer)
      then some (record { buffer = pages ++ drop (length pages) x.buffer; next_page = 1 })
      else none

  abbrev pub allocate_one : ℕ → Batch a.State → Option (Got (Batch a.State))
  allocate_one thread s =
      let x = local s.batch_size thread s.cache in
      if ltb x.next_page (length x.buffer)
      then (do
        page ← first (remaining x)
        some (record {
          pages = page ∷ [];
          state = record s {
            cache =
                put s.batch_size thread (record { buffer = x.buffer; next_page = suc x.next_page })
                  s.cache;
          };
        }))
      else (do
        got ← a.allocate thread s.batch_size s.upstream
        y ← refill x got.pages
        page ← first y.buffer
        some (record {
          pages = page ∷ [];
          state = record {
            upstream = got.state;
            batch_size = s.batch_size;
            cache = put s.batch_size thread y s.cache;
          };
        }))

  abbrev pub allocate_loop : ℕ → ℕ → Batch a.State → Option (Got (Batch a.State))
  allocate_loop thread zero s = some (record { pages = []; state = s })
  allocate_loop thread (suc num) s = do
    one ← allocate_one thread s
    rest ← allocate_loop thread num one.state
    some (record { pages = one.pages ++ rest.pages; state = rest.state })

  abbrev pub deallocate : List ℕ → Batch a.State → Option (Batch a.State)
  deallocate pages s = do s' ← a.deallocate pages s.upstream; some (record s { upstream = s' })

  -- `~BatchPageAllocator`: the rest of each batch goes back; what is left is the upstream allocator
  pub destroy_slots : List Slot → a.State → Option a.State
  destroy_slots [] s = some s
  destroy_slots (x ∷ xs) s =
      (if ltb x.next_page (length x.buffer) then a.deallocate (remaining x) s else some s)
      >>= destroy_slots xs

  pub destroy : Batch a.State → Option a.State
  unfolding destroy_slots
  destroy s = destroy_slots s.cache s.upstream

  abbrev pub batched : PageAllocator
  batched = record {
    State = Batch a.State;
    page_size = a.page_size;
    allocate = allocate_loop;
    deallocate = deallocate;
  }
