-- ===== src/Segment.antt =====
-- `Segment` (src/fuxi/shm/impl/segment.cc) and `SegmentState` (segment_state.h): how the handles of a
-- shared segment open it, wait for its creator, count themselves and remove it, one call at a time.
-- The flags that `OpenOrCreate` and `OpenOnly` leave in a handle (src/fuxi/shm/port/xsi_segment.cc) are
-- kept. `Shared` is the segment that the handle has or gets. What the virtual `OpenOrCreate` and `OpenOnly` answer, and what a waiting handle reads, is input.
pub mod Lifetime
use fuxi_n.Prelude.{
  Bool, true, false, ℕ, zero, suc, ◌+◌, ◌-◌, ◌*◌, ◌/◌, ◌%◌, ◌^◌, u32_mod, u64_mod, ltb, leb, ◌==◌,
  ◌||◌, if◌then◌else◌, Array, update, Option, none, some, List, [], ◌∷◌,
}

-- The state in the shared memory: `inited_` and `reference_count_` with its 32 bits, and whether the
-- system has the segment.
pub record Shared : Type 0 where
  pub exists : Bool
  pub state_init : Bool
  pub reference_count : ℕ

pub record SegmentOption : Type 0 where
  pub space_size : ℕ
  pub block_num : ℕ
  pub block_size : ℕ

-- `SegmentProtectionSapceSize`
abbrev pub protection_size : ℕ → ℕ
protection_size page_size = page_size * 2

-- The constructor adds the protection to the space.
abbrev pub new_option : ℕ → SegmentOption → SegmentOption
new_option page_size opt = record opt {
  space_size = (opt.space_size + protection_size page_size) % u64_mod;
}

-- `InitPreOpen`, for a block size that is not 0: the number of blocks is what fits.
abbrev pub init_pre_open : ℕ → SegmentOption → Bool × SegmentOption
init_pre_open page_size opt =
    let block_num = (opt.space_size - protection_size page_size) / opt.block_size % u32_mod in
    if ltb opt.space_size (protection_size page_size)
    then (false, opt)
    else if ltb block_num opt.block_num || (opt.block_num == 0)
    then (true, record opt { block_num = block_num })
    else (true, opt)

-- What the virtual `OpenOrCreate` or `OpenOnly` did
pub data Opening : Type 0 where
  refused : Opening
  created : Opening  -- with `create_flag_`
  opened : Opening

-- The loop of `InitPostOpen`: `polls i` is what the read `i` of `IsInit` gives.
abbrev pub wait_created : ℕ → (ℕ → Bool) → ℕ → ℕ → Option Bool
wait_created zero polls i retry_times = none
wait_created (suc fuel) polls i retry_times = elim (polls i) [
  | true ↦ some true
  | false ↦ elim (ltb 2000 (retry_times + 2)) [
    | true ↦ some false
    | false ↦ wait_created fuel polls (i + 1) (retry_times + 2)
  ]
]

-- `InitPostCreate`: a new layout in the memory of the segment, with its state
abbrev pub init_post_create : Shared → Shared
init_post_create s = record s { state_init = true; reference_count = 1 }

-- `IncreaseReferenceCount` and `DecreaseReferenceCount`
abbrev pub increase : Shared → Shared
increase s = record s { reference_count = (s.reference_count + 1) % u32_mod }

abbrev pub decrease : Shared → Shared
decrease s = record s { reference_count = (s.reference_count + (u32_mod - 1)) % u32_mod }

-- `Remove`
abbrev pub remove : Shared → Shared
remove s = record s { exists = false }

abbrev pub init_post_open : Option Bool → Shared → Bool × Shared
init_post_open (some true) s = (true, increase s)
init_post_open _ s = (false, s)

-- A handle: `inited_`, `open_flag_` and `create_flag_`. The last two are set by `OpenOrCreate` and
-- `OpenOnly` and never reset.
pub record Handle : Type 0 where
  pub inited : Bool
  pub open_flag : Bool
  pub create_flag : Bool

-- `OpenOrCreate` or `OpenOnly` of a handle, by its `open_flag`: with the flag it returns at once, and
-- the handle keeps the memory that it has.
abbrev pub open_handle : Bool → Opening → Handle → Shared → Option (Handle × Shared)
open_handle true opening h s = some (h, s)
open_handle false refused h s = none
open_handle false created h s = some (
  record h { open_flag = true; create_flag = true },
  record { exists = true; state_init = false; reference_count = 0 },
)
open_handle false opened h s = some (record h { open_flag = true }, s)

-- By the `create_flag` of the handle
abbrev pub init_post : ℕ → (ℕ → Bool) → Bool → Shared → Bool × Shared
init_post fuel polls true s = (true, init_post_create s)
init_post fuel polls false s = init_post_open (wait_created fuel polls 0 0) s

abbrev pub init_opened :
    ℕ → (ℕ → Bool) → Handle → Shared → Option (Handle × Shared) → Handle × Shared
init_opened fuel polls h s none = (h, s)
init_opened fuel polls h s (some (h', s')) =
    let (ret, s'') = init_post fuel polls h'.create_flag s' in (record h' { inited = ret }, s'')

-- `Initialize` of a handle, over the segment that it has or gets, where `InitPreOpen` changes only the
-- option of the handle, and its answer is dropped. It returns the `inited_` that it leaves.
abbrev pub initialize : ℕ → Opening → (ℕ → Bool) → Handle → Shared → Handle × Shared
initialize fuel opening polls h s = elim h.inited [
  | true ↦ (h, s)
  | false ↦ init_opened fuel polls h s (open_handle h.open_flag opening h s)
]

-- `Destroy`, which leaves the flags
abbrev pub destroy : Handle → Shared → Handle × Shared
destroy h s = elim h.inited [
  | false ↦ (h, s)
  | true ↦
      let less = decrease s in
      (record h { inited = false }, if less.reference_count == 0 then remove less else less)
]

-- The handles of any processes, and their calls
pub record Handles : Type 0 where
  pub handles : Array Handle
  pub shared : Shared

pub data Call : Type 0 where
  initializes : ℕ → Opening → (ℕ → Bool) → Call
  destroys : ℕ → Call

abbrev pub with_handle : Handles → ℕ → Handle × Shared → Handles
with_handle h a (g, s) = record { handles = update h.handles a g; shared = s }

abbrev pub call : ℕ → Handles → Call → Handles
call fuel h (initializes a opening polls) =
    with_handle h a (initialize fuel opening polls (h.handles a) h.shared)
call fuel h (destroys a) = with_handle h a (destroy (h.handles a) h.shared)

abbrev pub run : ℕ → Handles → List Call → Handles
run fuel h [] = h
run fuel h (c ∷ cs) = run fuel (call fuel h c) cs

abbrev pub new_handles : Handles
new_handles = record {
  handles = λ _. record { inited = false; open_flag = false; create_flag = false };
  shared = record { exists = false; state_init = false; reference_count = 0 };
}
