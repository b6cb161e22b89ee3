-- ===== src/Domain.antt =====
-- src/fuxi/shm/topo/domain_layout.h and domain_layout.cc: the layout of a shared memory domain, with
-- its table of segments, its table of processes and its bump allocator; the calls of
-- src/fuxi/shm/topo/domain_metadata.cc and src/fuxi/shm/shm_domain.cc that reach them. The calls on
-- one table hold its write lock throughout. The topology of writers is in Topo.
pub mod Tables
pub mod Space
use fuxi_n.Prelude.{
  ℕ, zero, suc, ◌+◌, ◌-◌, ◌*◌, ◌%◌, Bool, true, false, Option, none, some, Array, update, u16_mod,
  u32_mod, u64_mod, ltb, leb, ◌==◌, if◌then◌else◌, List, [], ◌∷◌, ℤ, pos, negsuc, minus_one, eq_int,
}
use fuxi_n.Registry.{first_match}
use fuxi_n.Names.{NameField, set_name, is_equal}

-- MAX_SEGMENT_NUM, MAX_PROCESS_NUM
abbrev pub max_segment_num : ℕ
max_segment_num = 1024

abbrev pub max_process_num : ℕ
max_process_num = 256

-- The members of `SegmentIndicator` that some code reads or writes
pub record SegmentIndicator : Type 0 where
  pub field : NameField
  pub index : ℕ

pub record SegmentIndicatorTable : Type 0 where
  pub segment_num : ℕ
  pub indicator_table : Array SegmentIndicator

-- The segment number is 16 bits wide; the result of `SetName` goes unused.
pub register_segment : SegmentIndicatorTable → List ℕ → ℤ × SegmentIndicatorTable
register_segment t name =
    let found = first_match (λ i. is_equal (t.indicator_table i).field name) t.segment_num 0 in
    let idx = t.segment_num in
    elim found [
      | some i ↦ (pos i, t)
      | none ↦ (
        pos idx,
        record {
          segment_num = (t.segment_num + 1) % u16_mod;
          indicator_table =
              update t.indicator_table idx
                (record { field = (set_name (t.indicator_table idx).field name).1; index = idx });
        },
      )
    ]

-- SHM_SEGMENTDATA_BASE_ADDR and SHM_MAX_SEGMENT_SIZE
abbrev pub segment_data_base : ℕ
segment_data_base = 0x520000000000

abbrev pub max_segment_size : ℕ
max_segment_size = 0x100000000

-- The address that `ShmDomain::GetSegment` gives to the segment of an index; -1 does not occur.
pub segment_address : ℕ → ℕ
segment_address idx = (segment_data_base + idx * max_segment_size) % u64_mod

-- The members of `ProcessState` that registration reads and writes
pub record ProcessState : Type 0 where
  pub pid : ℤ
  pub is_online : Bool

pub record ProcessStateTable : Type 0 where
  pub process_cnt : ℕ
  pub process_state : Array ProcessState

-- `ShmDomainLayout::RegisterPid`. A new process gets the result 0, whatever its index.
pub register_pid : ProcessStateTable → ℤ → ℤ × ProcessStateTable
register_pid t pid =
    let found = first_match (λ i. eq_int pid (t.process_state i).pid) t.process_cnt 0 in
    let idx = t.process_cnt in
    elim found [
      | some i ↦ (pos i, t)
      | none ↦ if leb max_process_num t.process_cnt then (minus_one, t) else (
        pos 0,
        record {
          process_cnt = (t.process_cnt + 1) % u16_mod;
          process_state = update t.process_state idx (record { pid = pid; is_online = true });
        },
      )
    ]

-- `ShmDomain::RegisterProcess`: the result of `RegisterPid` goes unused.
pub register_process : ProcessStateTable → ℤ → ℤ × ProcessStateTable
register_process t pid = (pos 0, (register_pid t pid).1)

-- The members of `ShmProtoHeader` that `Init` and `Allocate` use
pub record ShmProtoHeader : Type 0 where
  pub inited : Bool
  pub header_space_size : ℕ
  pub total_space_size : ℕ
  pub free_space_size : ℕ
  pub free_space_used : ℕ

-- `void* Allocate(size_t size)`: a null pointer, or the offset from `data`. The sum is a `size_t`,
-- the space used is 32 bits wide.
pub allocate : ShmProtoHeader → ℕ → Option ℕ × ShmProtoHeader
allocate h size =
    if ltb h.free_space_size ((size + h.free_space_used) % u64_mod) then (none, h) else (
      some h.free_space_used,
      record h { free_space_used = (h.free_space_used + size) % u32_mod },
    )

-- The loop of `Init` that gives each process state a buffer, by the rounds that it makes: the offsets
-- given, in order, up to the first that fails, and whether all were given.
pub allocate_all : ℕ → ℕ → ShmProtoHeader → Bool × List ℕ × ShmProtoHeader
allocate_all zero size h = (true, [], h)
allocate_all (suc rounds) size h =
    let (ptr, h') = allocate h size in
    elim ptr [
      | none ↦ (false, [], h')
      | some offset ↦
          let (done, offsets, h'') = allocate_all rounds size h' in (done, offset ∷ offsets, h'')
    ]

-- `ShmDomainLayout::Init` on the header, for a layout of `layout_size` bytes before `data`, and
-- process queues of `queue_size` bytes. The topology and the tables are made new beside it.
pub init : ℕ → ℕ → ShmProtoHeader → ℕ → Bool × List ℕ × ShmProtoHeader
init layout_size queue_size h nbytes =
    let start : ShmProtoHeader = record {
      inited = false;
      header_space_size = layout_size % u32_mod;
      total_space_size = nbytes;
      free_space_size = (nbytes + u32_mod - layout_size % u32_mod) % u32_mod;
      free_space_used = 0;
    } in
    let (done, offsets, used) = allocate_all max_process_num queue_size start in
    if h.inited
    then (true, [], h)
    else if done
    then (true, offsets, record used { inited = true })
    else (false, offsets, used)

-- `ShmDomainLayout::TotalSpaceSize()`
pub total_space_size : ℕ → ℕ → ℕ
total_space_size layout_size queue_size =
    (layout_size + max_process_num * queue_size % u64_mod) % u64_mod
