-- ===== src/Topo.antt =====
-- src/fuxi/shm/topo/topo_state.h and topo_state.cc: the table of writers of a shared memory domain,
-- each with its table of readers. Each call holds the write lock of the topology throughout. Fields
-- that no code reads or writes are left out; a table is the memory behind its first slot.
pub mod Writers
pub mod Readers
use fuxi_n.Prelude.{
  ℕ, ◌+◌, ◌%◌, Bool, true, false, Option, none, some, Array, update, u16_mod, ltb, leb, ◌==◌,
  if◌then◌else◌, List, length, ℤ, pos, negsuc, minus_one, eq_int,
}
use fuxi_n.Registry.{first_match}
use fuxi_n.Names.{NameField, max_data_name_length, set_name, is_equal}

-- MAX_READER_NUM; the array of writer slots has MAX_WRITER_NUM.
abbrev pub max_reader_num : ℕ
max_reader_num = 128

abbrev pub max_writer_num : ℕ
max_writer_num = 1024

pub record ReaderIndex : Type 0 where
  pub writer_idx : ℤ
  pub reader_idx : ℤ

pub record ReaderSlot : Type 0 where
  pub is_online : Bool
  pub process_state_index : ℤ

pub record WriterSlot : Type 0 where
  pub is_online : Bool
  pub field : NameField
  pub reader_num : ℕ
  pub reader_slots : Array ReaderSlot

pub record TopoData : Type 0 where
  pub writer_num : ℕ
  pub writer_slot_table : Array WriterSlot

-- `topo_data_.writer_slot_table[idx] = slot`
abbrev pub put_slot : TopoData → ℕ → WriterSlot → TopoData
put_slot t idx slot = record t { writer_slot_table = update t.writer_slot_table idx slot }

pub register_writer_locked : TopoData → List ℕ → ℤ × TopoData
register_writer_locked t name =
    let found = first_match (λ i. is_equal (t.writer_slot_table i).field name) t.writer_num 0 in
    let idx = t.writer_num in
    let slot = t.writer_slot_table idx in
    elim found [
      | some i ↦ (pos i, t)
      | none ↦ if leb max_reader_num t.writer_num then (minus_one, t) else (
        pos idx,
        record t {
          writer_num = (t.writer_num + 1) % u16_mod;
          writer_slot_table =
              update t.writer_slot_table idx (record slot { field = (set_name slot.field name).1 });
        },
      )
    ]

-- `if (idx >= 0) topo_data_.writer_slot_table[idx].is_online = true;`
pub set_writer_online : TopoData → ℤ → TopoData
set_writer_online t (negsuc i) = t
set_writer_online t (pos i) = put_slot t i (record (t.writer_slot_table i) { is_online = true })

-- The process index goes unused.
pub register_writer : TopoData → ℤ → List ℕ → ℤ × TopoData
register_writer t process_idx name =
    let (idx, t') = register_writer_locked t name in
    if ltb max_data_name_length (length name)
    then (minus_one, t)
    else (idx, set_writer_online t' idx)

pub register_reader_locked : WriterSlot → ℤ → ℤ × WriterSlot
register_reader_locked slot process_idx =
    let found =
      first_match (λ i. eq_int process_idx (slot.reader_slots i).process_state_index)
        slot.reader_num 0 in
    let idx = slot.reader_num in
    elim found [
      | some i ↦ (pos i, slot)
      | none ↦ if leb max_reader_num slot.reader_num then (minus_one, slot) else (
        pos idx,
        record slot {
          reader_num = (slot.reader_num + 1) % u16_mod;
          reader_slots =
              update slot.reader_slots idx
                (record { process_state_index = process_idx; is_online = true });
        },
      )
    ]

-- `slot->reader_slots[i].is_online = true` for an index that was found
pub set_reader_online : WriterSlot → ℤ → WriterSlot
set_reader_online slot (negsuc i) = slot
set_reader_online slot (pos i) = record slot {
  reader_slots = update slot.reader_slots i (record (slot.reader_slots i) { is_online = true });
}

-- What follows the registration of the writer
pub register_reader_of : ℤ → TopoData → ℤ → ReaderIndex × TopoData
register_reader_of process_idx t (negsuc i) =
    (record { writer_idx = minus_one; reader_idx = minus_one }, t)
register_reader_of process_idx t (pos w) =
    let (reader_idx, slot) = register_reader_locked (t.writer_slot_table w) process_idx in
    (
      record { writer_idx = pos w; reader_idx = reader_idx },
      put_slot t w (set_reader_online slot reader_idx),
    )

pub register_reader : TopoData → ℤ → List ℕ → ReaderIndex × TopoData
register_reader t process_idx name =
    let (writer_idx, t') = register_writer_locked t name in
    if ltb max_data_name_length (length name)
    then (record { writer_idx = minus_one; reader_idx = minus_one }, t)
    else register_reader_of process_idx t' writer_idx
