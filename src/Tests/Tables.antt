-- ===== src/Tests/Tables.antt =====
-- Tables with the names "ab" and "c", with no names, and full ones.
use fuxi_n.Prelude.{
  ℕ, zero, suc, ◌+◌, ◌≡◌, refl, List, [], ◌∷◌, ◌++◌, length, replicate, true, none, some, arith,
  pos, minus_one, if◌then◌else◌, leb,
}
use fuxi_n.Registry.{position, enroll, Hold}
use fuxi_n.Names.{NameField, IsText, IsNamed, same_name}
use fuxi_n.Topo.{WriterSlot, ReaderSlot, TopoData, max_reader_num, register_writer, register_reader}
use fuxi_n.Topo.Writers.{HasWriters, register_writer_refines}
use fuxi_n.Topo.Readers.{HasReaders, same_process, register_reader_refines}
use fuxi_n.Domain.{
  SegmentIndicator, SegmentIndicatorTable, ProcessStateTable, max_process_num, register_pid,
}
use fuxi_n.Domain.Tables.{HasProcesses, same_pid, register_pid_lem}

abbrev ab : List ℕ
ab = 97 ∷ 98 ∷ []

abbrev c : List ℕ
c = 99 ∷ []

ab-IsText : IsText ab
ab-IsText = (omega arith, (omega arith, tt))

abbrev blank : NameField
blank = record { name = replicate 256 0; name_len = 0 }

abbrev named_ab : NameField
named_ab = record { name = ab ++ replicate 254 0; name_len = 2 }

named_ab-IsNamed : IsNamed named_ab ab
named_ab-IsNamed = record { is_text = ab-IsText; len_eq = refl; padding = 254; name_eq = refl }

-- One writer, "ab", with the reader 40
abbrev reader_40 : ReaderSlot
reader_40 = record { is_online = true; process_state_index = pos 40 }

abbrev slot_ab : WriterSlot
slot_ab = record {
  is_online = true;
  field = named_ab;
  reader_num = 1;
  reader_slots = λ i. reader_40;
}

abbrev topo : TopoData
topo = record { writer_num = 1; writer_slot_table = λ i. slot_ab }

topo-HasWriters : HasWriters topo (ab ∷ [])
topo-HasWriters = record {
  writer_count = refl;
  writer_room = omega arith;
  writers = (named_ab-IsNamed, tt);
}

slot_ab-HasReaders : HasReaders slot_ab (pos 40 ∷ [])
slot_ab-HasReaders = record { reader_count = refl; reader_room = omega arith; readers = (refl, tt) }

register_c :
    let (idx, t') = register_writer topo (pos 0) c in
    let (i, names') = enroll same_name max_reader_num (ab ∷ []) c in
    (idx ≡ i) × HasWriters t' names'
register_c =
    register_writer_refines topo (ab ∷ []) (pos 0) c topo-HasWriters (omega arith, tt) (omega arith)

register_reader_41 :
    let (idx, t') = register_reader topo (pos 41) ab in
    let names' = (enroll same_name max_reader_num (ab ∷ []) ab).1 in
    let (i, pids') = enroll same_process max_reader_num (pos 40 ∷ []) (pos 41) in
    (idx.writer_idx ≡ pos 0)
    × (idx.reader_idx ≡ i)
    × HasWriters t' names'
    × HasReaders (t'.writer_slot_table 0) pids'
register_reader_41 =
    register_reader_refines topo (ab ∷ []) (pos 40 ∷ []) (pos 41) ab 0 topo-HasWriters ab-IsText
      (omega arith) refl slot_ab-HasReaders

-- Full tables, of one name
abbrev full_topo : TopoData
full_topo = record topo { writer_num = 128 }

writers_of :
    (n s : ℕ)
    → Hold
        (λ (slot : WriterSlot) (a : List ℕ). IsNamed slot.field a)
        (λ i. slot_ab)
        s
        (replicate n ab)
writers_of zero s = tt
writers_of (suc n) s = (named_ab-IsNamed, writers_of n (s + 1))

full_topo-HasWriters : HasWriters full_topo (replicate 128 ab)
full_topo-HasWriters = record {
  writer_count = refl;
  writer_room = omega arith;
  writers = writers_of 128 0;
}

abbrev indicator_ab : SegmentIndicator
indicator_ab = record { field = named_ab; index = 0 }

abbrev segments_of : ℕ → SegmentIndicatorTable
segments_of n = record { segment_num = n; indicator_table = λ i. indicator_ab }

abbrev processes : ProcessStateTable
processes = record {
  process_cnt = 1;
  process_state = λ i. record { pid = pos 500; is_online = true };
}

processes-HasProcesses : HasProcesses processes (pos 500 ∷ [])
processes-HasProcesses = record {
  process_count = refl;
  process_room = omega arith;
  processes = (refl, tt);
}

register_pid_501 :
    let (idx, t') = register_pid processes (pos 501) in
    let (i, pids') = enroll same_pid max_process_num (pos 500 ∷ []) (pos 501) in
    HasProcesses t' pids'
    × (idx ≡ elim (position same_pid (pos 501) (pos 500 ∷ []) 0) [
      | some k ↦ pos k
      | none ↦ if leb max_process_num (length (pos 500 ∷ [])) then minus_one else pos 0
    ])
register_pid_501 = register_pid_lem processes (pos 500 ∷ []) (pos 501) processes-HasProcesses
