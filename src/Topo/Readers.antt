-- ===== src/Topo/Readers.antt =====
-- Each table of readers implements a register of processes.
use fuxi_n.Prelude.{
  ℕ, ◌+◌, ◌%◌, ◌≤◌, ◌<◌, ◌≡◌, refl, ap, ◌∙◌, Bool, true, none, some, update, u16_mod, leb, ==_refl,
  ==_ne, List, [], ◌∷◌, ◌++◌, length, length-append, ℤ, pos, negsuc, minus_one, eq_int, arith,
  Option, Bool-cases, Option-cases, inl, inr,
}
use native.Mathlib.Decide.{dec_le, ℕ_discrete}
use fuxi_n.Registry.{
  first_match, position, enroll, enroll-found, enroll-full, enroll-new, Hold, Hold-snoc, Hold-mono,
  first_match-eq-position,
}
use fuxi_n.Names.{IsText, is_equal, same_name, max_data_name_length}
use fuxi_n.Topo.{
  WriterSlot, ReaderSlot, TopoData, max_reader_num, register_writer_locked, register_reader_locked,
  set_reader_online, register_reader_of, register_reader,
}
use fuxi_n.Topo.Writers.{HasWriters, locked_refines, put_slot-HasWriters, short-test}

abbrev HoldsProcess : ReaderSlot → ℤ → Type 0
HoldsProcess slot p = slot.process_state_index ≡ p

-- The comparison of the scan: the process asked for stands on the left.
abbrev pub same_process : ℤ → ℤ → Bool
same_process b a = eq_int a b

-- A slot holds the readers `pids`, in the order of their indexes.
pub record HasReaders (slot : WriterSlot) (pids : List ℤ) : Type 0 where
  pub reader_count : slot.reader_num ≡ length pids
  pub reader_room : length pids ≤ max_reader_num
  pub readers : Hold HoldsProcess slot.reader_slots 0 pids

abbrev with_reader : WriterSlot → ℤ → WriterSlot
with_reader slot p = record slot {
  reader_num = (slot.reader_num + 1) % u16_mod;
  reader_slots =
      update slot.reader_slots slot.reader_num
        (record { process_state_index = p; is_online = true });
}

module _ (slot : WriterSlot) (pids : List ℤ) (p : ℤ) (h : HasReaders slot pids) where
  scan_readers :
      first_match (λ i. eq_int p (slot.reader_slots i).process_state_index) slot.reader_num 0
      ≡ position same_process p pids 0
  scan_readers = rw h.reader_count (
      first_match-eq-position HoldsProcess (λ s. eq_int p s.process_state_index) same_process p
        slot.reader_slots 0 pids (λ s b e. ap (eq_int p) e) h.readers)

  reader-found :
      (i : ℕ)
      → position same_process p pids 0 ≡ some i
      → register_reader_locked slot p ≡ (pos i, slot)
  unfolding register_reader_locked
  reader-found i e = rw (scan_readers, e, register_reader_locked) refl

  reader-full :
      position same_process p pids 0 ≡ none
      → max_reader_num ≤ length pids
      → register_reader_locked slot p ≡ (minus_one, slot)
  unfolding register_reader_locked
  reader-full e full = rw (scan_readers, e, register_reader_locked) (ground (arith, h.reader_count))

  reader-new :
      position same_process p pids 0 ≡ none
      → length pids < max_reader_num
      → register_reader_locked slot p ≡ (pos (length pids), with_reader slot p)
  unfolding register_reader_locked
  reader-new e room = rw (scan_readers, e, register_reader_locked) (ground (arith, h.reader_count))

  with_reader-HasReaders :
      length pids < max_reader_num → HasReaders (with_reader slot p) (pids ++ p ∷ [])
  with_reader-HasReaders room = record {
    reader_count = omega (arith, h.reader_count, length-append pids (p ∷ []));
    reader_room = omega (arith, length-append pids (p ∷ []));
    readers =
        Hold-snoc HoldsProcess slot.reader_slots 0 slot.reader_num pids
          (record { process_state_index = p; is_online = true }) p (omega (arith, h.reader_count))
          h.readers refl;
  }

  pub reader_refines :
      let (idx, slot') = register_reader_locked slot p in
      let (i, pids') = enroll same_process max_reader_num pids p in
      (idx ≡ i) × HasReaders slot' pids' × (slot'.field ≡ slot.field)
  reader_refines = elim (Option-cases (position same_process p pids 0)) [
    | inl e ↦ elim (dec_le max_reader_num (length pids)) [
      | yes full ↦
          rw (reader-full e full, enroll-full same_process max_reader_num pids p e full)
            (refl, h, refl)
      | no room ↦
          rw
            (
              reader-new e (omega arith),
              enroll-new same_process max_reader_num pids p e (omega arith),
            )
            (refl, with_reader-HasReaders (omega arith), refl)
    ]
    | inr (i, e) ↦
        rw (reader-found i e, enroll-found same_process max_reader_num pids p i e) (refl, h, refl)
  ]

set_reader_online-HasReaders :
    (slot : WriterSlot) (pids : List ℤ) (idx : ℤ)
    → HasReaders slot pids
    → HasReaders (set_reader_online slot idx) pids
      × ((set_reader_online slot idx).field ≡ slot.field)
unfolding set_reader_online
set_reader_online-HasReaders slot pids (negsuc i) h = (h, refl)
set_reader_online-HasReaders slot pids (pos i) h = (
  record {
    reader_count = h.reader_count;
    reader_room = h.reader_room;
    readers =
        Hold-mono HoldsProcess slot.reader_slots (set_reader_online slot (pos i)).reader_slots 0
          pids (λ j a n. kept j a n) h.readers;
  },
  refl,
)
  where
    kept :
        (j : ℕ) (a : ℤ)
        → (slot.reader_slots j).process_state_index ≡ a
        → ((set_reader_online slot (pos i)).reader_slots j).process_state_index ≡ a
    kept j a n = ground (arith, n)

-- After the writer's slot `w` was found or made, the process is enrolled among the readers of that slot.
reader_of_refines :
    (t : TopoData) (names : List (List ℕ)) (pids : List ℤ) (w : ℕ) (p : ℤ)
    → HasWriters t names
    → HasReaders (t.writer_slot_table w) pids
    → let (idx, t') = register_reader_of p t (pos w) in
      let (i, pids') = enroll same_process max_reader_num pids p in
      (idx.writer_idx ≡ pos w)
      × (idx.reader_idx ≡ i)
      × HasWriters t' names
      × HasReaders (t'.writer_slot_table w) pids'
unfolding register_reader_of
reader_of_refines t names pids w p h r =
    let (e, kept, field) = reader_refines (t.writer_slot_table w) pids p r in
    let (online, field') =
      set_reader_online-HasReaders (register_reader_locked (t.writer_slot_table w) p).1 _
        (register_reader_locked (t.writer_slot_table w) p).0 kept in
    (refl, e, put_slot-HasWriters t names w _ (field' ∙ field) h, rw (==_refl w) online)

-- Registering a writer leaves the readers of every slot.
locked-readers :
    (t : TopoData) (a : List ℕ) (j : ℕ)
    → let slot = (register_writer_locked t a).1.writer_slot_table j in
      (slot.reader_num ≡ (t.writer_slot_table j).reader_num)
      × (slot.reader_slots ≡ (t.writer_slot_table j).reader_slots)
unfolding register_writer_locked
locked-readers t a j = elim (Option-cases scan) [
  | inl e ↦ elim (Bool-cases (leb max_reader_num t.writer_num)) [
    | inl full ↦ rw (e, register_writer_locked) (rw full (refl, refl))
    | inr room ↦
        rw (e, register_writer_locked)
          (rw room (elim (ℕ_discrete j t.writer_num) [
            | yes same ↦ rw (same, ==_refl t.writer_num) (refl, refl)
            | no other ↦ rw (==_ne j t.writer_num other) (refl, refl)
          ]))
  ]
  | inr (i, e) ↦ rw (e, register_writer_locked) (refl, refl)
]
  where
    scan : Option ℕ
    scan = first_match (λ i. is_equal (t.writer_slot_table i).field a) t.writer_num 0

-- `RegisterReader` of a process on a name without a NUL, of at most 256 bytes, where `enroll` gives
-- the name the writer index `w`: the name is enrolled as by `RegisterWriter`, and the process is
-- enrolled among the readers of slot `w`, with room for 128; both indexes are returned.
pub register_reader_refines :
    (t : TopoData) (names : List (List ℕ)) (pids : List ℤ) (p : ℤ) (a : List ℕ) (w : ℕ)
    → HasWriters t names
    → IsText a
    → length a ≤ max_data_name_length
    → (enroll same_name max_reader_num names a).0 ≡ pos w
    → HasReaders (t.writer_slot_table w) pids
    → let (idx, t') = register_reader t p a in
      let names' = (enroll same_name max_reader_num names a).1 in
      let (i, pids') = enroll same_process max_reader_num pids p in
      (idx.writer_idx ≡ pos w)
      × (idx.reader_idx ≡ i)
      × HasWriters t' names'
      × HasReaders (t'.writer_slot_table w) pids'
unfolding register_reader
register_reader_refines t names pids p a w h text short e r =
    let (found, kept) = locked_refines t names a h text short in
    let (same_num, same_slots) = locked-readers t a w in
    rw (short-test a short, found ∙ e, register_reader)
      (reader_of_refines (register_writer_locked t a).1 _ pids w p kept (record {
        reader_count = same_num ∙ r.reader_count;
        reader_room = r.reader_room;
        readers = rw same_slots r.readers;
      }))

-- With no room for the name, `RegisterReader` of a name without a NUL, of at most 256 bytes, returns
-- -1 for both indexes.
pub register_reader_full :
    (t : TopoData) (names : List (List ℕ)) (p : ℤ) (a : List ℕ)
    → HasWriters t names
    → IsText a
    → length a ≤ max_data_name_length
    → (enroll same_name max_reader_num names a).0 ≡ minus_one
    → (register_reader t p a).0 ≡ record { writer_idx = minus_one; reader_idx = minus_one }
unfolding register_reader register_reader_of
register_reader_full t names p a h text short e =
    rw (short-test a short, (locked_refines t names a h text short).0 ∙ e, register_reader) refl
