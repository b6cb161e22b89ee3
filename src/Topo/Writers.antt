-- ===== src/Topo/Writers.antt =====
-- The table of writers implements a register of names, and each table of readers one of processes.
use fuxi_n.Prelude.{
  ℕ, ◌+◌, ◌%◌, ◌≤◌, ◌<◌, ◌≡◌, refl, true, false, none, some, update, u16_mod, ltb, List, [], ◌∷◌,
  ◌++◌, length, length-append, ℤ, pos, negsuc, minus_one, arith, Option-cases, inl, inr, ==_refl,
  ==_ne,
}
use native.Mathlib.Decide.{dec_le, ℕ_discrete}
use fuxi_n.Registry.{
  first_match, position, enroll, enroll-found, enroll-full, enroll-new, Hold, Hold-snoc, Hold-mono,
  first_match-eq-position,
}
use fuxi_n.Names.{
  IsText, IsNamed, same_name, max_data_name_length, set_name, is_equal, set_name-IsNamed,
  is_equal-IsNamed,
}
use fuxi_n.Topo.{
  WriterSlot, TopoData, max_reader_num, put_slot, register_writer_locked, register_writer,
  set_writer_online,
}

abbrev HoldsName : WriterSlot → List ℕ → Type 0
HoldsName slot a = IsNamed slot.field a

-- A table holds the writers `names`, in the order of their indexes.
pub record HasWriters (t : TopoData) (names : List (List ℕ)) : Type 0 where
  pub writer_count : t.writer_num ≡ length names
  pub writer_room : length names ≤ max_reader_num
  pub writers : Hold HoldsName t.writer_slot_table 0 names

scan_writers :
    (t : TopoData) (names : List (List ℕ)) (a : List ℕ)
    → HasWriters t names
    → first_match (λ i. is_equal (t.writer_slot_table i).field a) t.writer_num 0
      ≡ position same_name a names 0
scan_writers t names a h = rw h.writer_count (
    first_match-eq-position HoldsName (λ slot. is_equal slot.field a) same_name a
      t.writer_slot_table 0 names (λ slot b n. is_equal-IsNamed slot.field b a n) h.writers)

-- The state after a new writer.
abbrev added : TopoData → List ℕ → TopoData
added t a =
    let slot = t.writer_slot_table t.writer_num in
    record t {
      writer_num = (t.writer_num + 1) % u16_mod;
      writer_slot_table =
          update t.writer_slot_table t.writer_num
            (record slot { field = (set_name slot.field a).1 });
    }

added-HasWriters :
    (t : TopoData) (names : List (List ℕ)) (a : List ℕ)
    → IsText a
    → length a ≤ max_data_name_length
    → length names < max_reader_num
    → HasWriters t names
    → HasWriters (added t a) (names ++ a ∷ [])
added-HasWriters t names a text short room h = record {
  writer_count = omega (arith, h.writer_count, length-append names (a ∷ []));
  writer_room = omega (arith, length-append names (a ∷ []));
  writers =
      Hold-snoc HoldsName t.writer_slot_table 0 t.writer_num names _ a
        (omega (arith, h.writer_count)) h.writers (set_name-IsNamed _ a text short).1;
}

module _ (t : TopoData) (names : List (List ℕ)) (a : List ℕ) (h : HasWriters t names) where
  locked-found :
      (i : ℕ) → position same_name a names 0 ≡ some i → register_writer_locked t a ≡ (pos i, t)
  unfolding register_writer_locked
  locked-found i e = rw (scan_writers t names a h, e, register_writer_locked) refl

  locked-full :
      position same_name a names 0 ≡ none
      → max_reader_num ≤ length names
      → register_writer_locked t a ≡ (minus_one, t)
  unfolding register_writer_locked
  locked-full e full =
      rw (scan_writers t names a h, e, register_writer_locked) (ground (arith, h.writer_count))

  locked-new :
      position same_name a names 0 ≡ none
      → length names < max_reader_num
      → register_writer_locked t a ≡ (pos (length names), added t a)
  unfolding register_writer_locked
  locked-new e room =
      rw (scan_writers t names a h, e, register_writer_locked) (ground (arith, h.writer_count))

  -- What registering a writer under the lock does: it enrolls the name.
  pub locked_refines :
      IsText a
      → length a ≤ max_data_name_length
      → let (idx, t') = register_writer_locked t a in
        let (i, names') = enroll same_name max_reader_num names a in
        (idx ≡ i) × HasWriters t' names'
  locked_refines text short = elim (Option-cases (position same_name a names 0)) [
    | inl e ↦ elim (dec_le max_reader_num (length names)) [
      | yes full ↦
          rw (locked-full e full, enroll-full same_name max_reader_num names a e full) (refl, h)
      | no room ↦
          rw
            (
              locked-new e (omega arith),
              enroll-new same_name max_reader_num names a e (omega arith),
            )
            (refl, added-HasWriters t names a text short (omega arith) h)
    ]
    | inr (i, e) ↦
        rw (locked-found i e, enroll-found same_name max_reader_num names a i e) (refl, h)
  ]

-- A change of one slot that keeps its name keeps the names of the table.
pub put_slot-HasWriters :
    (t : TopoData) (names : List (List ℕ)) (i : ℕ) (slot : WriterSlot)
    → slot.field ≡ (t.writer_slot_table i).field
    → HasWriters t names
    → HasWriters (put_slot t i slot) names
put_slot-HasWriters t names i slot e h = record {
  writer_count = h.writer_count;
  writer_room = h.writer_room;
  writers =
      Hold-mono HoldsName t.writer_slot_table (put_slot t i slot).writer_slot_table 0 names
        (λ j a n. kept j a n) h.writers;
}
  where
    kept :
        (j : ℕ) (a : List ℕ)
        → IsNamed (t.writer_slot_table j).field a
        → IsNamed (update t.writer_slot_table i slot j).field a
    kept j a n = elim (ℕ_discrete j i) [
      | yes same ↦ rw (same, ==_refl i, e) (rw same at n)
      | no other ↦ rw (==_ne j i other) n
    ]

set_writer_online-HasWriters :
    (t : TopoData) (names : List (List ℕ)) (idx : ℤ)
    → HasWriters t names
    → HasWriters (set_writer_online t idx) names
unfolding set_writer_online
set_writer_online-HasWriters t names (negsuc i) h = h
set_writer_online-HasWriters t names (pos i) h =
    put_slot-HasWriters t names i (record (t.writer_slot_table i) { is_online = true }) refl h

pub short-test :
    (a : List ℕ) → length a ≤ max_data_name_length → ltb max_data_name_length (length a) ≡ false
short-test a h = ground arith

-- `RegisterWriter` of a name without a NUL, of at most 256 bytes, is `enroll` on the names of the
-- table, with room for 128: a known name gets its index, a new one the next index, and -1 where the
-- table is full, which then is unchanged.
pub register_writer_refines :
    (t : TopoData) (names : List (List ℕ)) (process_idx : ℤ) (a : List ℕ)
    → HasWriters t names
    → IsText a
    → length a ≤ max_data_name_length
    → let (idx, t') = register_writer t process_idx a in
      let (i, names') = enroll same_name max_reader_num names a in (idx ≡ i) × HasWriters t' names'
unfolding register_writer
register_writer_refines t names process_idx a h text short =
    let (e, kept) = locked_refines t names a h text short in
    rw (short-test a short, register_writer)
      (e, set_writer_online-HasWriters _ _ (register_writer_locked t a).0 kept)
