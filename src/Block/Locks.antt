-- ===== src/Block/Locks.antt =====
-- A block that is written is used by its writer alone.
use fuxi_n.Prelude.{
  ℕ, ◌+◌, ◌-◌, ◌%◌, ◌≤◌, ◌<◌, ◌≡◌, ◌⊎◌, inl, inr, refl, sym, ap, u32_mod, Array, update,
  total-update, total_two, total-le, total-eq-zero, arith,
}
use native.Mathlib.Decide.{ℕ_discrete}
use fuxi_n.Block.{
  Memory, Pc, idle, write_locked, write_unwritten, write_free, write_refused, write_granted,
  writing, read_locked, read_unwritten, read_refused, read_granted, reading, Move, write_lock,
  write_written, write_clear, write_read, write_unread, write_store, write_refuse, write_grant,
  write_release, read_lock, read_written, read_clear, read_add, read_refuse, read_grant,
  read_release, System, new_block, Reach, start, later,
}
use fuxi_n.Block.Exclusion.{
  write_call, read_call, writes, reads, Good, Inv, Good-if, Inv-update, Inv-lock, write_call-le,
  read_call-le, reads-le, writes-le,
}

reads-small : (p : Pc) → reads p ≤ 1
reads-small idle = omega arith
reads-small write_locked = omega arith
reads-small write_unwritten = omega arith
reads-small write_free = omega arith
reads-small write_refused = omega arith
reads-small write_granted = omega arith
reads-small writing = omega arith
reads-small read_locked = omega arith
reads-small read_unwritten = omega arith
reads-small read_refused = omega arith
reads-small read_granted = omega arith
reads-small reading = omega arith

Move-Inv :
    {n a : ℕ} {m m' : Memory} {pc : Array Pc} {p p' : Pc}
    → Inv n m pc
    → a < n
    → pc a ≡ p
    → Good m p
    → Move m p m' p'
    → Inv n m' (update pc a p')
Move-Inv {m} inv lt at own (write_lock w r) =
    Inv-lock inv lt 1 m.lock_readers write_locked (omega (arith, ap write_call at, w))
      (omega (arith, ap read_call at)) (inr (refl, r)) (ap writes at) (ap reads at) tt
Move-Inv {m} inv lt at own (write_written ne) =
    Inv-lock inv lt m.lock_writers m.lock_readers write_refused (omega (arith, ap write_call at))
      (omega (arith, ap read_call at)) inv.lock (ap writes at) (ap reads at) tt
Move-Inv {m} inv lt at own (write_clear e) =
    Inv-lock inv lt m.lock_writers m.lock_readers write_unwritten (omega (arith, ap write_call at))
      (omega (arith, ap read_call at)) inv.lock (ap writes at) (ap reads at) e
Move-Inv {m} inv lt at own (write_read ne) =
    Inv-lock inv lt m.lock_writers m.lock_readers write_refused (omega (arith, ap write_call at))
      (omega (arith, ap read_call at)) inv.lock (ap writes at) (ap reads at) tt
Move-Inv {m} inv lt at own (write_unread e) =
    Inv-lock inv lt m.lock_writers m.lock_readers write_free (omega (arith, ap write_call at))
      (omega (arith, ap read_call at)) inv.lock (ap writes at) (ap reads at) (own, e)
Move-Inv {n} {a} {m} {pc} inv lt at own write_store =
    let held : 1 ≤ m.lock_writers = omega (arith, write_call-le inv lt, ap write_call at) in
    Inv-update inv lt (record m { is_writing = 1 }) write_granted (omega (arith, ap write_call at))
      (omega (arith, ap read_call at)) inv.lock (omega (arith, ap writes at, own.0))
      (omega (arith, ap reads at)) (inr (refl, own.1)) tt
      (λ b b_lt ne.
        Good-if m (record m { is_writing = 1 }) (pc b)
          (inl (
            omega (
              arith,
              total_two write_call n pc a b lt b_lt (λ e. ne (sym e)),
              ap write_call at,
              inv.in_write,
              inv.lock,
            )))
          (inl (omega (arith, read_call-le inv b_lt, inv.lock, held))) (inv.good b b_lt))
Move-Inv {m} inv lt at own write_refuse =
    Inv-lock inv lt (m.lock_writers - 1) m.lock_readers idle
      (omega (arith, ap write_call at, write_call-le inv lt)) (omega (arith, ap read_call at))
      (inl (omega (arith, inv.lock))) (ap writes at) (ap reads at) tt
Move-Inv {m} inv lt at own write_grant =
    Inv-lock inv lt (m.lock_writers - 1) m.lock_readers writing
      (omega (arith, ap write_call at, write_call-le inv lt)) (omega (arith, ap read_call at))
      (inl (omega (arith, inv.lock))) (ap writes at) (ap reads at) tt
Move-Inv {n} {a} {m} {pc} inv lt at own write_release =
    Inv-update inv lt (record m { is_writing = 0 }) idle (omega (arith, ap write_call at))
      (omega (arith, ap read_call at)) inv.lock
      (omega (arith, ap writes at, writes-le inv lt, inv.block)) (omega (arith, ap reads at))
      (inl refl) tt
      (λ b b_lt ne.
        Good-if m (record m { is_writing = 0 }) (pc b) (inr (λ e. refl, λ e. e)) (inr (λ e. refl))
          (inv.good b b_lt))
Move-Inv {m} inv lt at own (read_lock w) =
    Inv-lock inv lt m.lock_writers (m.lock_readers + 1) read_locked
      (omega (arith, ap write_call at)) (omega (arith, ap read_call at)) (inl w) (ap writes at)
      (ap reads at) tt
Move-Inv {m} inv lt at own (read_written ne) =
    Inv-lock inv lt m.lock_writers m.lock_readers read_refused (omega (arith, ap write_call at))
      (omega (arith, ap read_call at)) inv.lock (ap writes at) (ap reads at) tt
Move-Inv {m} inv lt at own (read_clear e) =
    Inv-lock inv lt m.lock_writers m.lock_readers read_unwritten (omega (arith, ap write_call at))
      (omega (arith, ap read_call at)) inv.lock (ap writes at) (ap reads at) e
Move-Inv {n} {a} {m} {pc} inv lt at own read_add =
    let held : 1 ≤ m.lock_readers = omega (arith, read_call-le inv lt, ap read_call at) in
    let room : m.reading_reference_counts + 1 < u32_mod = omega (
      arith,
      total-update reads n pc a read_granted lt,
      total-le reads reads-small n (update pc a read_granted),
      ap reads at,
      inv.read,
      inv.few,
    ) in
    let m' : Memory = record m {
      reading_reference_counts = (m.reading_reference_counts + 1) % u32_mod;
    } in
    Inv-update inv lt m' read_granted (omega (arith, ap write_call at))
      (omega (arith, ap read_call at)) inv.lock (omega (arith, ap writes at))
      (omega (arith, ap reads at, room)) (inl own) tt
      (λ b b_lt ne.
        Good-if m m' (pc b) (inl (omega (arith, write_call-le inv b_lt, inv.lock, held)))
          (inr (λ e. e)) (inv.good b b_lt))
Move-Inv {m} inv lt at own read_refuse =
    Inv-lock inv lt m.lock_writers (m.lock_readers - 1) idle (omega (arith, ap write_call at))
      (omega (arith, ap read_call at, read_call-le inv lt))
      (inl (omega (arith, inv.lock, read_call-le inv lt, ap read_call at))) (ap writes at)
      (ap reads at) tt
Move-Inv {m} inv lt at own read_grant =
    Inv-lock inv lt m.lock_writers (m.lock_readers - 1) reading (omega (arith, ap write_call at))
      (omega (arith, ap read_call at, read_call-le inv lt))
      (inl (omega (arith, inv.lock, read_call-le inv lt, ap read_call at))) (ap writes at)
      (ap reads at) tt
Move-Inv {n} {a} {m} {pc} inv lt at own read_release =
    let held : 1 ≤ m.reading_reference_counts = omega (arith, reads-le inv lt, ap reads at) in
    let few : m.reading_reference_counts < u32_mod =
      omega (arith, total-le reads reads-small n pc, inv.read, inv.few) in
    let m' : Memory = record m {
      reading_reference_counts = (m.reading_reference_counts + (u32_mod - 1)) % u32_mod;
    } in
    Inv-update inv lt m' idle (omega (arith, ap write_call at)) (omega (arith, ap read_call at))
      inv.lock (omega (arith, ap writes at)) (omega (arith, ap reads at, held, few))
      (inl (omega (arith, inv.block, held))) tt
      (λ b b_lt ne.
        Good-if m m' (pc b) (inr (λ e. e, λ e. absurd (omega (arith, e, held)))) (inr (λ e. e))
          (inv.good b b_lt))

reached-Inv : {n : ℕ} {s : System} → n < u32_mod → Reach n s → Inv n s.mem s.pc
reached-Inv {n} few start = record {
  few = few;
  in_write = total-eq-zero write_call n new_block.pc (λ i. refl);
  in_read = total-eq-zero read_call n new_block.pc (λ i. refl);
  lock = inl refl;
  written = total-eq-zero writes n new_block.pc (λ i. refl);
  read = total-eq-zero reads n new_block.pc (λ i. refl);
  block = inl refl;
  good = λ a a_lt. tt;
}
reached-Inv few (later a reach lt move) =
    let inv = reached-Inv few reach in Move-Inv inv lt refl (inv.good a lt) move

-- Of fewer than 2^32 threads: where one has the block to write, any that has it to write or to read is
-- the same one, and has it to write; and a thread that has it to write finds no reader counted.
pub writing_alone :
    (n a b : ℕ) {s : System}
    → n < u32_mod
    → Reach n s
    → a < n
    → b < n
    → s.pc a ≡ writing
    → (s.pc b ≡ writing) ⊎ (s.pc b ≡ reading)
    → (a ≡ b) × (s.pc b ≡ writing) × (s.mem.reading_reference_counts ≡ 0)
writing_alone n a b {s} few reach a_lt b_lt at (inl other) =
    let inv = reached-Inv few reach in
    elim (ℕ_discrete a b) [
      | yes e ↦ (e, other, omega (arith, writes-le inv a_lt, ap writes at, inv.block))
      | no ne ↦ absurd (
          omega (
            arith,
            total_two writes n s.pc a b a_lt b_lt ne,
            ap writes at,
            ap writes other,
            inv.written,
            inv.block,
          ))
    ]
writing_alone n a b {s} few reach a_lt b_lt at (inr other) =
    let inv = reached-Inv few reach in
    absurd (
      omega (arith, writes-le inv a_lt, ap writes at, reads-le inv b_lt, ap reads other, inv.block))
