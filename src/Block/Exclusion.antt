-- ===== src/Block/Exclusion.antt =====
-- What holds of a block between any two accesses of its threads.
use fuxi_n.Prelude.{
  ℕ, ◌+◌, ◌≤◌, ◌<◌, ◌≡◌, ◌≢◌, ◌⊎◌, inl, inr, u32_mod, Array, update, moved, total, total-update,
  total-ge, arith,
}
use fuxi_n.Block.{
  Memory, Pc, idle, write_locked, write_unwritten, write_free, write_refused, write_granted,
  writing, read_locked, read_unwritten, read_refused, read_granted, reading,
}

-- Whether a thread is in `TryLockForWrite`, in `TryLockForRead`, has the block to write, or to read
abbrev pub write_call : Pc → ℕ
write_call write_locked = 1
write_call write_unwritten = 1
write_call write_free = 1
write_call write_refused = 1
write_call write_granted = 1
write_call _ = 0

abbrev pub read_call : Pc → ℕ
read_call read_locked = 1
read_call read_unwritten = 1
read_call read_refused = 1
read_call read_granted = 1
read_call _ = 0

abbrev pub writes : Pc → ℕ
writes write_granted = 1
writes writing = 1
writes _ = 0

abbrev pub reads : Pc → ℕ
reads read_granted = 1
reads reading = 1
reads _ = 0

-- What the point of a thread says about the block
abbrev pub Good : Memory → Pc → Type 0
Good m write_unwritten = m.is_writing ≡ 0
Good m write_free = (m.is_writing ≡ 0) × (m.reading_reference_counts ≡ 0)
Good m read_unwritten = m.is_writing ≡ 0
Good m _ = Unit

-- One side has at most one, and none where the other has any.
abbrev pub IsApart : ℕ → ℕ → Type 0
IsApart one many = (one ≡ 0) ⊎ ((one ≡ 1) × (many ≡ 0))

pub record Inv (n : ℕ) (m : Memory) (pc : Array Pc) : Type 0 where
  pub few : n < u32_mod
  pub in_write : total write_call n pc ≡ m.lock_writers
  pub in_read : total read_call n pc ≡ m.lock_readers
  pub lock : IsApart m.lock_writers m.lock_readers
  pub written : total writes n pc ≡ m.is_writing
  pub read : total reads n pc ≡ m.reading_reference_counts
  pub block : IsApart m.is_writing m.reading_reference_counts
  pub good : (a : ℕ) → a < n → Good m (pc a)

-- A thread keeps what it knows while what it may know stays: outside its calls it knows nothing.
pub Good-if :
    (m m' : Memory) (p : Pc)
    → (write_call p ≡ 0)
      ⊎ ((m.is_writing ≡ 0 → m'.is_writing ≡ 0)
          × (m.reading_reference_counts ≡ 0 → m'.reading_reference_counts ≡ 0))
    → (read_call p ≡ 0) ⊎ (m.is_writing ≡ 0 → m'.is_writing ≡ 0)
    → Good m p
    → Good m' p
Good-if m m' idle w r g = tt
Good-if m m' write_locked w r g = tt
Good-if m m' write_unwritten (inl e) r g = absurd (omega (arith, e))
Good-if m m' write_unwritten (inr (w, c)) r g = w g
Good-if m m' write_free (inl e) r g = absurd (omega (arith, e))
Good-if m m' write_free (inr (w, c)) r g = (w g.0, c g.1)
Good-if m m' write_refused w r g = tt
Good-if m m' write_granted w r g = tt
Good-if m m' writing w r g = tt
Good-if m m' read_locked w r g = tt
Good-if m m' read_unwritten w (inl e) g = absurd (omega (arith, e))
Good-if m m' read_unwritten w (inr keep) g = keep g
Good-if m m' read_refused w r g = tt
Good-if m m' read_granted w r g = tt
Good-if m m' reading w r g = tt

module _ {n a : ℕ} {m : Memory} {pc : Array Pc} (inv : Inv n m pc) (lt : a < n) where
  -- A move, by what it does to the counts
  pub Inv-update :
      (m' : Memory) (p : Pc)
      → m'.lock_writers + write_call (pc a) ≡ m.lock_writers + write_call p
      → m'.lock_readers + read_call (pc a) ≡ m.lock_readers + read_call p
      → IsApart m'.lock_writers m'.lock_readers
      → m'.is_writing + writes (pc a) ≡ m.is_writing + writes p
      → m'.reading_reference_counts + reads (pc a) ≡ m.reading_reference_counts + reads p
      → IsApart m'.is_writing m'.reading_reference_counts
      → Good m' p
      → ((b : ℕ) → b < n → b ≢ a → Good m' (pc b))
      → Inv n m' (update pc a p)
  Inv-update m' p ew er lock w r block own others = record {
    few = inv.few;
    in_write = omega (arith, total-update write_call n pc a p lt, inv.in_write, ew);
    in_read = omega (arith, total-update read_call n pc a p lt, inv.in_read, er);
    lock = lock;
    written = omega (arith, total-update writes n pc a p lt, inv.written, w);
    read = omega (arith, total-update reads n pc a p lt, inv.read, r);
    block = block;
    good = λ b b_lt. moved (Good m') pc a p b (λ e. own) (λ ne. others b b_lt ne);
  }

  -- A move that leaves the block as it is
  pub Inv-lock :
      (writers readers : ℕ) (p : Pc)
      → writers + write_call (pc a) ≡ m.lock_writers + write_call p
      → readers + read_call (pc a) ≡ m.lock_readers + read_call p
      → IsApart writers readers
      → writes (pc a) ≡ writes p
      → reads (pc a) ≡ reads p
      → Good m p
      → Inv n (record m { lock_writers = writers; lock_readers = readers }) (update pc a p)
  Inv-lock writers readers p ew er lock w r own =
      let m' : Memory = record m { lock_writers = writers; lock_readers = readers } in
      Inv-update m' p ew er lock (omega (arith, w)) (omega (arith, r)) inv.block
        (Good-if m m' p (inr (λ e. e, λ e. e)) (inr (λ e. e)) own)
        (λ b b_lt ne. Good-if m m' (pc b) (inr (λ e. e, λ e. e)) (inr (λ e. e)) (inv.good b b_lt))

  pub write_call-le : write_call (pc a) ≤ m.lock_writers
  write_call-le = omega (arith, total-ge write_call n pc a lt, inv.in_write)

  pub read_call-le : read_call (pc a) ≤ m.lock_readers
  read_call-le = omega (arith, total-ge read_call n pc a lt, inv.in_read)

  pub reads-le : reads (pc a) ≤ m.reading_reference_counts
  reads-le = omega (arith, total-ge reads n pc a lt, inv.read)

  pub writes-le : writes (pc a) ≤ m.is_writing
  writes-le = omega (arith, total-ge writes n pc a lt, inv.written)
