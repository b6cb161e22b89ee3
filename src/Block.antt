-- ===== src/Block.antt =====
-- The locks of a `Block` (src/fuxi/shm/impl/block.cc), as threads of any processes take them at once, an
-- access at a time. The `pthread` lock behind `read_write_mutex_` is in memory by what it documents: it
-- is held by one writer, or by any number of readers.
pub mod Exclusion
pub mod Locks
use fuxi_n.Prelude.{ℕ, zero, suc, ◌+◌, ◌-◌, ◌%◌, ◌<◌, ◌≡◌, ◌≢◌, u32_mod, Array, update}

-- `is_writing_` as 0 or 1, `reading_reference_counts_`, and the holders of the `pthread` lock
pub record Memory : Type 0 where
  pub is_writing : ℕ
  pub reading_reference_counts : ℕ
  pub lock_writers : ℕ
  pub lock_readers : ℕ

-- Where a thread stands. A call has its result when it gives the lock back.
pub data Pc : Type 0 where
  idle : Pc
  write_locked : Pc  -- before `is_writing_.load()`
  write_unwritten : Pc  -- before `reading_reference_counts_.load()`
  write_free : Pc  -- before `is_writing_.store(true)`
  write_refused : Pc
  write_granted : Pc
  writing : Pc  -- between `TryLockForWrite` and `ReleaseWriteLock`
  read_locked : Pc
  read_unwritten : Pc  -- before `fetch_add`
  read_refused : Pc
  read_granted : Pc
  reading : Pc  -- between `TryLockForRead` and `ReleaseReadLock`

-- One access of a thread
pub data Move (m : Memory) : Pc → Memory → Pc → Type 0 where
  -- `WriteLockGuard`
  write_lock :
      m.lock_writers ≡ 0
      → m.lock_readers ≡ 0
      → Move m idle (record m { lock_writers = 1 }) write_locked
  write_written : m.is_writing ≢ 0 → Move m write_locked m write_refused
  write_clear : m.is_writing ≡ 0 → Move m write_locked m write_unwritten
  write_read : m.reading_reference_counts ≢ 0 → Move m write_unwritten m write_refused
  write_unread : m.reading_reference_counts ≡ 0 → Move m write_unwritten m write_free
  write_store : Move m write_free (record m { is_writing = 1 }) write_granted
  write_refuse : Move m write_refused (record m { lock_writers = m.lock_writers - 1 }) idle
  write_grant : Move m write_granted (record m { lock_writers = m.lock_writers - 1 }) writing
  -- `ReleaseWriteLock`
  write_release : Move m writing (record m { is_writing = 0 }) idle
  -- `ReadLockGuard`
  read_lock :
      m.lock_writers ≡ 0 → Move m idle (record m { lock_readers = m.lock_readers + 1 }) read_locked
  read_written : m.is_writing ≢ 0 → Move m read_locked m read_refused
  read_clear : m.is_writing ≡ 0 → Move m read_locked m read_unwritten
  read_add :
      Move m read_unwritten
        (record m { reading_reference_counts = (m.reading_reference_counts + 1) % u32_mod })
        read_granted
  read_refuse : Move m read_refused (record m { lock_readers = m.lock_readers - 1 }) idle
  read_grant : Move m read_granted (record m { lock_readers = m.lock_readers - 1 }) reading
  -- `ReleaseReadLock`
  read_release :
      Move m reading
        (record m {
          reading_reference_counts = (m.reading_reference_counts + (u32_mod - 1)) % u32_mod;
        })
        idle

pub record System : Type 0 where
  pub mem : Memory
  pub pc : Array Pc

abbrev pub new_block : System
new_block = record {
  mem = record { is_writing = 0; reading_reference_counts = 0; lock_writers = 0; lock_readers = 0 };
  pc = λ _. idle;
}

pub data Reach (n : ℕ) : System → Type 0 where
  start : Reach n new_block
  later :
      (a : ℕ) {s : System} {m : Memory} {p : Pc}
      → Reach n s
      → a < n
      → Move s.mem (s.pc a) m p
      → Reach n (record { mem = m; pc = update s.pc a p })
