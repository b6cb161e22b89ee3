-- ===== src/Domain/Tables.antt =====
-- The tables of segments and of processes as registers, up to where the code leaves them.
use fuxi_n.Prelude.{
  ℕ, ◌+◌, ◌%◌, ◌≤◌, ◌<◌, ◌≡◌, refl, ap, Bool, true, none, some, update, u16_mod, leb, if◌then◌else◌,
  List, [], ◌∷◌, ◌++◌, length, length-append, ℤ, pos, minus_one, eq_int, arith, Option-cases, inl,
  inr,
}
use native.Mathlib.Decide.{dec_le}
use fuxi_n.Registry.{
  first_match, position, enroll, enroll-found, enroll-full, enroll-new, Hold, Hold-snoc,
  first_match-eq-position,
}
use fuxi_n.Names.{IsNamed, set_name}
use fuxi_n.Domain.{
  SegmentIndicator, SegmentIndicatorTable, ProcessState, ProcessStateTable, max_process_num,
  register_pid,
}

abbrev HoldsName : SegmentIndicator → List ℕ → Type 0
HoldsName s a = IsNamed s.field a

-- The segments of a table, in the order of their indexes, which may run past its 1024 entries.
pub record HasSegments (t : SegmentIndicatorTable) (names : List (List ℕ)) : Type 0 where
  pub segment_count : t.segment_num ≡ length names
  pub segment_room : length names < u16_mod
  pub segments : Hold HoldsName t.indicator_table 0 names

abbrev with_segment : SegmentIndicatorTable → List ℕ → SegmentIndicatorTable
with_segment t a = record {
  segment_num = (t.segment_num + 1) % u16_mod;
  indicator_table = update t.indicator_table t.segment_num (record {
    field = (set_name (t.indicator_table t.segment_num).field a).1;
    index = t.segment_num;
  });
}

abbrev HoldsPid : ProcessState → ℤ → Type 0
HoldsPid s p = s.pid ≡ p

abbrev pub same_pid : ℤ → ℤ → Bool
same_pid b a = eq_int a b

abbrev with_pid : ProcessStateTable → ℤ → ProcessStateTable
with_pid t p = record {
  process_cnt = (t.process_cnt + 1) % u16_mod;
  process_state = update t.process_state t.process_cnt (record { pid = p; is_online = true });
}

-- The processes of a table, in the order of their indexes
pub record HasProcesses (t : ProcessStateTable) (pids : List ℤ) : Type 0 where
  pub process_count : t.process_cnt ≡ length pids
  pub process_room : length pids ≤ max_process_num
  pub processes : Hold HoldsPid t.process_state 0 pids

module _ (t : ProcessStateTable) (pids : List ℤ) (p : ℤ) (h : HasProcesses t pids) where
  scan_pids :
      first_match (λ i. eq_int p (t.process_state i).pid) t.process_cnt 0
      ≡ position same_pid p pids 0
  scan_pids = rw h.process_count (
      first_match-eq-position HoldsPid (λ s. eq_int p s.pid) same_pid p t.process_state 0 pids
        (λ s b e. ap (eq_int p) e) h.processes)

  pid-full :
      position same_pid p pids 0 ≡ none
      → max_process_num ≤ length pids
      → register_pid t p ≡ (minus_one, t)
  unfolding register_pid
  pid-full e full = rw (scan_pids, e, register_pid) (ground (arith, h.process_count))

  pid-new :
      position same_pid p pids 0 ≡ none
      → length pids < max_process_num
      → register_pid t p ≡ (pos 0, with_pid t p)
  unfolding register_pid
  pid-new e room = rw (scan_pids, e, register_pid) (ground (arith, h.process_count))

  with_pid-HasProcesses :
      length pids < max_process_num → HasProcesses (with_pid t p) (pids ++ p ∷ [])
  with_pid-HasProcesses room = record {
    process_count = omega (arith, h.process_count, length-append pids (p ∷ []));
    process_room = omega (arith, length-append pids (p ∷ []));
    processes =
        Hold-snoc HoldsPid t.process_state 0 t.process_cnt pids
          (record { pid = p; is_online = true }) p (omega (arith, h.process_count)) h.processes
          refl;
  }

  -- `RegisterPid` leaves the table as `enroll` does, with room for 256. A known process gets its
  -- index and a process without room -1, as `enroll` gives them; every new process gets 0.
  pub register_pid_lem :
      let (idx, t') = register_pid t p in
      let (i, pids') = enroll same_pid max_process_num pids p in
      HasProcesses t' pids'
      × (idx ≡ elim (position same_pid p pids 0) [
        | some k ↦ pos k
        | none ↦ if leb max_process_num (length pids) then minus_one else pos 0
      ])
  unfolding register_pid
  register_pid_lem = elim (Option-cases (position same_pid p pids 0)) [
    | inl e ↦ elim (dec_le max_process_num (length pids)) [
      | yes full ↦
          rw (pid-full e full, enroll-full same_pid max_process_num pids p e full, e)
            (h, ground (arith, full))
      | no room ↦
          rw
            (pid-new e (omega arith), enroll-new same_pid max_process_num pids p e (omega arith), e)
            (with_pid-HasProcesses (omega arith), ground (arith, room))
    ]
    | inr (i, e) ↦
        rw (scan_pids, e, register_pid, enroll-found same_pid max_process_num pids p i e) (h, refl)
  ]
