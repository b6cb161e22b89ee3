-- ===== src/BoundedQueue/Batch.antt =====
-- The operations on several elements, `push_n`, `try_push_n`, `try_pop_n` and those built of them, by one thread while no other is in the queue. A call that would wait for another thread then
-- waits forever: it gives `none`. The callbacks copy from a list and to a list, as those of the
-- iterators do.
pub mod Calls
pub mod Contents
pub mod Ready
pub mod Values
pub mod Appends
pub mod Push
pub mod Removes
pub mod Pop
pub mod Wait
pub mod Reserve
pub mod Roundtrip
use fuxi_n.Prelude.{
  ℕ, zero, suc, ◌+◌, ◌-◌, ◌*◌, ◌/◌, ◌%◌, ◌^◌, bit_and, u16_mod, u64_mod, Array, update, Option,
  none, some, List, [], ◌∷◌, ◌++◌, length, take, drop, ◌==◌, ltb, leb, if◌then◌else◌,
}
use fuxi_n.BoundedQueue.{push_side, pop_side, slot_index, expected_version}

pub record Queue (A : Type 0) : Type 0 where
  pub slot_bits : ℕ
  pub next_push_index : ℕ
  pub next_pop_index : ℕ
  pub version : Array ℕ
  pub value : Array A

-- The slots from `slot` on that have the version, at most `num`
abbrev pub match_count : Array ℕ → ℕ → ℕ → ℕ → ℕ
match_count version expected slot zero = 0
match_count version expected slot (suc num) =
    let rest = match_count version expected (suc slot) num in
    if version slot == expected then suc rest else 0

abbrev pub set_versions : Array ℕ → ℕ → ℕ → ℕ → Array ℕ
set_versions version slot zero v = version
set_versions version slot (suc num) v = set_versions (update version slot v) (suc slot) num v

-- ::std::copy to the slots, and from them
abbrev pub copy_in : {A : Type 0} → Array A → ℕ → List A → Array A
copy_in value slot [] = value
copy_in value slot (x ∷ xs) = copy_in (update value slot x) (suc slot) xs

abbrev pub copy_out : {A : Type 0} → Array A → ℕ → ℕ → List A
copy_out value slot zero = []
copy_out value slot (suc num) = value slot ∷ copy_out value (suc slot) num

-- `(index + _slot_mask + 1) & ~_slot_mask`
abbrev pub next_round_begin_index : ℕ → ℕ → ℕ
next_round_begin_index bits index =
    let past = (index + (2 ^ bits - 1) + 1) % u64_mod in past - slot_index bits past

pub record Pushed (A : Type 0) : Type 0 where
  pub queue : Queue A
  pub count : ℕ

pub record Popped (A : Type 0) : Type 0 where
  pub queue : Queue A
  pub values : List A
  pub count : ℕ

module _ {A : Type 0} where
  abbrev pub capacity : Queue A → ℕ
  capacity q = 2 ^ q.slot_bits

  abbrev pub size : Queue A → ℕ
  size q =
      if ltb q.next_pop_index q.next_push_index then q.next_push_index - q.next_pop_index else 0

  -- `num` slots are written and published
  abbrev pub publish : Queue A → ℕ → List A → Queue A
  publish q index xs = record {
    slot_bits = q.slot_bits;
    next_push_index = q.next_push_index;
    next_pop_index = q.next_pop_index;
    version =
        set_versions q.version (slot_index q.slot_bits index) (length xs)
          ((expected_version q.slot_bits push_side index + 1) % u16_mod);
    value = copy_in q.value (slot_index q.slot_bits index) xs;
  }

  -- `num` slots were read and are free
  abbrev pub retire : Queue A → ℕ → ℕ → Queue A
  retire q index num = record {
    slot_bits = q.slot_bits;
    next_push_index = q.next_push_index;
    next_pop_index = q.next_pop_index;
    version =
        set_versions q.version (slot_index q.slot_bits index) num
          ((expected_version q.slot_bits pop_side index + 1) % u16_mod);
    value = q.value;
  }

  abbrev pub set_next_push : Queue A → ℕ → Queue A
  set_next_push q index = record {
    slot_bits = q.slot_bits;
    next_push_index = index % u64_mod;
    next_pop_index = q.next_pop_index;
    version = q.version;
    value = q.value;
  }

  abbrev pub set_next_pop : Queue A → ℕ → Queue A
  set_next_pop q index = record {
    slot_bits = q.slot_bits;
    next_push_index = q.next_push_index;
    next_pop_index = index % u64_mod;
    version = q.version;
    value = q.value;
  }

  -- The number of slots from `index` on that are at the turn of a side
  abbrev pub turns_from : Queue A → ℕ → ℕ → ℕ → ℕ
  turns_from q side index num =
      match_count q.version (expected_version q.slot_bits side index) (slot_index q.slot_bits index)
        num
