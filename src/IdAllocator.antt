-- ===== src/IdAllocator.antt =====
-- src/fuxi/base/id_allocator.h and id_allocator.hpp: `IdAllocator<T>`, numbers that are given out and
-- taken back. The numbers that are free are a list through `_free_next_value`, whose entries for the
-- others are a flag. The calls run one after the other: each compare-and-swap succeeds at once.
pub mod Active
pub mod History
use fuxi_n.Prelude.{ℕ, ◌+◌, ◌-◌, ◌%◌, ◌==◌, if◌then◌else◌, Array, update}

-- T has `modulus` values.
module _ (modulus : ℕ) where
  abbrev pub free_list_tail : ℕ
  free_list_tail = modulus - 1

  abbrev pub active_flag : ℕ
  active_flag = free_list_tail - 1

pub record VersionedValue : Type 0 where
  pub value : ℕ
  pub version : ℕ

pub record IdAllocator : Type 0 where
  pub next_value : ℕ
  pub free_head : VersionedValue
  pub free_next_value : Array ℕ

module _ (modulus : ℕ) where
  -- A new id has version 0: `version_and_value` is the number alone.
  abbrev pub allocate : IdAllocator → VersionedValue × IdAllocator
  allocate a =
      if a.free_head.value == free_list_tail modulus
      then (
        record { value = a.next_value; version = 0 },
        record {
          next_value = (a.next_value + 1) % modulus;
          free_head = a.free_head;
          free_next_value = update a.free_next_value a.next_value (active_flag modulus);
        },
      )
      else (
        a.free_head,
        record {
          next_value = a.next_value;
          free_head = record {
            value = a.free_next_value a.free_head.value;
            version = a.free_head.version;
          };
          free_next_value = update a.free_next_value a.free_head.value (active_flag modulus);
        },
      )

  abbrev pub deallocate : IdAllocator → VersionedValue → IdAllocator
  deallocate a id = record {
    next_value = a.next_value;
    free_head = record { value = id.value; version = (a.free_head.version + 1) % modulus };
    free_next_value = update a.free_next_value id.value a.free_head.value;
  }

  -- A new allocator
  abbrev pub new_allocator : IdAllocator
  new_allocator = record {
    next_value = 0;
    free_head = record { value = free_list_tail modulus; version = 0 };
    free_next_value = λ _. 0;
  }
