-- ===== src/ShmConf/Bounds.antt =====
-- What the tiers promise of a message size.
use fuxi_n.Prelude.{ℕ, ◌+◌, ◌*◌, ◌≤◌, ◌<◌, ◌≡◌, ◌↔◌, arith}
use fuxi_n.ShmConf.{
  update, message_size_more, extra_size, state_size, block_size, message_info_size,
}

-- A larger message never gets a smaller ceiling.
pub ceiling_mono : (m n : ℕ) → m ≤ n → (update m).ceiling_msg_size ≤ (update n).ceiling_msg_size
unfolding update
ceiling_mono m n h = ground arith

-- A larger message never gets more blocks.
pub block_num_antitone : (m n : ℕ) → m ≤ n → (update n).block_num ≤ (update m).block_num
unfolding update
block_num_antitone m n h = ground arith

-- For every message size there is a block, each block buffer has room for a message and its info,
-- the memory is just the state, the extra space and the blocks with their buffers, and it stays
-- below 512 MiB.
pub update_sizes :
    (m : ℕ)
    → let c = update m in
      (0 < c.block_num)
      × (c.block_buf_size ≡ c.ceiling_msg_size + message_info_size)
      × (c.managed_shm_size
          ≡ extra_size + state_size + (block_size + c.block_buf_size) * c.block_num)
      × (c.managed_shm_size < 1024 * 1024 * 512)
unfolding update
update_sizes m = ground arith

-- For every message size, a block buffer of the channel has room for a message and its info exactly
-- when the messages have at most 32 MiB. There is a block, and the memory is just the state, the
-- extra space and the blocks with their buffers, which stays below 512 MiB, so that no `uint64_t`
-- wraps.
pub update_holds :
    (m : ℕ)
    → let c = update m in
      ((m + message_info_size ≤ c.block_buf_size) ↔ (m ≤ message_size_more))
      × (0 < c.block_num)
      × (c.managed_shm_size
          ≡ extra_size + state_size + (block_size + c.block_buf_size) * c.block_num)
      × (c.managed_shm_size < 1024 * 1024 * 512)
unfolding update
update_holds m = ground arith
