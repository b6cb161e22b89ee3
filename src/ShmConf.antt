-- ===== src/ShmConf.antt =====
-- src/fuxi/shm/impl/shm_conf.h and shm_conf.cc: the sizes of a channel's shared memory, in tiers.
-- `uint64_t` and `uint32_t` results wrap where the code computes them.
pub mod Bounds
use fuxi_n.Prelude.{ℕ, ◌+◌, ◌*◌, ◌%◌, leb, ◌==◌, if◌then◌else◌, u64_mod}

-- EXTRA_SIZE, STATE_SIZE, BLOCK_SIZE, MESSAGE_INFO_SIZE
abbrev pub extra_size : ℕ
extra_size = 1024 * 4

abbrev pub state_size : ℕ
state_size = 1024

abbrev pub block_size : ℕ
block_size = 1024

abbrev pub message_info_size : ℕ
message_info_size = 1024

-- MESSAGE_SIZE_16K to MESSAGE_SIZE_MORE
abbrev pub message_size_16k : ℕ
message_size_16k = 1024 * 16

abbrev pub message_size_128k : ℕ
message_size_128k = 1024 * 128

abbrev pub message_size_1m : ℕ
message_size_1m = 1024 * 1024

abbrev pub message_size_8m : ℕ
message_size_8m = 1024 * 1024 * 8

abbrev pub message_size_16m : ℕ
message_size_16m = 1024 * 1024 * 16

abbrev pub message_size_more : ℕ
message_size_more = 1024 * 1024 * 32

pub record ShmConf : Type 0 where
  pub ceiling_msg_size : ℕ
  pub block_buf_size : ℕ
  pub block_num : ℕ
  pub managed_shm_size : ℕ

pub get_ceiling_message_size : ℕ → ℕ
get_ceiling_message_size real_msg_size =
    if leb real_msg_size message_size_16k
    then message_size_16k
    else if leb real_msg_size message_size_128k
    then message_size_128k
    else if leb real_msg_size message_size_1m
    then message_size_1m
    else if leb real_msg_size message_size_8m
    then message_size_8m
    else if leb real_msg_size message_size_16m
    then message_size_16m
    else message_size_more

pub get_block_buf_size : ℕ → ℕ
get_block_buf_size ceiling_msg_size = (ceiling_msg_size + message_info_size) % u64_mod

-- BLOCK_NUM_16K to BLOCK_NUM_MORE, and 0 for a size that is no tier
pub get_block_num : ℕ → ℕ
get_block_num ceiling_msg_size =
    if ceiling_msg_size == message_size_16k
    then 512
    else if ceiling_msg_size == message_size_128k
    then 128
    else if ceiling_msg_size == message_size_1m
    then 64
    else if ceiling_msg_size == message_size_8m
    then 32
    else if ceiling_msg_size == message_size_16m
    then 16
    else if ceiling_msg_size == message_size_more
    then 8
    else 0

pub update : ℕ → ShmConf
unfolding get_ceiling_message_size get_block_buf_size get_block_num
update real_msg_size =
    let ceiling = get_ceiling_message_size real_msg_size in
    let buf = get_block_buf_size ceiling in
    let num = get_block_num ceiling in
    record {
      ceiling_msg_size = ceiling;
      block_buf_size = buf;
      block_num = num;
      managed_shm_size = (extra_size + state_size + (block_size + buf) * num) % u64_mod;
    }
