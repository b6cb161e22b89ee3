-- ===== src/Tests/Sizes.antt =====
-- Sizes, the buckets of samples, and the space of a domain.
use fuxi_n.Prelude.{
  ℕ, zero, suc, ◌+◌, ◌*◌, ◌^◌, ◌≤◌, ◌<◌, ◌≡◌, ◌↔◌, refl, false, ltb, if◌then◌else◌, arith,
}
use native.Mathlib.Nat.{pow-le-pow_right}
use native.Mathlib.Decide.{dec_le}
use fuxi_n.ShmConf.{
  update, message_size_more, message_info_size, extra_size, state_size, block_size,
}
use fuxi_n.ShmConf.Bounds.{update_holds}
use fuxi_n.Domain.{ShmProtoHeader}

update_holds_40_mb :
    let c = update 40000000 in
    ((40000000 + message_info_size ≤ c.block_buf_size) ↔ (40000000 ≤ message_size_more))
    × (0 < c.block_num)
    × (c.managed_shm_size ≡ extra_size + state_size + (block_size + c.block_buf_size) * c.block_num)
    × (c.managed_shm_size < 1024 * 1024 * 512)
update_holds_40_mb = update_holds 40000000

abbrev header : ShmProtoHeader
header = record {
  inited = false;
  header_space_size = 0;
  total_space_size = 0;
  free_space_size = 0;
  free_space_used = 0;
}

-- The leading zeros of a word of `n + 1` bits: the powers of two from 2 to 2^n that are above it.
zeros : ℕ → ℕ → ℕ
zeros zero x = 0
zeros (suc n) x = zeros n x + (if ltb x (2 ^ suc n) then 1 else 0)

zeros-none : (n k x : ℕ) → n ≤ k → 2 ^ k ≤ x → zeros n x ≡ 0
unfolding zeros
zeros-none zero k x le h = refl
zeros-none (suc n) k x le h =
    let below : 2 ^ suc n ≤ 2 ^ k = pow-le-pow_right {n = 2} (omega arith) {i = suc n} {j = k} le in
    ground (arith, zeros-none n k x (omega arith) h)

zeros_lem : (n k x : ℕ) → k ≤ n → 2 ^ k ≤ x → x < 2 ^ (k + 1) → zeros n x + k ≡ n
unfolding zeros
zeros_lem zero k x le low high = omega arith
zeros_lem (suc n) k x le low high = elim (dec_le k n) [
  | yes small ↦
      let above : 2 ^ (k + 1) ≤ 2 ^ suc n =
        pow-le-pow_right {n = 2} (omega arith) {i = k + 1} {j = suc n} (omega arith) in
      ground (arith, zeros_lem n k x small low high)
  | no big ↦
      let whole : zeros (suc n) x ≡ 0 = zeros-none (suc n) k x (omega arith) low in omega arith
]
