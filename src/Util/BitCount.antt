-- ===== src/Util/BitCount.antt =====
-- Bit counting on bytes, src/univix_util.h, with the tables of src/univix_util.cpp.
pub mod Tables
pub mod Laws
use Prim.Native.Nat.{bit_and}
use index_research.Prelude.{
  ℕ, zero, suc, ◌+◌, ◌-◌, ◌*◌, ◌/◌, ◌%◌, ◌^◌, ltb, ◌==◌, ◌&&◌, not, if◌then◌else◌,
}

-- `while (n > 0) { n &= n - 1; count++; }`; a positive int16_t has at most 15 bits set.
unfoldable pub count_loop : ℕ → ℕ → ℕ → ℕ
count_loop zero n count = count
count_loop (suc fuel) n count =
    let rest = count_loop fuel (bit_and n (n - 1)) (count + 1) in if ltb 0 n then rest else count

unfoldable pub count_set_bits : ℕ → ℕ
unfolding count_loop
count_set_bits n = count_loop 16 n 0

-- `while (0 == (n & mask) && mask) mask >>= 1`, for at most nine values of the mask.
unfoldable pub first_mask_loop : ℕ → ℕ → ℕ → ℕ
first_mask_loop zero n mask = mask
first_mask_loop (suc fuel) n mask =
    let rest = first_mask_loop fuel n (mask / 2) in
    if bit_and n mask == 0 && not (mask == 0) then rest else mask

unfoldable pub first_bit_mask : ℕ → ℕ
unfolding first_mask_loop
first_bit_mask n = first_mask_loop 9 n 0x80

-- `mask <<= 1` on a uint8_t.
unfoldable pub last_mask_loop : ℕ → ℕ → ℕ → ℕ
last_mask_loop zero n mask = mask
last_mask_loop (suc fuel) n mask =
    let rest = last_mask_loop fuel n (mask * 2 % 256) in
    if bit_and n mask == 0 && not (mask == 0) then rest else mask

unfoldable pub last_bit_mask : ℕ → ℕ
unfolding last_mask_loop
last_bit_mask n = last_mask_loop 9 n 0x01

-- The `do` loop with `left` rounds to go, at offset `8 - left`.
unfoldable pub offset_loop : ℕ → ℕ → ℕ
offset_loop zero n = 8
offset_loop (suc left) n =
    let offset = 8 - suc left in
    let rest = offset_loop left n in if bit_and n (2 ^ offset) == 0 then rest else offset

unfoldable pub first_bit_offset : ℕ → ℕ
unfolding offset_loop
first_bit_offset n = offset_loop 8 n

-- The SWAR count; `x` is a uint8_t.
unfoldable pub bitcount : ℕ → ℕ
bitcount x =
    let x1 = (x + 256 - bit_and (x / 2) 0x55) % 256 in
    let x2 = (bit_and (x1 / 2 ^ 2) 0x33 + bit_and x1 0x33) % 256 in bit_and (x2 / 2 ^ 4 + x2) 0x0f
