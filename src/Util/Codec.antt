-- ===== src/Util/Codec.antt =====
-- Fixed-width integers in memory, src/univix_util.h: `get_int`, `set_int`, `get_int3`, `set_int3`
-- and the `read_`/`write_` pairs. A pointer is an address of `Mem`.
pub mod Laws
pub mod RoundTrip
use Prim.Native.Nat.{bit_and, bit_or}
use index_research.Prelude.{ℕ, zero, suc, ◌+◌, ◌-◌, ◌*◌, ◌/◌, ◌%◌, ◌^◌, ltb, if◌then◌else◌}
use index_research.Prelude.{Option, none, some}
use index_research.Prelude.Memory.{Mem, store}

-- `(*pos << 8) | *(pos + 1)`, as a uint16_t.
unfoldable pub get_int : Mem → ℕ → ℕ
get_int m p = bit_or (m p * 2 ^ 8) (m (p + 1)) % 2 ^ 16

-- The argument is converted to uint16_t.
unfoldable pub set_int : Mem → ℕ → ℕ → Mem
set_int m p val = let v = val % 2 ^ 16 in store (store m p (v / 2 ^ 8)) (p + 1) (v % 256)

unfoldable pub get_int3 : Mem → ℕ → ℕ
get_int3 m p = (m p * 2 ^ 16 + m (p + 1) * 2 ^ 8 + m (p + 2)) % 2 ^ 32

unfoldable pub set_int3 : Mem → ℕ → ℕ → Mem
set_int3 m p val =
    let v = val % 2 ^ 32 in
    store (store (store m p (v / 2 ^ 16)) (p + 1) (bit_and (v / 2 ^ 8) 0xff)) (p + 2)
      (bit_and v 0xff)

unfoldable pub write_uint16 : Mem → ℕ → ℕ → Mem
write_uint16 m p input = store (store m p (input / 2 ^ 8)) (p + 1) (bit_and input 0xff)

-- `while (i--) *ptr++ = (input >> (8 * i)) & 0xFF`, with `i` rounds left.
unfoldable pub write_bytes_be : Mem → ℕ → ℕ → ℕ → Mem
write_bytes_be m p zero input = m
write_bytes_be m p (suc i) input =
    write_bytes_be (store m p (bit_and (input / 2 ^ (8 * i)) 0xff)) (p + 1) i input

unfoldable pub write_uint32 : Mem → ℕ → ℕ → Mem
unfolding write_bytes_be
write_uint32 m p input = write_bytes_be m p 4 input

unfoldable pub write_uint64 : Mem → ℕ → ℕ → Mem
unfolding write_bytes_be
write_uint64 m p input = write_bytes_be m p 8 input

-- `while (i--) *ptr++ |= (input >> (8 * i)) & 0xFF`.
unfoldable pub or_bytes_be : Mem → ℕ → ℕ → ℕ → Mem
or_bytes_be m p zero input = m
or_bytes_be m p (suc i) input =
    or_bytes_be (store m p (bit_or (m p) (bit_and (input / 2 ^ (8 * i)) 0xff))) (p + 1) i input

unfoldable pub write_int24 : Mem → ℕ → ℕ → Mem
unfolding or_bytes_be
write_int24 m p input =
    or_bytes_be (store (store (store m (p + 1) 0) (p + 2) 0) p (bit_and (input / 2 ^ 24) 0x80)) p 3
      input

-- `memset(ptr, 0, n)`.
unfoldable pub clear : Mem → ℕ → ℕ → Mem
clear m p zero = m
clear m p (suc n) = clear (store m p 0) (p + 1) n

unfoldable pub write_int48 : Mem → ℕ → ℕ → Mem
unfolding or_bytes_be clear
write_int48 m p input =
    or_bytes_be (store (clear m (p + 1) 7) p (bit_and (input / 2 ^ 56) 0x80)) p 7 input

unfoldable pub read_uint16 : Mem → ℕ → ℕ
read_uint16 m p = (m p * 2 ^ 8 + m (p + 1)) % 2 ^ 16

-- The result is the bit pattern of the int32_t.
unfoldable pub read_int24 : Mem → ℕ → ℕ
read_int24 m p =
    let ret = bit_and (m p) 0x80 * 2 ^ 24 % 2 ^ 32 in
    let ret' = bit_or ret (bit_and (m p) 0x7f * 2 ^ 16) in
    let ret'' = bit_or ret' (m (p + 1) * 2 ^ 8) in (ret'' + m (p + 2)) % 2 ^ 32

unfoldable pub read_uint24 : Mem → ℕ → ℕ
read_uint24 m p = (m p * 2 ^ 16 + m (p + 1) * 2 ^ 8 + m (p + 2)) % 2 ^ 32

unfoldable pub read_uint32 : Mem → ℕ → ℕ
read_uint32 m p = (m p * 2 ^ 24 + m (p + 1) * 2 ^ 16 + m (p + 2) * 2 ^ 8 + m (p + 3)) % 2 ^ 32

-- The result is the bit pattern of the int64_t; six bytes are read.
unfoldable pub read_int48 : Mem → ℕ → ℕ
read_int48 m p =
    let ret = bit_and (m p) 0x80 * 2 ^ 56 % 2 ^ 64 in
    let ret1 = bit_or ret (bit_and (m p) 0x7f * 2 ^ 48) in
    let ret2 = bit_or ret1 (m (p + 1) * 2 ^ 32) in
    let ret3 = bit_or ret2 (m (p + 2) * 2 ^ 24) in
    let ret4 = bit_or ret3 (m (p + 3) * 2 ^ 16) in
    let ret5 = bit_or ret4 (m (p + 4) * 2 ^ 8) in (ret5 + m (p + 5)) % 2 ^ 64

-- `*ptr << k` is a shift of an int: `none` where C++ leaves it undefined, at 32 bits or more.
-- A set bit 31 makes the result negative, and its conversion to uint64_t extends the sign.
unfoldable pub shift_int : ℕ → ℕ → Option ℕ
shift_int b k =
    let w = b * 2 ^ k % 2 ^ 32 in
    if ltb k 32 then some (if ltb w (2 ^ 31) then w else 2 ^ 64 - 2 ^ 32 + w) else none

-- `while (len--) ret += (*ptr++ << (8 * len))`, with `len` rounds left.
unfoldable pub read_bytes_be : Mem → ℕ → ℕ → ℕ → Option ℕ
unfolding shift_int
read_bytes_be m p zero ret = some ret
read_bytes_be m p (suc len) ret = elim (shift_int (m p) (8 * len)) [
  | none ↦ none
  | some w ↦ read_bytes_be m (p + 1) len ((ret + w) % 2 ^ 64)
]

unfoldable pub read_uint48 : Mem → ℕ → Option ℕ
unfolding read_bytes_be
read_uint48 m p = read_bytes_be m p 6 0

unfoldable pub read_uint64 : Mem → ℕ → Option ℕ
unfolding read_bytes_be
read_uint64 m p = read_bytes_be m p 8 0
