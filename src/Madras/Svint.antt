-- ===== src/Madras/Svint.antt =====
-- Variable-length integers of src/madras_blk/vint.hpp with the length in the first byte: `svint60` is
-- signed, `svint61` and `svint15` are not.
pub mod RoundTrip
pub mod Small
use Prim.Native.Nat.{bit_and, bit_or}
use index_research.Prelude.{
  ℕ, zero, suc, ◌+◌, ◌-◌, ◌*◌, ◌/◌, ◌%◌, ◌^◌, List, [], ◌∷◌, ◌++◌, Bool, true, false, if◌then◌else◌,
  ◌==◌, ltb, leb,
}
use index_research.Prelude.Int.{ℤ, pos, negsuc, neg}
use index_research.Prelude.Memory.{Mem, store, read_bytes}
use index_research.Util.Codec.{write_bytes_be}

-- `63 - __builtin_clzll(num)`, for a number that is not 0 and below 2 ^ (rounds + 1).
unfoldable pub high_bit : ℕ → ℕ → ℕ
high_bit zero num = 0
high_bit (suc rounds) num =
    let rest = high_bit rounds (num / 2) in if ltb num 2 then 0 else rest + 1

unfoldable pub first_bit_set : ℕ → ℕ
unfolding high_bit
first_bit_set num = if num == 0 then 0 else high_bit 63 num

-- `ret = (ret << 8) | *ptr++`, for `n` bytes.
unfoldable pub read_be_or : Mem → ℕ → ℕ → ℕ → ℕ
read_be_or m ptr zero ret = ret
read_be_or m ptr (suc n) ret = read_be_or m (ptr + 1) n (bit_or (ret * 2 ^ 8 % 2 ^ 64) (m ptr))

-- The `switch` that reads `n` bytes: `ret = (ret << 8) | ptr[n - 1]` comes first, `ptr[0]` last.
unfoldable pub read_low_bytes : Mem → ℕ → ℕ → ℕ → ℕ
read_low_bytes m ptr zero ret = ret
read_low_bytes m ptr (suc n) ret =
    read_low_bytes m ptr n (bit_or (ret * 2 ^ 8 % 2 ^ 64) (m (ptr + n)))

-- The `switch` that stores the low `n` bytes, the highest first; no case is for more than seven.
unfoldable pub copy_low_bytes : Mem → ℕ → ℕ → ℕ → Mem
unfolding write_bytes_be
copy_low_bytes m out n input = if ltb n 8 then write_bytes_be m out n input else m

unfoldable pub get_svint61_len : ℕ → ℕ
unfolding high_bit
get_svint61_len vint = if ltb vint 32 then 1 else high_bit 63 vint / 8 + 1

unfoldable pub read_svint61_len : Mem → ℕ → ℕ
read_svint61_len m ptr = 1 + m ptr / 2 ^ 5

-- `vlen` is at least 1.
unfoldable pub copy_svint61 : ℕ → Mem → ℕ → ℕ → Mem
unfolding copy_low_bytes
copy_svint61 input m out vlen =
    let data_bytes = vlen - 1 in
    let shift = data_bytes * 8 in
    let header = bit_or (bit_and (input / 2 ^ shift) 0x1f) (data_bytes * 2 ^ 5) in
    copy_low_bytes (store m out header) (out + 1) data_bytes input

-- The resized part of the vector is zero before the copy.
unfoldable pub append_svint61 : List ℕ → ℕ → List ℕ
unfolding get_svint61_len copy_svint61
append_svint61 out input =
    let vlen = get_svint61_len input in
    out ++ read_bytes (copy_svint61 input (λ i. 0) 0 vlen) 0 vlen

unfoldable pub read_svint61 : Mem → ℕ → ℕ
unfolding read_low_bytes
read_svint61 m ptr = read_low_bytes m (ptr + 1) (m ptr / 2 ^ 5) (bit_and (m ptr) 0x1f)

unfoldable pub get_svint15_len : ℕ → ℕ
get_svint15_len vint = if ltb vint 128 then 1 else 2

unfoldable pub read_svint15_len : Mem → ℕ → ℕ
read_svint15_len m ptr = 1 + m ptr / 2 ^ 7

unfoldable pub copy_svint15 : ℕ → Mem → ℕ → ℕ → Mem
copy_svint15 input m out vlen =
    if vlen == 1
    then store m out (bit_and input 0x7f)
    else store (store m out (bit_or (bit_and (input / 2 ^ 8) 0x7f) 0x80)) (out + 1)
        (bit_and input 0xff)

unfoldable pub append_svint15 : List ℕ → ℕ → List ℕ
append_svint15 out input =
    if ltb input 128
    then out ++ bit_and input 0x7f ∷ []
    else out ++ bit_or (bit_and (input / 2 ^ 8) 0x7f) 0x80 ∷ bit_and input 0xff ∷ []

unfoldable pub read_svint15 : Mem → ℕ → ℕ
read_svint15 m ptr =
    let ret = bit_and (m ptr) 0x7f in
    if bit_and (m ptr) 0x80 == 0 then ret else bit_or (ret * 2 ^ 8) (m (ptr + 1))

-- SVINT60_CEIL_TABLE, for the lengths 1 to 8.
unfoldable pub get_svint60_ceil : ℕ → ℕ
get_svint60_ceil zero = 0
get_svint60_ceil (suc n) = 2 ^ (4 + 8 * n) - 1

abbrev pub abs : ℤ → ℕ
abs (pos n) = n
abs (negsuc n) = n + 1

unfoldable pub get_svint60_len : ℤ → ℕ
unfolding high_bit
get_svint60_len vint =
    let abs_val = abs vint in
    let bits_needed = high_bit 63 abs_val + 1 in
    if ltb abs_val 16 then 1 else (bits_needed + 3) / 8 + 1

unfoldable pub read_svint60_len : Mem → ℕ → ℕ
read_svint60_len m ptr =
    let len_bits = bit_and (m ptr / 2 ^ 4) 0x07 in
    if m ptr == 0 then 1 else 1 + (if bit_and (m ptr) 0x80 == 0 then 7 - len_bits else len_bits)

-- The header and the low bytes of `lng`; `sign` is the part of the header above its low four bits.
unfoldable pub copy_svint60_bytes : Mem → ℕ → ℕ → ℕ → ℕ → Mem
unfolding copy_low_bytes
copy_svint60_bytes m out vlen lng sign =
    let header = bit_or (bit_and (lng / 2 ^ ((vlen - 1) * 8)) 0x0f) sign in
    copy_low_bytes (store m out header) (out + 1) (vlen - 1) lng

-- `vlen` is from 1 to 8. The subtraction is one of uint64_t.
unfoldable pub copy_svint60 : ℤ → Mem → ℕ → ℕ → Mem
unfolding get_svint60_ceil copy_svint60_bytes
copy_svint60 (pos n) m out vlen = copy_svint60_bytes m out vlen n (bit_or 0x80 ((vlen - 1) * 2 ^ 4))
copy_svint60 (negsuc n) m out vlen =
    let lng = (2 ^ 64 + get_svint60_ceil vlen - (n + 1)) % 2 ^ 64 in
    copy_svint60_bytes m out vlen lng ((7 - (vlen - 1)) * 2 ^ 4)

unfoldable pub append_svint60 : List ℕ → ℤ → List ℕ
unfolding get_svint60_len copy_svint60
append_svint60 out input =
    let vlen = get_svint60_len input in
    out ++ read_bytes (copy_svint60 input (λ i. 0) 0 vlen) 0 vlen

-- A uint64_t below 2 ^ 63 less another, as an int64_t.
abbrev pub minus : ℕ → ℕ → ℤ
minus a b = if leb b a then pos (a - b) else negsuc (b - a - 1)

unfoldable pub read_svint60 : Mem → ℕ → ℤ
unfolding read_svint60_len read_be_or get_svint60_ceil
read_svint60 m ptr =
    let len = read_svint60_len m ptr in
    let ret = read_be_or m (ptr + 1) (len - 1) (bit_and (m ptr) 0x0f) in
    if m ptr == 0
    then pos 0
    else if bit_and (m ptr) 0x80 == 0
    then minus ret (get_svint60_ceil len)
    else pos ret

-- `encode_int64_sortable`: the value is given by its bit pattern; `bswap64` puts the high byte first.
unfoldable pub encode_int64_sortable : ℕ → Mem → ℕ → Mem
unfolding write_bytes_be
encode_int64_sortable value m out = write_bytes_be m out 8 ((value + 2 ^ 63) % 2 ^ 64)

-- The bit pattern of the result.
unfoldable pub decode_int64_sortable : Mem → ℕ → ℕ
unfolding read_be_or
decode_int64_sortable m ptr = (read_be_or m ptr 8 0 + 2 ^ 63) % 2 ^ 64
