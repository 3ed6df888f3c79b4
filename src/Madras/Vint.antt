-- ===== src/Madras/Vint.antt =====
-- Variable-length unsigned integers of src/madras_blk/vint.hpp and src/madras_blk/gen.hpp.
pub mod RoundTrip
pub mod Loop
use Prim.Native.Nat.{bit_and, bit_or}
use index_research.Prelude.{
  ℕ, zero, suc, ◌+◌, ◌-◌, ◌*◌, ◌/◌, ◌%◌, ◌^◌, List, [], ◌∷◌, ◌++◌, if◌then◌else◌, ◌==◌, ltb, Option,
  none, some,
}
use index_research.Prelude.Memory.{Mem, store, move_in, read_bytes}
use index_research.Madras.Fixed.{read_le}
use index_research.Madras.Svint.{high_bit}

-- The memory after a write, and the length written.
pub record Copied : Type 0 where
  pub mem : Mem
  pub len : ℕ

-- The value read, and `len` or `used_bytes`.
pub record Taken : Type 0 where
  pub value : ℕ
  pub len : ℕ

-- The `len` of `copy_rvint32`, one less than the bytes it stores.
unfoldable pub rvint32_len : ℕ → ℕ
rvint32_len u32 =
    if ltb u32 64 then 0 else if ltb u32 4096 then 1 else if ltb u32 1048576 then 2 else 3

unfoldable pub copy_rvint32 : Mem → ℕ → ℕ → Copied
unfolding rvint32_len
copy_rvint32 m out u32 =
    let len = rvint32_len u32 in
    let head = len * 2 ^ 6 in
    let low = bit_or head (bit_and u32 0x3f) in
    if len == 0
    then record { mem = store m out (bit_or head u32); len = 1 }
    else if len == 1
    then record { mem = store (store m (out + 1) low) out (bit_or head (u32 / 2 ^ 6)); len = 2 }
    else if len == 2
    then record {
      mem =
          store (store (store m (out + 2) low) (out + 1) (bit_and (u32 / 2 ^ 6) 0xff)) out
            (bit_or head (u32 / 2 ^ 14));
      len = 3;
    }
    else record {
      mem =
          store
            (store (store (store m (out + 3) low) (out + 2) (bit_and (u32 / 2 ^ 6) 0xff)) (out + 1)
              (bit_and (u32 / 2 ^ 14) 0xff))
            out (bit_or head (u32 / 2 ^ 22));
      len = 4;
    }

-- The reader goes down from `ptr`, the last byte.
unfoldable pub read_rvint32 : Mem → ℕ → Taken
read_rvint32 m ptr =
    let ret = bit_and (m ptr) 0x3f in
    let len = m ptr / 2 ^ 6 + 1 in
    let value =
      if len == 2
      then bit_or ret (m (ptr - 1) * 2 ^ 6)
      else if len == 3
      then bit_or (bit_or ret (m (ptr - 1) * 2 ^ 14)) (m (ptr - 2) * 2 ^ 6)
      else if len == 4
      then bit_or (bit_or (bit_or ret (m (ptr - 1) * 2 ^ 22)) (m (ptr - 2) * 2 ^ 14))
          (m (ptr - 3) * 2 ^ 6)
      else ret in
    record { value = value; len = len }

-- The `do` loop of `copy_fvint64` and `copy_fvint32`; `none`: it did not end within `rounds`.
unfoldable pub copy_fvint_loop : ℕ → Mem → ℕ → ℕ → ℕ → Option Copied
copy_fvint_loop zero m ptr u64 len = none
copy_fvint_loop (suc rounds) m ptr u64 len =
    let b = bit_and u64 0x7f in
    let u64' = u64 / 2 ^ 7 in
    let rest = copy_fvint_loop rounds (store m ptr (bit_or b 0x80)) (ptr + 1) u64' (len + 1) in
    if ltb 0 u64' then rest else some (record { mem = store m ptr b; len = len + 1 })

unfoldable pub copy_fvint64 : Mem → ℕ → ℕ → Option Copied
unfolding copy_fvint_loop
copy_fvint64 m ptr u64 = copy_fvint_loop 10 m ptr u64 0

unfoldable pub copy_fvint32 : Mem → ℕ → ℕ → Option Copied
unfolding copy_fvint_loop
copy_fvint32 m ptr u32 = copy_fvint_loop 5 m ptr u32 0

-- The loop of `append_fvint64`: the vector and the number of bytes pushed.
unfoldable pub append_fvint_loop : ℕ → List ℕ → ℕ → ℕ → Option (List ℕ × ℕ)
append_fvint_loop zero vec u64 len = none
append_fvint_loop (suc rounds) vec u64 len =
    let b = bit_and u64 0x7f in
    let u64' = u64 / 2 ^ 7 in
    let rest = append_fvint_loop rounds (vec ++ bit_or b 0x80 ∷ []) u64' (len + 1) in
    if ltb 0 u64' then rest else some (vec ++ b ∷ [], len + 1)

unfoldable pub append_fvint64 : List ℕ → ℕ → Option (List ℕ × ℕ)
unfolding append_fvint_loop
append_fvint64 vec u64 = append_fvint_loop 10 vec u64 0

-- The `do` loop of `read_fvint`; `none`: the eleventh byte would be shifted by 70 bits, which C++
-- leaves undefined.
unfoldable pub read_fvint_loop : ℕ → Mem → ℕ → ℕ → ℕ → Option Taken
read_fvint_loop zero m ptr len ret = none
read_fvint_loop (suc rounds) m ptr len ret =
    let bval = bit_and (m ptr) 0x7f in
    let ret' = (ret + bval * 2 ^ (7 * len) % 2 ^ 64) % 2 ^ 64 in
    let rest = read_fvint_loop rounds m (ptr + 1) (len + 1) ret' in
    if bit_and (m ptr) 0x80 == 0 then some (record { value = ret'; len = len + 1 }) else rest

unfoldable pub read_fvint : Mem → ℕ → Option Taken
unfolding read_fvint_loop
read_fvint m ptr = read_fvint_loop 10 m ptr 0 0

unfoldable pub fast_vuint32_size : ℕ → ℕ
unfolding high_bit
fast_vuint32_size zz = (high_bit 31 (bit_or zz 1) + 4) / 8 + 1

unfoldable pub fast_vuint64_size : ℕ → ℕ
unfolding high_bit
fast_vuint64_size zz = (high_bit 63 (bit_or zz 1) + 4) / 8 + 1

-- `memcpy(out, &value, n)` of an integer with at least `n` bytes.
unfoldable pub store_le : Mem → ℕ → ℕ → ℕ → Mem
store_le m out zero value = m
store_le m out (suc n) value = store_le (store m out (value % 256)) (out + 1) n (value / 256)

unfoldable pub copy_fast_vuint64 : ℕ → Mem → ℕ → ℕ → Mem
unfolding store_le
copy_fast_vuint64 input m out vlen =
    let value = bit_or (input * 2 ^ 4 % 2 ^ 64) vlen in
    let m' = store_le m out (if ltb 8 vlen then 8 else vlen) value in
    if ltb 8 vlen then store m' (out + 8) (input / 2 ^ 60) else m'

-- `none`: the copy of more than eight bytes into `packed` writes outside of it.
unfoldable pub read_fast_vuint64 : Mem → ℕ → Option Taken
unfolding read_le
read_fast_vuint64 m src =
    let len = bit_and (m src) 0x0f in
    if ltb 8 len then none else some (record { value = read_le m src len / 2 ^ 4; len = len })

-- `vlen` is at most 8.
unfoldable pub copy_fast_vuint32 : ℕ → Mem → ℕ → ℕ → Mem
unfolding store_le
copy_fast_vuint32 input m out vlen = store_le m out vlen (bit_or (input * 2 ^ 4) vlen)

-- `none`: the copy of more than four bytes into `packed` writes outside of it.
unfoldable pub read_fast_vuint32 : Mem → ℕ → Option Taken
unfolding read_le
read_fast_vuint32 m src =
    let len = bit_and (m src) 0x0f in
    if ltb 4 len then none else some (record { value = read_le m src len / 2 ^ 4; len = len })
