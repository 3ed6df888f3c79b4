-- ===== src/Util/Varint.antt =====
-- Variable-length integers of src/univix_util.h: seven bits to a byte, the highest first, bit 7 set
-- on every byte but the last.
pub mod RoundTrip
use Prim.Native.Nat.{bit_and}
use index_research.Prelude.{ℕ, zero, suc, ◌+◌, ◌-◌, ◌*◌, ◌/◌, ◌%◌, ◌^◌, ltb, ◌==◌, if◌then◌else◌}
use index_research.Prelude.Memory.{Mem, store}

unfoldable pub get_vlen_of_uint16 : ℕ → ℕ
get_vlen_of_uint16 vint = if ltb 16383 vint then 3 else if ltb 127 vint then 2 else 1

unfoldable pub get_vlen_of_uint32 : ℕ → ℕ
get_vlen_of_uint32 vint =
    if ltb (2 ^ 28 - 1) vint
    then 5
    else if ltb (2 ^ 21 - 1) vint
    then 4
    else if ltb (2 ^ 14 - 1) vint
    then 3
    else if ltb (2 ^ 7 - 1) vint
    then 2
    else 1

unfoldable pub get_vlen_of_uint64 : ℕ → ℕ
get_vlen_of_uint64 vint =
    if ltb (2 ^ 56 - 1) vint
    then 9
    else if ltb (2 ^ 49 - 1) vint
    then 8
    else if ltb (2 ^ 42 - 1) vint
    then 7
    else if ltb (2 ^ 35 - 1) vint
    then 6
    else if ltb (2 ^ 28 - 1) vint
    then 5
    else if ltb (2 ^ 21 - 1) vint
    then 4
    else if ltb (2 ^ 14 - 1) vint
    then 3
    else if ltb (2 ^ 7 - 1) vint
    then 2
    else 1

-- The `for` loop with `i` rounds left, and the last byte.
unfoldable pub write_groups : Mem → ℕ → ℕ → ℕ → Mem
write_groups m p zero vint = store m p (bit_and vint 0x7f)
write_groups m p (suc i) vint =
    write_groups (store m p (0x80 + bit_and (vint / 2 ^ (7 * suc i)) 0x7f)) (p + 1) i vint

-- The memory after the call, and the length that it returns.
pub record Written : Type 0 where
  pub mem : Mem
  pub len : ℕ

unfoldable pub write_vint16 : Mem → ℕ → ℕ → Written
unfolding write_groups
write_vint16 m p vint =
    let len = get_vlen_of_uint16 vint in record { mem = write_groups m p (len - 1) vint; len = len }

unfoldable pub write_vint32 : Mem → ℕ → ℕ → Written
unfolding write_groups
write_vint32 m p vint =
    let len = get_vlen_of_uint32 vint in record { mem = write_groups m p (len - 1) vint; len = len }

-- The loop of `write_vint64`: the byte for `i = 8` holds the top eight bits, with no flag.
unfoldable pub write_groups64 : Mem → ℕ → ℕ → ℕ → Mem
write_groups64 m p zero vint = store m p (bit_and vint 0x7f)
write_groups64 m p (suc i) vint =
    let byte = if suc i == 8 then vint / 2 ^ 56 else 0x80 + bit_and (vint / 2 ^ (7 * suc i)) 0x7f in
    write_groups64 (store m p byte) (p + 1) i vint

unfoldable pub write_vint64 : Mem → ℕ → ℕ → Written
unfolding write_groups64
write_vint64 m p vint =
    let len = get_vlen_of_uint64 vint in
    record { mem = write_groups64 m p (len - 1) vint; len = len }

-- The integer read, and `len` when the loop ends.
pub record Scan : Type 0 where
  pub ret : ℕ
  pub left : ℕ

-- The `do` loop over words of `w` bits, with at most `len` bytes to go.
unfoldable pub read_groups : ℕ → Mem → ℕ → ℕ → ℕ → Scan
read_groups w m p zero ret = record { ret = ret; left = 0 }
read_groups w m p (suc len) ret =
    let ret' = (ret * 2 ^ 7 % 2 ^ w + bit_and (m p) 0x7f) % 2 ^ w in
    let rest = read_groups w m (p + 1) len ret' in
    if bit_and (m p) 0x80 == 0x80 then rest else record { ret = ret'; left = len }

-- The integer, and what is stored at `vlen`.
pub record Read : Type 0 where
  pub value : ℕ
  pub vlen : ℕ

unfoldable pub read_vint16 : Mem → ℕ → Read
read_vint16 m p = let s = read_groups 16 m p 3 0 in record { value = s.ret; vlen = 3 - s.left }

unfoldable pub read_vint32 : Mem → ℕ → Read
read_vint32 m p = let s = read_groups 32 m p 5 0 in record { value = s.ret; vlen = 5 - s.left }
