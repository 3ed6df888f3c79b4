-- ===== src/Madras/Fixed.antt =====
-- Little-endian integers of src/madras_blk/gen.hpp. `memcpy` of an integer reads or writes its low byte
-- first, as on the machines the code is written for.
use Prim.Native.Nat.{bit_and, bit_or}
use index_research.Prelude.{
  ℕ, zero, suc, ◌+◌, ◌-◌, ◌*◌, ◌/◌, ◌%◌, ◌^◌, ◌<◌, ◌≡◌, arith, refl, List, [], ◌∷◌, ◌++◌,
  if◌then◌else◌, ◌==◌,
}
use index_research.Prelude.Bits.{bit_and_low}
use index_research.Prelude.Memory.{Mem, store, read_bytes}

-- `(uint8_t) (input >> 8 * i)`.
abbrev byte_at : ℕ → ℕ → ℕ
byte_at input i = bit_and (input / 2 ^ (8 * i)) 0xff

unfoldable pub copy_uint16 : ℕ → Mem → ℕ → Mem
copy_uint16 input m out = store (store m out (bit_and input 0xff)) (out + 1) (input / 2 ^ 8)

unfoldable pub copy_uint24 : ℕ → Mem → ℕ → Mem
copy_uint24 input m out =
    store (store (store m out (bit_and input 0xff)) (out + 1) (byte_at input 1)) (out + 2)
      (input / 2 ^ 16)

unfoldable pub copy_uint32 : ℕ → Mem → ℕ → Mem
copy_uint32 input m out =
    let m1 = store m out (bit_and input 0xff) in
    let m2 = store m1 (out + 1) (byte_at input 1) in
    let m3 = store m2 (out + 2) (byte_at input 2) in store m3 (out + 3) (input / 2 ^ 24)

unfoldable pub copy_uint64 : ℕ → Mem → ℕ → Mem
copy_uint64 input m out =
    let m1 = store m out (bit_and input 0xff) in
    let m2 = store m1 (out + 1) (byte_at input 1) in
    let m3 = store m2 (out + 2) (byte_at input 2) in
    let m4 = store m3 (out + 3) (byte_at input 3) in
    let m5 = store m4 (out + 4) (byte_at input 4) in
    let m6 = store m5 (out + 5) (byte_at input 5) in
    let m7 = store m6 (out + 6) (byte_at input 6) in store m7 (out + 7) (input / 2 ^ 56)

-- `push_back` of a wider integer keeps its low byte.
unfoldable pub append_uint16 : ℕ → List ℕ → List ℕ
append_uint16 u16 v = v ++ bit_and u16 0xff ∷ u16 / 2 ^ 8 % 256 ∷ []

unfoldable pub append_uint24 : ℕ → List ℕ → List ℕ
append_uint24 u24 v = v ++ bit_and u24 0xff ∷ byte_at u24 1 ∷ u24 / 2 ^ 16 % 256 ∷ []

unfoldable pub append_uint32 : ℕ → List ℕ → List ℕ
append_uint32 u32 v =
    v ++ bit_and u32 0xff ∷ byte_at u32 1 ∷ byte_at u32 2 ∷ u32 / 2 ^ 24 % 256 ∷ []

unfoldable pub append_uint64 : ℕ → List ℕ → List ℕ
append_uint64 u64 v =
    v
    ++ bit_and u64 0xff
      ∷ byte_at u64 1
      ∷ byte_at u64 2
      ∷ byte_at u64 3
      ∷ byte_at u64 4
      ∷ byte_at u64 5
      ∷ byte_at u64 6
      ∷ u64 / 2 ^ 56 % 256
      ∷ []

-- `memcpy(&tmp, ptr, n)` into an unsigned integer of at least `n` bytes that is 0.
unfoldable pub read_le : Mem → ℕ → ℕ → ℕ
read_le m ptr zero = 0
read_le m ptr (suc n) = m ptr + read_le m (ptr + 1) n * 256

unfoldable pub read_uint16 : Mem → ℕ → ℕ
unfolding read_le
read_uint16 m ptr = read_le m ptr 2

-- Four bytes are read.
unfoldable pub read_uint24 : Mem → ℕ → ℕ
unfolding read_le
read_uint24 m ptr = bit_and (read_le m ptr 4) 0x00ffffff

unfoldable pub read_uint32 : Mem → ℕ → ℕ
unfolding read_le
read_uint32 m ptr = read_le m ptr 4

unfoldable pub read_uint40 : Mem → ℕ → ℕ
unfolding read_le
read_uint40 m ptr = bit_or (read_le m ptr 4) (m (ptr + 4) * 2 ^ 32)

unfoldable pub read_uint64 : Mem → ℕ → ℕ
unfolding read_le
read_uint64 m t = read_le m t 8

unfoldable pub read_uintx : Mem → ℕ → ℕ → ℕ
unfolding read_le
read_uintx m ptr mask = bit_and (read_le m ptr 8) mask

unfoldable pub size_align8 : ℕ → ℕ
size_align8 input = if input % 8 == 0 then input else input + (8 - input % 8)

module _ (m : Mem) (p w : ℕ) where
  stored_0 : copy_uint64 w m p p ≡ w % 256
  unfolding copy_uint64
  stored_0 = ground (arith, bit_and_low 8 w)

  stored_1 : copy_uint64 w m p (p + 1) ≡ w / 2 ^ 8 % 256
  unfolding copy_uint64
  stored_1 = ground (arith, bit_and_low 8 (w / 2 ^ 8))

  stored_2 : copy_uint64 w m p (p + 1 + 1) ≡ w / 2 ^ 16 % 256
  unfolding copy_uint64
  stored_2 = ground (arith, bit_and_low 8 (w / 2 ^ 16))

  stored_3 : copy_uint64 w m p (p + 1 + 1 + 1) ≡ w / 2 ^ 24 % 256
  unfolding copy_uint64
  stored_3 = ground (arith, bit_and_low 8 (w / 2 ^ 24))

  stored_4 : copy_uint64 w m p (p + 1 + 1 + 1 + 1) ≡ w / 2 ^ 32 % 256
  unfolding copy_uint64
  stored_4 = ground (arith, bit_and_low 8 (w / 2 ^ 32))

  stored_5 : copy_uint64 w m p (p + 1 + 1 + 1 + 1 + 1) ≡ w / 2 ^ 40 % 256
  unfolding copy_uint64
  stored_5 = ground (arith, bit_and_low 8 (w / 2 ^ 40))

  stored_6 : copy_uint64 w m p (p + 1 + 1 + 1 + 1 + 1 + 1) ≡ w / 2 ^ 48 % 256
  unfolding copy_uint64
  stored_6 = ground (arith, bit_and_low 8 (w / 2 ^ 48))

  stored_7 : copy_uint64 w m p (p + 1 + 1 + 1 + 1 + 1 + 1 + 1) ≡ w / 2 ^ 56 % 256
  unfolding copy_uint64
  stored_7 = ground (arith)

  read_uint64-copy_uint64 : w < 2 ^ 64 → read_uint64 (copy_uint64 w m p) p ≡ w
  unfolding read_uint64
  read_uint64-copy_uint64 h =
      omega (arith, stored_0, stored_1, stored_2, stored_3, stored_4, stored_5, stored_6, stored_7)

-- What `copy_uint16`, `copy_uint24`, `copy_uint32` and `copy_uint64` store is read back, whatever the
-- memory held.
pub read-copy :
    (m : Mem) (p x y z w : ℕ)
    → x < 2 ^ 16
    → y < 2 ^ 24
    → z < 2 ^ 32
    → w < 2 ^ 64
    → (read_uint16 (copy_uint16 x m p) p ≡ x)
      × (read_uint24 (copy_uint24 y m p) p ≡ y)
      × (read_uint32 (copy_uint32 z m p) p ≡ z)
      × (read_uint64 (copy_uint64 w m p) p ≡ w)
unfolding read_uint16 copy_uint16 read_uint24 copy_uint24 read_uint32 copy_uint32
read-copy m p x y z w hx hy hz hw = (
  ground (arith, bit_and_low 8 x),
  ground
      (arith, bit_and_low 8 y, bit_and_low 8 (y / 2 ^ 8), bit_and_low 24 (y + m (p + 3) * 2 ^ 24)),
  ground (arith, bit_and_low 8 z, bit_and_low 8 (z / 2 ^ 8), bit_and_low 8 (z / 2 ^ 16)),
  read_uint64-copy_uint64 m p w hw,
)

append_uint64_lem :
    (m : Mem) (p w : ℕ) (v : List ℕ) → append_uint64 w v ≡ v ++ read_bytes (copy_uint64 w m p) p 8
unfolding append_uint64
append_uint64_lem m p w v =
    rw
      (
        stored_0 m p w,
        stored_1 m p w,
        stored_2 m p w,
        stored_3 m p w,
        stored_4 m p w,
        stored_5 m p w,
        stored_6 m p w,
        stored_7 m p w,
        bit_and_low 8 w,
        bit_and_low 8 (w / 2 ^ 8),
        bit_and_low 8 (w / 2 ^ 16),
        bit_and_low 8 (w / 2 ^ 24),
        bit_and_low 8 (w / 2 ^ 32),
        bit_and_low 8 (w / 2 ^ 40),
        bit_and_low 8 (w / 2 ^ 48),
      )
      refl

-- The bytes that the `append_` functions push are those that the `copy_` functions store.
pub append-copy :
    (m : Mem) (p x y z w : ℕ) (v : List ℕ)
    → (append_uint16 x v ≡ v ++ read_bytes (copy_uint16 x m p) p 2)
      × (append_uint24 y v ≡ v ++ read_bytes (copy_uint24 y m p) p 3)
      × (append_uint32 z v ≡ v ++ read_bytes (copy_uint32 z m p) p 4)
      × (append_uint64 w v ≡ v ++ read_bytes (copy_uint64 w m p) p 8)
unfolding append_uint16 copy_uint16 append_uint24 copy_uint24 append_uint32 copy_uint32
append-copy m p x y z w v = (
  ground (arith, bit_and_low 8 x),
  ground (arith, bit_and_low 8 y, bit_and_low 8 (y / 2 ^ 8)),
  ground (arith, bit_and_low 8 z, bit_and_low 8 (z / 2 ^ 8), bit_and_low 8 (z / 2 ^ 16)),
  append_uint64_lem m p w v,
)

-- `size_align8` gives the least multiple of 8 that is not below its argument.
pub size_align8_lem :
    (x : ℕ) → (size_align8 x % 8 ≡ 0) × (x < size_align8 x + 1) × (size_align8 x < x + 8)
unfolding size_align8
size_align8_lem x = (ground arith, ground arith, ground arith)
