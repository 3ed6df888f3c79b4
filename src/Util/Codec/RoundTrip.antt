-- ===== src/Util/Codec/RoundTrip.antt =====
-- What the writers of src/univix_util.h store and what the readers make of it.
use Prim.Native.Nat.{bit_and, bit_or}
use index_research.Prelude.{ℕ, ◌+◌, ◌-◌, ◌*◌, ◌/◌, ◌%◌, ◌^◌, ◌≤◌, ◌<◌, ◌≡◌, refl}
use index_research.Prelude.{none, arith}
use index_research.Prelude.Bits.{bit_or-shift, bit_and_low, byte_table}
use index_research.Prelude.Memory.{Mem}
use index_research.Util.Codec.{get_int3, set_int3, write_uint16, read_uint16}
use index_research.Util.Codec.{write_uint32, write_int24, read_int24}
use index_research.Util.Codec.{read_uint24, read_uint32, read_uint48, read_uint64}

-- A uint16_t written big-endian is read back.
pub read_uint16-write_uint16 :
    (m : Mem) (p x : ℕ) → x < 2 ^ 16 → read_uint16 (write_uint16 m p x) p ≡ x
unfolding read_uint16 write_uint16
read_uint16-write_uint16 m p x h = ground (arith, bit_and_low 8 x)

-- A uint32_t written big-endian is read back.
pub read_uint32-write_uint32 :
    (m : Mem) (p x : ℕ) → x < 2 ^ 32 → read_uint32 (write_uint32 m p x) p ≡ x
unfolding read_uint32 write_uint32
read_uint32-write_uint32 m p x h = ground (
  arith,
  bit_and_low 8 (x / 2 ^ 24),
  bit_and_low 8 (x / 2 ^ 16),
  bit_and_low 8 (x / 2 ^ 8),
  bit_and_low 8 x,
)

-- `get_int3` and `read_uint24` both read back the three bytes that `set_int3` stores.
pub get_int3-set_int3 :
    (m : Mem) (p x : ℕ)
    → x < 2 ^ 24
    → (get_int3 (set_int3 m p x) p ≡ x) × (read_uint24 (set_int3 m p x) p ≡ x)
unfolding get_int3 set_int3 read_uint24
get_int3-set_int3 m p x h = (
  ground (arith, bit_and_low 8 (x / 2 ^ 8), bit_and_low 8 x),
  ground (arith, bit_and_low 8 (x / 2 ^ 8), bit_and_low 8 x),
)

-- `read_uint64` shifts an int by 56 bits, which C++ leaves undefined, whatever the memory holds;
-- `read_uint48` shifts it by 40.
pub read_uint64_undefined : (m : Mem) (p : ℕ) → (read_uint64 m p ≡ none) × (read_uint48 m p ≡ none)
unfolding read_uint64 read_uint48
read_uint64_undefined m p = (refl, refl)

sign_bit : (x : ℕ) → x < 256 → bit_and x 0x80 ≡ x / 128 * 128
sign_bit = byte_table (λ x. bit_and x 0x80) (λ x. x / 128 * 128) refl

or-zero : (y : ℕ) → y < 256 → bit_or 0 y ≡ y
or-zero y h = omega (arith, bit_or-shift 8 0 y h)

-- The three bytes of `write_int24` for a value whose top bit is clear.
write_int24_bytes :
    (m : Mem) (p x : ℕ)
    → x < 2 ^ 31
    → (write_int24 m p x p ≡ x / 2 ^ 16 % 256)
      × (write_int24 m p x (p + 1) ≡ x / 2 ^ 8 % 256)
      × (write_int24 m p x (p + 2) ≡ x % 256)
unfolding write_int24
write_int24_bytes m p x h = (
  ground (
    arith,
    sign_bit (x / 2 ^ 24) (omega arith),
    bit_and_low 8 (x / 2 ^ 16),
    or-zero (x / 2 ^ 16 % 256) (omega arith),
  ),
  ground (arith, bit_and_low 8 (x / 2 ^ 8), or-zero (x / 2 ^ 8 % 256) (omega arith)),
  ground (arith, bit_and_low 8 x, or-zero (x % 256) (omega arith)),
)

or_top : (y : ℕ) → y < 256 → bit_or 0x80 y ≡ 128 + y % 128
or_top = byte_table (λ y. bit_or 0x80 y) (λ y. 128 + y % 128) refl

-- `read_int24` puts bit 7 of the first byte at bit 31, and the rest at bits 0 to 22.
read_int24_sum :
    (m : Mem) (p : ℕ)
    → m p < 256
    → m (p + 1) < 256
    → m (p + 2) < 256
    → read_int24 m p ≡ m p / 128 * 2 ^ 31 + m p % 128 * 2 ^ 16 + m (p + 1) * 2 ^ 8 + m (p + 2)
unfolding read_int24
read_int24_sum m p h k l = ground (
  arith,
  sign_bit (m p) h,
  bit_and_low 7 (m p),
  bit_or-shift 31 (m p / 128) (m p % 128 * 2 ^ 16) (omega arith),
  bit_or-shift 16 (m p / 128 * 2 ^ 15 + m p % 128) (m (p + 1) * 2 ^ 8) (omega arith),
)

write_int24_top :
    (m : Mem) (p x : ℕ)
    → 2 ^ 31 ≤ x
    → x < 2 ^ 32
    → (write_int24 m p x p ≡ 128 + x / 2 ^ 16 % 128)
      × (write_int24 m p x (p + 1) ≡ x / 2 ^ 8 % 256)
      × (write_int24 m p x (p + 2) ≡ x % 256)
unfolding write_int24
write_int24_top m p x h k = (
  ground (
    arith,
    sign_bit (x / 2 ^ 24) (omega arith),
    bit_and_low 8 (x / 2 ^ 16),
    or_top (x / 2 ^ 16 % 256) (omega arith),
  ),
  ground (arith, bit_and_low 8 (x / 2 ^ 8), or-zero (x / 2 ^ 8 % 256) (omega arith)),
  ground (arith, bit_and_low 8 x, or-zero (x % 256) (omega arith)),
)

-- A non-negative int24 is read back as it was written.
pub read_int24-write_int24 : (m : Mem) (p x : ℕ) → x < 2 ^ 23 → read_int24 (write_int24 m p x) p ≡ x
read_int24-write_int24 m p x h =
    omega (arith, write_int24_bytes m p x (omega arith), read_int24_sum (write_int24 m p x) p)

-- A negative int24 (its 32-bit pattern is at least 2^32 - 2^23) never is: bits 23 to 30 of the
-- pattern are lost.
pub read_int24-write_int24_neg :
    (m : Mem) (p x : ℕ)
    → 2 ^ 32 - 2 ^ 23 ≤ x
    → x < 2 ^ 32
    → read_int24 (write_int24 m p x) p + (2 ^ 31 - 2 ^ 23) ≡ x
read_int24-write_int24_neg m p x h k =
    omega (arith, write_int24_top m p x (omega arith) k, read_int24_sum (write_int24 m p x) p)

-- A uint16_t, a uint32_t, three bytes and a non-negative int24 that are written are read back.
pub read-write :
    (m : Mem) (p x y z w : ℕ)
    → x < 2 ^ 16
    → y < 2 ^ 32
    → z < 2 ^ 24
    → w < 2 ^ 23
    → (read_uint16 (write_uint16 m p x) p ≡ x)
      × (read_uint32 (write_uint32 m p y) p ≡ y)
      × (get_int3 (set_int3 m p z) p ≡ z)
      × (read_uint24 (set_int3 m p z) p ≡ z)
      × (read_int24 (write_int24 m p w) p ≡ w)
read-write m p x y z w hx hy hz hw = (
  read_uint16-write_uint16 m p x hx,
  read_uint32-write_uint32 m p y hy,
  (get_int3-set_int3 m p z hz).0,
  (get_int3-set_int3 m p z hz).1,
  read_int24-write_int24 m p w hw,
)
