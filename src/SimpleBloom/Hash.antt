-- ===== src/SimpleBloom/Hash.antt =====
-- `DecodeFixed32`, `Hash`, `BloomHash`, `sax_hash` and `sdbm_hash` of src/simple_bloom.h. The key is
-- the list of its bytes; every sum and product of uint32_t wraps.
use Prim.Native.Nat.{bit_or, bit_xor}
use index_research.Prelude.{ℕ, ◌+◌, ◌-◌, ◌*◌, ◌/◌, ◌%◌, ◌^◌, ◌<◌, ◌≡◌, refl, List, [], ◌∷◌}
use index_research.Prelude.{length, arith}
use index_research.Prelude.Bits.{shift-bit_or}

unfoldable pub decode_fixed32 : ℕ → ℕ → ℕ → ℕ → ℕ
decode_fixed32 b0 b1 b2 b3 =
    bit_or (bit_or (bit_or b0 (b1 * 2 ^ 8)) (b2 * 2 ^ 16)) (b3 * 2 ^ 24 % 2 ^ 32)

abbrev pub hash_m : ℕ
hash_m = 0xc6a4a793

-- `h *= m; h ^= h >> shift`.
unfoldable pub scramble : ℕ → ℕ → ℕ
scramble h shift = let p = h * hash_m % 2 ^ 32 in bit_xor p (p / 2 ^ shift)

-- Four bytes at a time, then the `switch` over the last three, two or one.
unfoldable pub hash_loop : List ℕ → ℕ → ℕ
unfolding decode_fixed32 scramble
hash_loop [] h = h
hash_loop (b0 ∷ []) h = scramble ((h + b0) % 2 ^ 32) 24
hash_loop (b0 ∷ b1 ∷ []) h = scramble ((h + b1 * 2 ^ 8 + b0) % 2 ^ 32) 24
hash_loop (b0 ∷ b1 ∷ b2 ∷ []) h = scramble ((h + b2 * 2 ^ 16 + b1 * 2 ^ 8 + b0) % 2 ^ 32) 24
hash_loop (b0 ∷ b1 ∷ b2 ∷ b3 ∷ rest) h =
    hash_loop rest (scramble ((h + decode_fixed32 b0 b1 b2 b3) % 2 ^ 32) 16)

-- `n * m` is a product of size_t.
unfoldable pub hash : List ℕ → ℕ → ℕ
unfolding hash_loop
hash key seed = hash_loop key (bit_xor seed (length key * hash_m % 2 ^ 64) % 2 ^ 32)

unfoldable pub bloom_hash : List ℕ → ℕ
unfolding hash
bloom_hash key = hash key 0xbc9f1d34

-- `(h >> 17) | (h << 15)`.
unfoldable pub rotate_right_17 : ℕ → ℕ
rotate_right_17 h = bit_or (h / 2 ^ 17) (h * 2 ^ 15 % 2 ^ 32)

unfoldable pub sax_loop : List ℕ → ℕ → ℕ
sax_loop [] h = h
sax_loop (c ∷ key) h = sax_loop key (bit_xor h ((h * 2 ^ 5 % 2 ^ 32 + h / 2 ^ 2 + c) % 2 ^ 32))

unfoldable pub sax_hash : List ℕ → ℕ
unfolding sax_loop
sax_hash key = sax_loop key 0

unfoldable pub sdbm_loop : List ℕ → ℕ → ℕ
sdbm_loop [] h = h
sdbm_loop (c ∷ key) h =
    sdbm_loop key ((c + h * 2 ^ 6 % 2 ^ 32 + h * 2 ^ 16 % 2 ^ 32 + 2 ^ 32 - h) % 2 ^ 32)

unfoldable pub sdbm_hash : List ℕ → ℕ
unfolding sdbm_loop
sdbm_hash key = sdbm_loop key 0

-- The polynomial in 65599 with the bytes as coefficients.
abbrev pub polynomial : List ℕ → ℕ → ℕ
polynomial [] acc = acc
polynomial (c ∷ key) acc = polynomial key (acc * 65599 + c)

sdbm_step :
    (c h acc : ℕ)
    → h ≡ acc % 2 ^ 32
    → (c + h * 2 ^ 6 % 2 ^ 32 + h * 2 ^ 16 % 2 ^ 32 + 2 ^ 32 - h) % 2 ^ 32
      ≡ (acc * 65599 + c) % 2 ^ 32
sdbm_step c h acc e = omega arith

sdbm_loop-polynomial :
    (key : List ℕ) (h acc : ℕ) → h ≡ acc % 2 ^ 32 → sdbm_loop key h ≡ polynomial key acc % 2 ^ 32
unfolding sdbm_loop
sdbm_loop-polynomial [] h acc e = e
sdbm_loop-polynomial (c ∷ key) h acc e =
    sdbm_loop-polynomial key _ (acc * 65599 + c) (sdbm_step c h acc e)

-- The shifts of `sdbm_hash` compute the polynomial in 65599 of the bytes, modulo 2^32.
pub sdbm_hash-polynomial : (key : List ℕ) → sdbm_hash key ≡ polynomial key 0 % 2 ^ 32
unfolding sdbm_hash
sdbm_hash-polynomial key = sdbm_loop-polynomial key 0 0 refl

-- `DecodeFixed32` reads the four bytes lowest first.
pub decode_fixed32_sum :
    (b0 b1 b2 b3 : ℕ)
    → b0 < 256
    → b1 < 256
    → b2 < 256
    → b3 < 256
    → decode_fixed32 b0 b1 b2 b3 ≡ b0 + b1 * 2 ^ 8 + b2 * 2 ^ 16 + b3 * 2 ^ 24
unfolding decode_fixed32
decode_fixed32_sum b0 b1 b2 b3 h0 h1 h2 h3 = ground (
  arith,
  shift-bit_or 8 b1 b0 h0,
  shift-bit_or 16 b2 (b1 * 2 ^ 8 + b0) (omega arith),
  shift-bit_or 24 b3 (b2 * 2 ^ 16 + (b1 * 2 ^ 8 + b0)) (omega arith),
)
