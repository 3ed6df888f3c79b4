-- ===== src/SimpleBloom/Bits.antt =====
-- One bit of a byte: set, and tested.
use Prim.Native.Nat.{bit_and, bit_or}
use index_research.Prelude.{
  ℕ, ◌+◌, ◌*◌, ◌/◌, ◌%◌, ◌^◌, ◌<◌, ◌≡◌, ◌≢◌, refl, not, ◌==◌, ltb, ◌||◌, true, arith,
}
use index_research.Prelude.Bits.{all_below, all_below_sound}

-- Whether bit `k` of `x` is clear.
abbrev pub clear_at : ℕ → ℕ → ℕ
clear_at x k = bit_and x (2 ^ k)

set_table : all_below 2048 (λ y. not (clear_at (bit_or (y / 8) (2 ^ (y % 8))) (y % 8) == 0)) ≡ true
set_table = refl

byte_table' : all_below 2048 (λ y. ltb (bit_or (y / 8) (2 ^ (y % 8))) 256) ≡ true
byte_table' = refl

keep_table :
    all_below 16384 (λ y.
      clear_at (y / 64) (y % 8) == 0
      || not (clear_at (bit_or (y / 64) (2 ^ (y / 8 % 8))) (y % 8) == 0))
    ≡ true
keep_table = refl

-- Setting a bit sets it.
pub set_bit_lem : (x k : ℕ) → x < 256 → k < 8 → clear_at (bit_or x (2 ^ k)) k ≢ 0
set_bit_lem x k h l e = ground (arith, e, at_pair)
  where
    q : (x * 8 + k) / 8 ≡ x
    q = omega arith

    r : (x * 8 + k) % 8 ≡ k
    r = omega arith

    at_pair : not (clear_at (bit_or x (2 ^ k)) k == 0) ≡ true
    at_pair =
        rw (q, r) at
          (all_below_sound 2048 (λ y. not (clear_at (bit_or (y / 8) (2 ^ (y % 8))) (y % 8) == 0))
            (x * 8 + k) set_table (omega arith))

-- A byte stays a byte.
pub set_bit-lt : (x k : ℕ) → x < 256 → k < 8 → bit_or x (2 ^ k) < 256
set_bit-lt x k h l = ground (arith, at_pair)
  where
    q : (x * 8 + k) / 8 ≡ x
    q = omega arith

    r : (x * 8 + k) % 8 ≡ k
    r = omega arith

    at_pair : ltb (bit_or x (2 ^ k)) 256 ≡ true
    at_pair =
        rw (q, r) at
          (all_below_sound 2048 (λ y. ltb (bit_or (y / 8) (2 ^ (y % 8))) 256) (x * 8 + k)
            byte_table' (omega arith))

-- Setting a bit clears none.
pub keep_bit_lem :
    (x k j : ℕ) → x < 256 → k < 8 → j < 8 → clear_at x j ≢ 0 → clear_at (bit_or x (2 ^ k)) j ≢ 0
keep_bit_lem x k j h l m ne e = ground (arith, e, ne, at_triple)
  where
    q : (x * 64 + k * 8 + j) / 64 ≡ x
    q = omega arith

    r : (x * 64 + k * 8 + j) / 8 % 8 ≡ k
    r = omega arith

    s : (x * 64 + k * 8 + j) % 8 ≡ j
    s = omega arith

    at_triple : (clear_at x j == 0 || not (clear_at (bit_or x (2 ^ k)) j == 0)) ≡ true
    at_triple =
        rw (q, r, s) at
          (all_below_sound 16384
            (λ y.
              clear_at (y / 64) (y % 8) == 0
              || not (clear_at (bit_or (y / 64) (2 ^ (y / 8 % 8))) (y % 8) == 0))
            (x * 64 + k * 8 + j) keep_table (omega arith))
