-- ===== src/Util/BitCount/Laws.antt =====
-- The three ways to count bits agree on every byte, and the masks are those of the outermost bits.
use Prim.Native.Nat.{bit_and}
use index_research.Prelude.{
  ℕ, zero, suc, ◌+◌, ◌*◌, ◌/◌, ◌%◌, ◌^◌, ◌≤◌, ◌<◌, ◌≡◌, refl, arith, get_or,
}
use index_research.Prelude.{ltb, leb, ◌==◌, ◌&&◌, ◌||◌, true}
use index_research.Prelude.Bits.{all_below, all_below_sound, byte_table}
use index_research.Util.BitCount.{
  count_set_bits, first_bit_mask, last_bit_mask, first_bit_offset, bitcount,
}
use index_research.Util.BitCount.Tables.{bit_count, bit_count2x, bit_count_lf_ch}

-- The number of ones among the lowest `n` bits.
abbrev pub ones : ℕ → ℕ → ℕ
ones zero x = 0
ones (suc n) x = x % 2 + ones n (x / 2)

-- The loop, the SWAR formula and the table all give the number of ones of a byte; the other two
-- tables give twice that number, and count the bits at even places twice.
pub bit_counts :
    (x : ℕ)
    → x < 256
    → (count_set_bits x ≡ ones 8 x)
      × (bitcount x ≡ ones 8 x)
      × (get_or bit_count x 0 ≡ ones 8 x)
      × (get_or bit_count2x x 0 ≡ 2 * ones 8 x)
      × (get_or bit_count_lf_ch x 0 ≡ ones 8 (bit_and x 0xaa) + 2 * ones 8 (bit_and x 0x55))
unfolding count_set_bits bitcount
bit_counts x h = (
  byte_table count_set_bits (ones 8) refl x h,
  byte_table bitcount (ones 8) refl x h,
  byte_table (λ y. get_or bit_count y 0) (ones 8) refl x h,
  byte_table (λ y. get_or bit_count2x y 0) (λ y. 2 * ones 8 y) refl x h,
  byte_table (λ y. get_or bit_count_lf_ch y 0)
      (λ y. ones 8 (bit_and y 0xaa) + 2 * ones 8 (bit_and y 0x55)) refl x h,
)

first_table :
    all_below 256 (λ y. y == 0 || (leb (first_bit_mask y) y && ltb y (2 * first_bit_mask y))) ≡ true
unfolding first_bit_mask
first_table = refl

last_table : all_below 256 (λ y. y == 0 || (y % (2 * last_bit_mask y) == last_bit_mask y)) ≡ true
unfolding last_bit_mask
last_table = refl

offset_table : all_below 256 (λ y. y == 0 || (2 ^ first_bit_offset y == last_bit_mask y)) ≡ true
unfolding last_bit_mask first_bit_offset
offset_table = refl

-- Of a byte that is not 0, `first_bit_mask` is the highest bit, `last_bit_mask` the lowest, and
-- `first_bit_offset` the place of the lowest.
pub bit_masks :
    (x : ℕ)
    → x < 256
    → 0 < x
    → (first_bit_mask x ≤ x)
      × (x < 2 * first_bit_mask x)
      × (x % (2 * last_bit_mask x) ≡ last_bit_mask x)
      × (2 ^ first_bit_offset x ≡ last_bit_mask x)
bit_masks x h pos = (
  ground (arith, first),
  ground (arith, first),
  ground (
    arith,
    all_below_sound 256 (λ y. y == 0 || (y % (2 * last_bit_mask y) == last_bit_mask y)) x last_table
        h,
  ),
  ground (
    arith,
    all_below_sound 256 (λ y. y == 0 || (2 ^ first_bit_offset y == last_bit_mask y)) x offset_table
        h,
  ),
)
  where
    first : (x == 0 || (leb (first_bit_mask x) x && ltb x (2 * first_bit_mask x))) ≡ true
    first =
        all_below_sound 256
          (λ y. y == 0 || (leb (first_bit_mask y) y && ltb y (2 * first_bit_mask y))) x first_table
          h
