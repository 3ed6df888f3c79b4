-- ===== src/Examples/Varints.antt =====
-- The variable-length integers, the page numbers and the bit counts at concrete values.
use index_research.Prelude.{ℕ, ◌+◌, ◌*◌, ◌^◌, ◌<◌, ◌≡◌, refl, get_or, [], ◌∷◌, arith}
use Prim.Native.Nat.{bit_and}
use index_research.Prelude.Memory.{Mem, read_bytes}
use index_research.Util.Varint.{write_vint16, write_vint64}
use index_research.Util.Varint.{get_vlen_of_uint16, get_vlen_of_uint64}
use index_research.Util.Address.{ptr_to_bytes, bytes_to_ptr}
use index_research.Util.Address.RoundTrip.{bytes_to_ptr-ptr_to_bytes}
use index_research.Util.BitCount.{count_set_bits, bitcount}
use index_research.Util.BitCount.Tables.{bit_count, bit_count2x, bit_count_lf_ch}
use index_research.Util.BitCount.Laws.{ones, bit_counts}

abbrev empty : Mem
empty i = 0

vint_runs :
    (read_bytes (write_vint16 empty 0 300).mem 0 2 ≡ 130 ∷ 44 ∷ [])
    × ((write_vint64 empty 0 (2 ^ 63)).len ≡ 9)
unfolding write_vint16 write_vint64 get_vlen_of_uint16 get_vlen_of_uint64
vint_runs = (refl, refl)

bit_counts_example :
    (count_set_bits 0xb5 ≡ ones 8 0xb5)
    × (bitcount 0xb5 ≡ ones 8 0xb5)
    × (get_or bit_count 0xb5 0 ≡ ones 8 0xb5)
    × (get_or bit_count2x 0xb5 0 ≡ 2 * ones 8 0xb5)
    × (get_or bit_count_lf_ch 0xb5 0 ≡ ones 8 (bit_and 0xb5 0xaa) + 2 * ones 8 (bit_and 0xb5 0x55))
bit_counts_example = bit_counts 0xb5 (omega arith)

empty_byte : (i : ℕ) → empty i < 256
empty_byte i = omega arith

bytes_to_ptr-ptr_to_bytes_example :
    let out = ptr_to_bytes empty 6 70000 in (0 < out.len) × (bytes_to_ptr out.mem 5 out.len ≡ 70000)
bytes_to_ptr-ptr_to_bytes_example =
    bytes_to_ptr-ptr_to_bytes empty 5 70000 empty_byte (omega arith) (omega arith)

page_bytes : read_bytes (ptr_to_bytes empty 6 70000).mem 6 3 ≡ 1 ∷ 17 ∷ 112 ∷ []
unfolding ptr_to_bytes
page_bytes = refl
