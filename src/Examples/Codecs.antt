-- ===== src/Examples/Codecs.antt =====
-- The codecs and the comparison at concrete values.
use index_research.Prelude.{ℕ, ◌+◌, ◌^◌, ◌≡◌, refl, ◌≢◌, List, [], ◌∷◌, arith}
use index_research.Prelude.Int.{pos, negsuc}
use index_research.Prelude.Memory.{Mem}
use index_research.Util.Codec.{write_uint16, read_uint16, write_uint32, read_uint32, set_int3}
use index_research.Util.Codec.{get_int3, read_uint24, write_int24, read_int24, write_int48}
use index_research.Util.Codec.{read_int48, write_uint64}
use index_research.Util.Codec.RoundTrip.{read-write}
use index_research.Util.Compare.{compare, fast_memeq}
use index_research.Util.Compare.Order.{Decides, compare-Decides}

abbrev blank : Mem
blank i = 0

-- Seven bytes are written and six are read.
int48_five : read_int48 (write_int48 blank 0 5) 0 ≡ 0
unfolding read_int48 write_int48
int48_five = refl

uint64_bytes : write_uint64 blank 0 (2 ^ 56 + 7) 0 ≡ 1
unfolding write_uint64
uint64_bytes = refl

abbrev abc : List ℕ
abc = 97 ∷ 98 ∷ 99 ∷ []

abbrev abd : List ℕ
abd = 97 ∷ 98 ∷ 100 ∷ []

compare_runs : (compare abc abd ≡ negsuc 2) × (compare abd abc ≡ pos 3) × (compare abc abc ≡ pos 0)
unfolding compare
compare_runs = (refl, refl, refl)

compare-Decides_example : Decides abc abd (compare abc abd)
compare-Decides_example = compare-Decides abc abd

abc-ne-abd : abc ≢ abd
abc-ne-abd = ground arith

memeq_runs : fast_memeq blank 0 blank 9 7 ≡ 0
unfolding fast_memeq
memeq_runs = refl

read-write_example :
    (read_uint16 (write_uint16 blank 5 0xabcd) 5 ≡ 0xabcd)
    × (read_uint32 (write_uint32 blank 5 0xdeadbeef) 5 ≡ 0xdeadbeef)
    × (get_int3 (set_int3 blank 5 0xabcdef) 5 ≡ 0xabcdef)
    × (read_uint24 (set_int3 blank 5 0xabcdef) 5 ≡ 0xabcdef)
    × (read_int24 (write_int24 blank 5 70000) 5 ≡ 70000)
read-write_example =
    read-write blank 5 0xabcd 0xdeadbeef 0xabcdef 70000 (omega arith) (omega arith) (omega arith)
      (omega arith)
