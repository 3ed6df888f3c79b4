-- ===== src/Examples/Madras.antt =====
-- The codecs of the static trie at inputs.
use index_research.Prelude.{◌<◌, ◌+◌, ◌-◌, ◌^◌, ◌≡◌, refl, some, arith}
use index_research.Prelude.Int.{pos, negsuc}
use index_research.Prelude.Memory.{Mem, IsMem}
use index_research.Madras.Fixed.{
  copy_uint16, copy_uint24, copy_uint32, copy_uint64, read_uint16, read_uint24, read_uint32,
  read_uint64, read-copy,
}
use index_research.Madras.Svint.{
  copy_svint60, read_svint60, read_svint60_len, copy_svint61, read_svint61, read_svint61_len,
  get_svint61_len, get_svint60_len,
}
use index_research.Madras.Svint.Small.{read_svint-copy_svint, read_svint_short}
use index_research.Madras.Vint.{
  Copied, copy_fast_vuint32, read_fast_vuint32, copy_fast_vuint64, read_fast_vuint64, copy_fvint64,
  read_fvint, fast_vuint64_size, fast_vuint32_size,
}
use index_research.Madras.Vint.RoundTrip.{read_fast-copy_fast}
use index_research.Util.Varint.{write_vint32}
use index_research.Madras.Vint32.{get_vlen_of_uint32, copy_vint32, read_vint32}
use index_research.Madras.Vint32.RoundTrip.{read_vint32-copy_vint32}
use index_research.Madras.Vint.Loop.{read_fvint-copy_fvint64}

abbrev fives : Mem
fives i = 5

read-copy_example :
    (read_uint16 (copy_uint16 0xabcd fives 3) 3 ≡ 0xabcd)
    × (read_uint24 (copy_uint24 0xabcdef fives 3) 3 ≡ 0xabcdef)
    × (read_uint32 (copy_uint32 0xdeadbeef fives 3) 3 ≡ 0xdeadbeef)
    × (read_uint64 (copy_uint64 0xdeadbeef12345678 fives 3) 3 ≡ 0xdeadbeef12345678)
read-copy_example =
    read-copy fives 3 0xabcd 0xabcdef 0xdeadbeef 0xdeadbeef12345678 (omega arith) (omega arith)
      (omega arith) (omega arith)

read_svint-copy_svint_example :
    (read_svint60 (copy_svint60 (pos 3000) fives 3 2) 3 ≡ pos 3000)
    × (read_svint60_len (copy_svint60 (pos 3000) fives 3 2) 3 ≡ 2)
    × (read_svint60 (copy_svint60 (negsuc 2999) fives 3 2) 3 ≡ negsuc 2999)
    × (read_svint60_len (copy_svint60 (negsuc 2999) fives 3 2) 3 ≡ 2)
    × (read_svint61_len (copy_svint61 8000 fives 3 2) 3 ≡ 2)
    × (1 < 2 → read_svint61 (copy_svint61 8000 fives 3 2) 3 ≡ 8000)
read_svint-copy_svint_example =
    read_svint-copy_svint fives 3 1 3000 2999 8000 (omega arith) (omega arith) (omega arith)
      (omega arith)

read_svint_short_example :
    (read_svint60 (copy_svint60 (negsuc (2 ^ 60 - 3)) fives 3 8) 3 ≡ pos 0)
    × (read_svint61 (copy_svint61 100 fives 3 (get_svint61_len 100)) 3 ≡ 4)
    × (read_svint61 (copy_svint61 0x12345 fives 3 3) 3 ≡ 0x14523)
read_svint_short_example =
    read_svint_short fives 3 (2 ^ 60 - 3) 100 0x12345 (omega arith) (omega arith) (omega arith)
      (omega arith) (omega arith)

read_fast-copy_fast_example :
    (read_fast_vuint32 (copy_fast_vuint32 70000 fives 3 3) 3
      ≡ some (record { value = 70000; len = 3 }))
    × (read_fast_vuint64 (copy_fast_vuint64 (2 ^ 60 - 1) fives 3 8) 3
        ≡ some (record { value = 2 ^ 60 - 1; len = 8 }))
read_fast-copy_fast_example =
    read_fast-copy_fast fives 3 70000 2 (2 ^ 60 - 1) 7 (omega arith) (omega arith) (omega arith)
      (omega arith)

-- The sizes for which that happens, and the lengths of two numbers.
sizes :
    (fast_vuint32_size (2 ^ 28) ≡ 5)
    × (fast_vuint64_size (2 ^ 60) ≡ 9)
    × (fast_vuint64_size (2 ^ 60 - 1) ≡ 8)
    × (get_svint60_len (negsuc 2999) ≡ 2)
    × (get_svint60_len (negsuc (2 ^ 60 - 3)) ≡ 8)
unfolding fast_vuint32_size fast_vuint64_size get_svint60_len
sizes = (refl, refl, refl, refl, refl)

read_fvint-copy_fvint64_example :
    (c : Copied) × (copy_fvint64 fives 3 (2 ^ 63 + 300) ≡ some c)
    × (read_fvint c.mem 3 ≡ some (record { value = 2 ^ 63 + 300; len = c.len }))
read_fvint-copy_fvint64_example = read_fvint-copy_fvint64 fives 3 (2 ^ 63 + 300) (omega arith)

fives_bytes : IsMem fives
fives_bytes i = omega arith

read_vint32-copy_vint32_example :
    let n = get_vlen_of_uint32 70000 in
    (read_vint32 (copy_vint32 70000 fives 3 n) 3 ≡ record { value = 70000; len = n })
    × (copy_vint32 70000 fives 3 n ≡ (write_vint32 fives 3 70000).mem)
read_vint32-copy_vint32_example = read_vint32-copy_vint32 fives 3 70000 fives_bytes (omega arith)
